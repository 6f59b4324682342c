-- ===== src/Exception.antt =====
-- The exceptions that the program throws. One that carries a validator's reason keeps the text in
-- front of the reason's message and the optional reason that the source dereferences.
use up_cpp.Common.{String, Option}
use up_cpp.Common.Outcome.{Outcome}
use up_cpp.Validator.Reasons.{UriReason, UuidReason, MessageReason}

pub data Exception : Type 0 where
  invalid_uuri : String → Option UriReason → Exception
  invalid_uuid : String → Option UuidReason → Exception
  invalid_umessage : String → Option MessageReason → Exception
  out_of_range : String → Exception
  invalid_argument : String → Exception
  domain_error : String → Exception
  unexpected_format : String → Exception
  payload_moved : String → Exception
  null_transport : String → Exception
  empty_function_object : String → Exception

abbrev pub Result {ℓ} : Type ℓ → Type ℓ
Result A = Outcome Exception A
