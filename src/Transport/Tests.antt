-- ===== src/Transport/Tests.antt =====
-- The transport's theorems at a concrete transport.
use up_cpp.Common.{◌≡◌, ◌⊎◌, none, some, true, false}
use up_cpp.Common.Outcome.{ok, throw}
use up_cpp.Exception.{invalid_umessage}
use up_cpp.Validator.Reasons.{MessageReason}
use up_cpp.Validator.Message
use up_cpp.Samples.{pb, readings, publication, transport, world, fine}
use up_cpp.Transport.World.{sent}
use up_cpp.Transport.{send}
use up_cpp.Transport.Contract.{logged, send_contract}

send_contract_example :
    ((Message.is_valid pb readings publication ≡ (true, none))
      × (send pb transport readings publication world ≡ (ok fine, logged world (sent publication))))
    ⊎ ((why : MessageReason) × (Message.is_valid pb readings publication ≡ (false, some why))
        × (send pb transport readings publication world
            ≡ (throw (invalid_umessage "Invalid UMessage | " (some why)), world)))
send_contract_example = send_contract pb transport readings publication world
