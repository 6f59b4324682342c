-- ===== src/Communication/Publisher.antt =====
-- src/communication/Publisher.cpp. A null transport is `none`.
use up_cpp.Common.{Option, none, some, value_or}
use up_cpp.Common.Int.{ℤ}
use up_cpp.Common.Outcome.{ok, throw, ◌>>=◌}
use up_cpp.Proto.{UUri, UStatus, Protobuf}
use up_cpp.Exception.{Result, null_transport}
use up_cpp.Validator.Message.{Readings}
use up_cpp.Builder.Uuid.{Entropy}
use up_cpp.Builder.Payload.{Payload}
use up_cpp.Builder.Message.{
  UMessageBuilder, publish_builder, with_payload_format, with_priority, with_ttl, build_payload,
}
use up_cpp.Transport.World
use up_cpp.Transport.World.{M, lift, raise}
use up_cpp.Transport.{UTransport, send}

pub record Publisher : Type 0 where
  pub transport : Option UTransport
  pub publish_builder : UMessageBuilder

-- `if (!transport) throw NullTransport(...)`
abbrev pub require_transport : Option UTransport → Result UTransport
require_transport none = throw (null_transport "transport cannot be null")
require_transport (some t) = ok t

-- `if (ttl.has_value()) builder.withTtl(ttl.value());` and the like.
abbrev pub apply_if {ℓ} :
    {A : Type ℓ}
    → (UMessageBuilder → A → Result UMessageBuilder)
    → UMessageBuilder
    → Option A
    → Result UMessageBuilder
apply_if setter b none = ok b
apply_if setter b (some a) = setter b a

module _ (pb : Protobuf) where
  unfoldable pub new_publisher :
      Option UTransport → UUri → ℤ → Option ℤ → Option ℤ → Result Publisher
  new_publisher transport topic format priority ttl = do
    b ← publish_builder pb topic
    b' ← with_payload_format pb b format
    b'' ← with_priority pb b' (value_or priority pb.priority_cs1)
    t ← require_transport transport
    b''' ← apply_if (with_ttl pb) b'' ttl
    ok (record { transport = some t; publish_builder = b''' })

  unfoldable pub publish : Publisher → Payload → Entropy → Readings → M UStatus
  publish p payload system now =
      World.◌>>=◌ (lift (build_payload p.publish_builder payload system).0)
        (λ message. World.◌>>=◌ (lift (require_transport p.transport)) (λ t. send pb t now message))
