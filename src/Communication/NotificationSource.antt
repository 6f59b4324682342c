-- ===== src/Communication/NotificationSource.antt =====
-- src/communication/NotificationSource.cpp. The notification with a payload calls the transport
-- without a check; the constructor has refused a null one.
use up_cpp.Common.{Option, value_or}
use up_cpp.Common.Int.{ℤ}
use up_cpp.Common.Outcome.{ok, ◌>>=◌}
use up_cpp.Proto.{UUri, UStatus, Protobuf}
use up_cpp.Exception.{Result}
use up_cpp.Validator.Message.{Readings}
use up_cpp.Builder.Uuid.{Entropy}
use up_cpp.Builder.Payload.{Payload}
use up_cpp.Builder.Message.{
  UMessageBuilder, notification_builder, with_payload_format, with_priority, with_ttl, build,
  build_payload,
}
use up_cpp.Transport.World
use up_cpp.Transport.World.{M, lift}
use up_cpp.Transport.{UTransport, send}
use up_cpp.Communication.Publisher.{require_transport, apply_if}

-- Built by the constructor alone, so its transport is not null.
pub record NotificationSource : Type 0 where
  pub transport : UTransport
  pub notify_builder : UMessageBuilder

module _ (pb : Protobuf) where
  unfoldable pub new_notification_source :
      Option UTransport → UUri → UUri → Option ℤ → Option ℤ → Option ℤ → Result NotificationSource
  new_notification_source transport source sink payload_format priority ttl = do
    b ← notification_builder pb source sink
    b' ← with_priority pb b (value_or priority pb.priority_cs1)
    t ← require_transport transport
    b'' ← apply_if (with_payload_format pb) b' payload_format
    b''' ← apply_if (with_ttl pb) b'' ttl
    ok (record { transport = t; notify_builder = b''' })

  -- notify(payload)
  unfoldable pub notify_payload : NotificationSource → Payload → Entropy → Readings → M UStatus
  notify_payload s payload system now =
      World.◌>>=◌ (lift (build_payload s.notify_builder payload system).0)
        (λ message. send pb s.transport now message)

  -- notify()
  unfoldable pub notify : NotificationSource → Entropy → Readings → M UStatus
  notify s system now =
      World.◌>>=◌ (lift (build s.notify_builder system))
        (λ message. send pb s.transport now message)
