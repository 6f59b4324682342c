-- ===== src/Communication/NotificationSink.antt =====
-- src/communication/NotificationSink.cpp.
use up_cpp.Common.{ℕ, not, Option, none, some, if◌then◌else◌}
use up_cpp.Proto.{UUri, UStatus, Protobuf}
use up_cpp.Exception.{invalid_uuri}
use up_cpp.Utils.Expected.{Expected}
use up_cpp.Validator.Uri
use up_cpp.Builder.Message.{require_uri}
use up_cpp.Transport.World.{M, raise, lift, ◌>>=◌, ◌>>◌}
use up_cpp.Transport.{UTransport, ListenHandle, register_listener, get_entity_uri}
use up_cpp.Communication.Publisher.{require_transport}
use up_cpp.Communication.Subscriber.{wrap_handle}

pub record NotificationSink : Type 0 where
  pub transport : UTransport
  pub listener : ListenHandle

-- create(transport, callback, source_filter)
unfoldable pub create : Option UTransport → Option ℕ → UUri → M (Expected NotificationSink UStatus)
unfolding get_entity_uri
create transport callback source_filter = do
  t ← lift (require_transport transport)
  lift (
      require_uri "Source filter is not a valid notification source URI |  "
        (Uri.is_valid_subscription source_filter) tt)
  listener ← register_listener t callback source_filter (some (get_entity_uri t))
  wrap_handle (λ h. record { transport = t; listener = h }) listener

-- The deprecated create(transport, sink, callback, optional source_filter). Its two exceptions
-- carry no reason.
unfoldable pub create_deprecated :
    Protobuf
    → Option UTransport
    → UUri
    → Option ℕ
    → Option UUri
    → M (Expected NotificationSink UStatus)
unfolding create get_entity_uri
create_deprecated pb transport sink callback none = do
  t ← lift (require_transport transport)
  raise (invalid_uuri "Source filter must be provided" none)
create_deprecated pb transport sink callback (some source_filter) = do
  t ← lift (require_transport transport)
  (if not (pb.uri_equals sink (get_entity_uri t))
      then raise (invalid_uuri "Sink filter must match transport->getEntityUri()" none)
      else create (some t) callback source_filter)
