-- ===== src/Transport.antt =====
-- src/transport/UTransport.cpp. What a concrete transport implements answers by the calls made so
-- far; those calls are the world that the operations pass on. A callback is a number, or nothing
-- for an empty std::function; a connection is the number of its `establish`.
pub mod World
pub mod Contract
pub mod Tests
use up_cpp.Common.{
  ℕ, ◌+◌, ◌%◌, ◌^◌, String, Bool, true, false, not, Option, none, some, List, if◌then◌else◌,
}
use up_cpp.Proto.{UUri, UMessage, UStatus, UCode, ok_code, Protobuf}
use up_cpp.Exception.{Result, invalid_umessage, empty_function_object}
use up_cpp.Utils.Expected.{Expected, expected, unexpected}
use up_cpp.Validator.Uri
use up_cpp.Validator.Message
use up_cpp.Validator.Message.{Readings}
use up_cpp.Builder.Message.{require_uri}
use World.{Call, sent, listening, cleaned, M, return, raise, lift, log, ◌>>=◌, ◌>>◌}

-- `sendImpl` and `registerListenerImpl` of the subclass. The latter also says whether it keeps a
-- copy of the callable that it was given.
pub record UTransport : Type 0 where
  pub entity_uri : UUri
  pub send_impl : List Call → UMessage → UStatus
  pub register_listener_impl : List Call → ℕ → UUri → Option UUri → UStatus × Bool

abbrev pub ListenHandle : Type 0
ListenHandle = ℕ

abbrev pub HandleOrStatus : Type 0
HandleOrStatus = Expected ListenHandle UStatus

-- The constructor, of a transport whose subclass is given.
unfoldable pub new_transport : UTransport → Result UTransport
new_transport t =
    require_uri "Transport's entity URI is not a valid URI |  "
      (Uri.is_valid_default_entity t.entity_uri) t

unfoldable pub get_entity_uri : UTransport → UUri
get_entity_uri t = t.entity_uri

unfoldable pub get_default_source : UTransport → UUri
unfolding get_entity_uri
get_default_source t = get_entity_uri t

unfoldable pub send : Protobuf → UTransport → Readings → UMessage → M UStatus
send pb t now message =
    let (msg_ok, reason) = Message.is_valid pb now message in
    if not msg_ok
    then raise (invalid_umessage "Invalid UMessage | " reason)
    else do calls ← World.history; log (sent message); return (t.send_impl calls message)

abbrev pub is_ok_code : UCode → Bool
is_ok_code ok_code = true
is_ok_code _ = false

-- `CallbackConnection::establish`, which refuses an empty callback.
unfoldable pub establish : Option ℕ → M (ListenHandle × ℕ)
establish none = raise (empty_function_object "Callback function is empty")
establish (some callback) = do conn ← World.fresh; return (conn, callback)

-- The end of a handle's life where the connection is still held: `cleanupListener`, which the base
-- class leaves empty.
unfoldable pub drop_handle : ListenHandle → Bool → M (Unit {0})
drop_handle handle held = if held then log (cleaned handle) else return tt

unfoldable pub check_filters : UUri → Option UUri → M (Unit {0})
check_filters source_filter none = lift (
    require_uri "source_filter is not a valid URI |  " (Uri.is_valid_subscription source_filter) tt)
check_filters source_filter (some sink_filter) = do
  lift (require_uri "source_filter is not a valid URI |  " (Uri.is_valid_filter source_filter) tt)
  lift (require_uri "sink_filter is not a valid URI |  " (Uri.is_valid_filter sink_filter) tt)

-- registerListener(listener, source_filter, optional sink_filter)
unfoldable pub register_listener : UTransport → Option ℕ → UUri → Option UUri → M HandleOrStatus
unfolding establish drop_handle check_filters
register_listener t listener source_filter sink_filter = do
  check_filters source_filter sink_filter
  (handle, callback) ← establish listener
  calls ← World.history
  log (listening handle callback source_filter sink_filter)
  let (status, held) = t.register_listener_impl calls handle source_filter sink_filter
  (if is_ok_code status.code
      then return (expected handle)
      else (drop_handle handle held >> return (unexpected status)))

-- registerListener(listener, source_filter, uint16 sink_resource_filter)
unfoldable pub register_listener_resource : UTransport → Option ℕ → UUri → ℕ → M HandleOrStatus
unfolding register_listener get_entity_uri
register_listener_resource t listener source_filter sink_resource_filter =
    register_listener t listener source_filter
      (some (record (get_entity_uri t) { resource_id = sink_resource_filter % 2 ^ 16 }))

-- The deprecated registerListener(sink_or_topic_filter, listener, optional source_filter)
unfoldable pub register_listener_deprecated :
    UTransport → UUri → Option ℕ → Option UUri → M HandleOrStatus
unfolding register_listener
register_listener_deprecated t sink_or_topic_filter listener none =
    register_listener t listener sink_or_topic_filter none
register_listener_deprecated t sink_or_topic_filter listener (some source_filter) =
    register_listener t listener source_filter (some sink_or_topic_filter)
