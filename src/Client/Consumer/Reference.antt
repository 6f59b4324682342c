-- ===== src/Client/Consumer/Reference.antt =====
-- A description of what create of src/client/usubscription/v3/Consumer.cpp does with good arguments,
-- by the answers of the transport.
use up_cpp.Common.{ℕ, ◌+◌, ◌≡◌, Bool, true, Option, none, some, [], ◌∷◌, ◌++◌, if◌then◌else◌}
use up_cpp.Common.Int.{ℤ}
use up_cpp.Common.Outcome.{ok}
use up_cpp.Proto.{UUri, UStatus, Protobuf}
use up_cpp.Exception.{Result}
use up_cpp.Utils.Expected.{Expected, expected, unexpected}
use up_cpp.Validator.Uri.{is_valid_subscription, is_valid_filter}
use up_cpp.Validator.Uri.Accepted.{IsMethod, IsEntity}
use up_cpp.Builder.Payload.{Payload, from_message}
use up_cpp.Transport.{UTransport, ListenHandle, is_ok_code}
use up_cpp.Transport.World.{World, listening}
use up_cpp.Communication.RpcExpiry.Heap.{HeapAlgorithms}
use up_cpp.Communication.RpcClient.{RpcClient, new_client}
use up_cpp.Communication.RpcClient.Effects.{RpcWorld}
use up_cpp.Communication.RpcClient.Invokes.{requested, request_for, cleaned_if}
use up_cpp.Client.UriBuilder.{get_service_uri_with_resource_id, get_notification_uri}
use up_cpp.Client.Consumer.{Messages, Consumer, Consuming, build_subscription_request, destroy}

-- The world in which a listener is registered under the next connection.
abbrev pub listened : ℕ → UUri → Option UUri → World → World
listened callback source sink w = record {
  calls = w.calls ++ listening w.next_connection callback source sink ∷ [];
  next_connection = w.next_connection + 1;
}

abbrev pub answer : UTransport → UUri → Option UUri → World → UStatus × Bool
answer t source sink w = t.register_listener_impl w.calls w.next_connection source sink

module _ {Update Response : Type 0} (messages : Messages Update Response) (pb : Protobuf)
    (heap : HeapAlgorithms) where
  abbrev pub Self : Type 0
  Self = Consumer Update Response

  abbrev pub notification_of : Self → UUri
  notification_of c = get_notification_uri c.uuri_builder

  abbrev pub method_of : Self → UUri
  method_of c = get_service_uri_with_resource_id c.uuri_builder 1

  abbrev pub request_payload : Self → Payload
  request_payload c =
      from_message messages.payload_format_protobuf
        (messages.request_bytes (build_subscription_request messages c))

  abbrev pub with_sink : Self → ListenHandle → Self
  with_sink c n = record c {
    notification_sink = some (record { transport = c.transport; listener = n });
  }

  abbrev pub with_request : Self → RpcClient → ListenHandle → Self
  with_request c client n = record c { rpc_client = some client; rpc_handle = some n }

  -- The topic's listener is registered: it makes the subscriber, or else its consumer is destroyed.
  abbrev pub topic_settled :
      Consuming → ℕ → Self → RpcWorld → Result (Expected Self UStatus) × RpcWorld
  topic_settled env callback held after =
      let conn = after.world.next_connection in
      let told = answer held.transport held.subscription_topic none after.world in
      let heard = listened callback held.subscription_topic none after.world in
      if is_ok_code told.0.code
      then (
        ok (
            expected (record held {
              subscriber = some (record { transport = held.transport; subscription = conn });
            })),
        record after { world = heard },
      )
      else (
        ok (unexpected told.0),
        destroy messages pb heap held env (record after { world = cleaned_if told.1 conn heard }),
      )

  -- Once the sink is there, the request is made, and then the topic's listener registered.
  abbrev pub subscribed :
      Consuming → ℕ → RpcClient → Self → RpcWorld → Result (Expected Self UStatus) × RpcWorld
  subscribed env callback client c w =
      topic_settled env callback (with_request c client w.world.next_connection) (
        requested pb heap client env.calling
          (request_for pb heap client.builder (method_of c) (request_payload c) env.calling.system)
          w)

  -- The sink's listener comes first.
  abbrev pub created :
      Consuming
      → (update_callback callback : ℕ) → RpcClient
      → Self
      → RpcWorld
      → Result (Expected Self UStatus) × RpcWorld
  created env update_callback callback client c w =
      let sink = some c.transport.entity_uri in
      let conn = w.world.next_connection in
      let told = answer c.transport (notification_of c) sink w.world in
      let heard = listened update_callback (notification_of c) sink w.world in
      if is_ok_code told.0.code
      then subscribed env callback client (with_sink c conn) (record w { world = heard })
      else (ok (unexpected told.0), record w { world = cleaned_if told.1 conn heard })

  -- What create needs of its arguments: valid URIs that are good filters, a format that is known,
  -- and an RPC client that its constructor makes of the priority and the time to live.
  pub record IsGood (priority ttl : ℤ) (env : Consuming) (client : RpcClient) (c : Self)
      : Type 0 where
    pub made : new_client pb c.transport priority ttl none none none env.instance_id ≡ ok client
    pub entity : IsEntity c.transport.entity_uri
    pub entity_filter : (is_valid_filter c.transport.entity_uri).0 ≡ true
    pub method : IsMethod (method_of c)
    pub method_filter : (is_valid_filter (method_of c)).0 ≡ true
    pub notification : (is_valid_subscription (notification_of c)).0 ≡ true
    pub notification_filter : (is_valid_filter (notification_of c)).0 ≡ true
    pub topic : (is_valid_subscription c.subscription_topic).0 ≡ true
    pub format : pb.payload_format_is_valid messages.payload_format_protobuf ≡ true
