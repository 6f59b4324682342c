-- ===== src/Client/Consumer.antt =====
-- The Consumer of src/client/usubscription/v3/Consumer.cpp. Its lambdas are known by the numbers
-- that stand for them where they are registered; `on_update` and `on_response` are what they do.
pub mod Effects
pub mod Updates
pub mod Ownership
pub mod Connecting
pub mod Cleanup
pub mod Unsubscribing
pub mod Reference
pub mod Created
pub mod Tests
use up_cpp.Common.{
  ℕ, Bool, true, false, not, Option, none, some, List, has_value, eq_bytes, ◌&&◌, if◌then◌else◌,
}
use up_cpp.Common.Int.{ℤ}
use up_cpp.Common.Outcome.{ok, throw}
use up_cpp.Proto.{UUri, UMessage, UStatus, ok_code, Protobuf}
use up_cpp.Exception.{Result, null_transport}
use up_cpp.Utils.Expected.{Expected, expected, unexpected}
use up_cpp.Builder.Payload.{Payload, from_message}
use up_cpp.Transport.{UTransport, ListenHandle, drop_handle, is_ok_code}
use up_cpp.Communication.Subscriber.{Subscriber}
use up_cpp.Communication.Subscriber
use up_cpp.Communication.NotificationSink.{NotificationSink}
use up_cpp.Communication.NotificationSink
use up_cpp.Communication.RpcExpiry.{MessageOrStatus, RpcState}
use up_cpp.Communication.RpcExpiry.Heap.{HeapAlgorithms}
use up_cpp.Communication.RpcClient.{
  RpcClient, Calling, new_client, invoke_method_payload, sever_request, destroy_client,
  drop_listener, destroy_in,
}
use up_cpp.Communication.RpcClient.Effects.{Run, RpcWorld, outside, lift}
use up_cpp.Utils.ProtoConverter
use up_cpp.Utils.ProtoConverter.{
  SubscriptionRequest, TopicRequest, build_subscribe_attributes, build_unsubscribe_request,
}
use up_cpp.Client.UriBuilder.{
  ServiceOptions, USubscriptionUUriBuilder, new_uri_builder, get_service_uri_with_resource_id,
  get_notification_uri,
}
use up_cpp.Client.RequestBuilder.{CallOptions}
use Effects.{Method, get, set, call, return, ◌>>=◌, ◌>>◌}

-- The generated message types `Update` and `SubscriptionResponse`: their parsers, their topics and
-- their empty messages, and the serialization of the messages that are sent or compared.
pub record Messages (Update Response : Type 0) : Type 0 where
  pub parse_update : List ℕ → Option Update
  pub update_topic : Update → UUri
  pub empty_update : Update
  pub parse_response : List ℕ → Option Response
  pub response_topic : Response → UUri
  pub empty_response : Response
  pub uri_bytes : UUri → List ℕ
  pub request_bytes : SubscriptionRequest → List ℕ
  pub unsubscribe_bytes : TopicRequest → List ℕ
  pub payload_format_protobuf : ℤ

pub record Consumer (Update Response : Type 0) : Type 0 where
  pub transport : UTransport
  pub subscription_topic : UUri
  pub consumer_options : CallOptions
  pub uuri_builder : USubscriptionUUriBuilder
  pub notification_sink : Option NotificationSink
  pub subscription_update : Update
  pub rpc_client : Option RpcClient
  pub rpc_handle : Option ListenHandle
  pub subscription_response : Response
  pub subscriber : Option Subscriber

-- What a call reads: what its request reads, the ID of the RPC client that it makes, the number of
-- its callback for the response, and whether the transport still holds the listeners of the sink, of
-- the subscriber and of requests that wait.
pub record Consuming : Type 0 where
  pub calling : Calling
  pub instance_id : ℕ
  pub response_callback : ℕ
  pub sink_held : Bool
  pub subscriber_held : Bool
  pub listener_held : ListenHandle → Bool

abbrev pub fine : UStatus
fine = record { code = ok_code; message = "" }

-- The destruction of what a pointer or a handle owns, if anything.
abbrev pub destroy_found : Option RpcClient → (ListenHandle → Bool) → RpcWorld → RpcWorld
destroy_found none held w = w
destroy_found (some client) held w = destroy_in client held w

abbrev pub sever_found : Option ListenHandle → RpcWorld → RpcWorld
sever_found none w = w
sever_found (some n) w = record w { rpc = sever_request n w.rpc }

abbrev pub drop_subscriber : Option Subscriber → Bool → RpcWorld → RpcWorld
drop_subscriber none held w = w
drop_subscriber (some s) held w = drop_listener s.subscription held w

abbrev pub drop_sink : Option NotificationSink → Bool → RpcWorld → RpcWorld
drop_sink none held w = w
drop_sink (some s) held w = drop_listener s.listener held w

module _ {Update Response : Type 0} (messages : Messages Update Response) where
  abbrev pub Self : Type 0
  Self = Consumer Update Response

  -- The constructor.
  unfoldable pub new_consumer : ServiceOptions → UTransport → UUri → CallOptions → Self
  unfolding new_uri_builder
  new_consumer service transport subscription_topic consumer_options = record {
    transport = transport;
    subscription_topic = subscription_topic;
    consumer_options = consumer_options;
    uuri_builder = new_uri_builder service;
    notification_sink = none;
    subscription_update = messages.empty_update;
    rpc_client = none;
    rpc_handle = none;
    subscription_response = messages.empty_response;
    subscriber = none;
  }

  abbrev pub is_topic : Self → UUri → Bool
  is_topic c topic = eq_bytes (messages.uri_bytes topic) (messages.uri_bytes c.subscription_topic)

  abbrev pub keep_update : Self → Option Update → Self
  keep_update c none = c
  keep_update c (some update) =
      if is_topic c (messages.update_topic update)
      then record c { subscription_update = update }
      else c

  abbrev pub update_of : Option (List ℕ) → Option Update
  update_of none = none
  update_of (some payload) = messages.parse_update payload

  -- The lambda of createNotificationSink.
  unfoldable pub on_update : Self → UMessage → Self
  on_update c update = keep_update c (update_of update.payload)

  abbrev pub keep_response : Self → Option Response → Self
  keep_response c none = c
  keep_response c (some response) =
      if is_topic c (messages.response_topic response)
      then record c { subscription_response = response }
      else c

  abbrev pub parse_set : Option (List ℕ) → Option Response
  parse_set none = none
  parse_set (some payload) = messages.parse_response payload

  abbrev pub response_of : MessageOrStatus → Option Response
  response_of (unexpected status) = none
  response_of (expected m) = parse_set m.payload

  -- The lambda of subscribe.
  unfoldable pub on_response : Self → MessageOrStatus → Self
  on_response c maybe_response = keep_response c (response_of maybe_response)

  -- What follows the creation of the sink.
  abbrev pub keep_sink : Expected NotificationSink UStatus → Method Self UStatus
  keep_sink (unexpected status) = return status
  keep_sink (expected sink) = do
    c ← get
    set (record c { notification_sink = some sink })
    return fine

  -- createNotificationSink, with the number of its lambda.
  unfoldable pub create_notification_sink : ℕ → Method Self UStatus
  unfolding NotificationSink.create get_notification_uri
  create_notification_sink update_callback = do
    c ← get
    result ← call (
        outside (
          NotificationSink.create (some c.transport) (some update_callback)
            (get_notification_uri c.uuri_builder)))
    keep_sink result

  unfoldable pub build_subscription_request : Self → SubscriptionRequest
  unfolding build_subscribe_attributes ProtoConverter.build_subscription_request
  build_subscription_request c = ProtoConverter.build_subscription_request c.subscription_topic (
      some (
        build_subscribe_attributes c.consumer_options.when_expire
          c.consumer_options.subscription_details c.consumer_options.sample_period_ms))

  unfoldable pub build_unsubscription_request : Self → TopicRequest
  unfolding build_unsubscribe_request
  build_unsubscription_request c = build_unsubscribe_request c.subscription_topic

  unfoldable pub get_subscription_update : Self → Update
  get_subscription_update c = c.subscription_update

  -- A new value for `rpc_client_` or `rpc_handle_`; what it held is destroyed afterwards.
  abbrev pub replace_client : RpcClient → (ListenHandle → Bool) → Method Self (Unit {0})
  replace_client client held c w =
      (ok tt, record c { rpc_client = some client }, destroy_found c.rpc_client held w)

  abbrev pub replace_handle : ListenHandle → Method Self (Unit {0})
  replace_handle n c w = (ok tt, record c { rpc_handle = some n }, sever_found c.rpc_handle w)

  module _ (pb : Protobuf) (heap : HeapAlgorithms) where
    -- What follows the construction of the RPC client.
    abbrev pub call_service : ℕ → List ℕ → Consuming → RpcClient → Method Self (Unit {0})
    call_service resource_id serialized env client = do
      replace_client client env.listener_held
      c ← get
      n ← call (
          invoke_method_payload pb heap client env.calling
            (get_service_uri_with_resource_id c.uuri_builder resource_id)
            (from_message messages.payload_format_protobuf serialized) (some env.response_callback))
      replace_handle n

    -- The request that subscribe and unsubscribe make, by a new RPC client.
    unfoldable pub request_service : ℕ → List ℕ → ℤ → ℤ → Consuming → Method Self (Unit {0})
    unfolding new_client invoke_method_payload from_message get_service_uri_with_resource_id
        destroy_client sever_request
    request_service resource_id serialized priority ttl env = do
      c ← get
      client ← call (lift (new_client pb c.transport priority ttl none none none env.instance_id))
      call_service resource_id serialized env client

    -- What follows the subscription at the transport; create, which subscribes once, has no
    -- subscriber before.
    abbrev pub keep_subscriber : Expected Subscriber UStatus → Method Self UStatus
    keep_subscriber (unexpected status) = return status
    keep_subscriber (expected subscriber) = do
      c ← get
      set (record c { subscriber = some subscriber })
      return fine

    -- subscribe
    unfoldable pub subscribe : ℤ → ℤ → Option ℕ → Consuming → Method Self UStatus
    unfolding request_service build_subscription_request Subscriber.subscribe
    subscribe priority ttl callback env = do
      c ← get
      request_service 1 (messages.request_bytes (build_subscription_request c)) priority ttl env
      result ←
          call (outside (Subscriber.subscribe (some c.transport) c.subscription_topic callback))
      keep_subscriber result

    -- `subscriber_.reset()`
    abbrev pub end_subscription : Consuming → Method Self (Unit {0})
    end_subscription env c w =
        (ok tt, record c { subscriber = none }, drop_subscriber c.subscriber env.subscriber_held w)

    -- unsubscribe
    unfoldable pub unsubscribe : ℤ → ℤ → Consuming → Method Self (Unit {0})
    unfolding request_service build_unsubscription_request drop_handle
    unsubscribe priority request_ttl env = do
      c ← get
      request_service 2 (messages.unsubscribe_bytes (build_unsubscription_request c)) priority
          request_ttl env
      end_subscription env

    -- The destructor: the members, the last declared first.
    unfoldable pub destroy : Self → Consuming → RpcWorld → RpcWorld
    unfolding drop_handle sever_request destroy_client
    destroy c env w = drop_sink c.notification_sink env.sink_held (
        destroy_found c.rpc_client env.listener_held
          (sever_found c.rpc_handle (drop_subscriber c.subscriber env.subscriber_held w)))

    -- What create does with a consumer that is made and subscribed: it is returned, or destroyed.
    abbrev pub settle :
        Consuming → Result UStatus × Self × RpcWorld → Result (Expected Self UStatus) × RpcWorld
    settle env (throw exception, c, w) = (throw exception, destroy c env w)
    settle env (ok status, c, w) =
        if is_ok_code status.code
        then (ok (expected c), w)
        else (ok (unexpected status), destroy c env w)

    -- Connecting a new consumer, up to the first status that is not OK.
    unfoldable pub set_up : ℕ → ℤ → ℤ → Option ℕ → Consuming → Method Self UStatus
    unfolding create_notification_sink subscribe
    set_up update_callback priority ttl callback env = do
      status ← create_notification_sink update_callback
      (if is_ok_code status.code then subscribe priority ttl callback env else return status)

    -- create; the null check is the sink's, the first thing that reads the transport.
    unfoldable pub create :
        ServiceOptions
        → Option UTransport
        → UUri
        → (callback : Option ℕ) → (priority ttl : ℤ) → CallOptions
        → (update_callback : ℕ) → Consuming
        → Run (Expected Self UStatus)
    unfolding set_up destroy new_consumer
    create service none topic callback priority ttl options update_callback env w =
        (throw (null_transport "transport cannot be null"), w)
    create service (some t) topic callback priority ttl options update_callback env w =
        settle env (
          set_up update_callback priority ttl callback env (new_consumer service t topic options) w)
