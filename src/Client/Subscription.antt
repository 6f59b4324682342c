-- ===== src/Client/Subscription.antt =====
-- src/client/usubscription/v3/RpcClientUSubscription.cpp: requests to the subscription service. The
-- message types of the requests are parameters, by their codecs.
use up_cpp.Common.{ℕ, Option, none, List}
use up_cpp.Common.Int.{pos}
use up_cpp.Common.Outcome.{ok}
use up_cpp.Common.Outcome
use up_cpp.Proto.{Protobuf}
use up_cpp.Exception.{Result}
use up_cpp.Transport.{UTransport, ListenHandle}
use up_cpp.Communication.RpcExpiry.Heap.{HeapAlgorithms}
use up_cpp.Communication.RpcClient.{RpcClient, Calling, new_client}
use up_cpp.Communication.RpcClient.Effects.{Run, return, ◌>>=◌}
use up_cpp.Communication.RpcClient.ToProto.{invoke_future_to_proto}
use up_cpp.Utils.ProtoConverter.{
  Codec, SubscriptionRequest, TopicRequest, FetchSubscriptionsRequest,
}
use up_cpp.Client.UriBuilder.{
  ServiceOptions, USubscriptionUUriBuilder, new_uri_builder, set_authority_name, set_instance_id,
  get_service_uri_with_resource_id,
}

abbrev pub resource_id_subscribe : ℕ
resource_id_subscribe = 0x0001

abbrev pub resource_id_unsubscribe : ℕ
resource_id_unsubscribe = 0x0002

abbrev pub resource_id_fetch_subscriptions : ℕ
resource_id_fetch_subscriptions = 0x0003

abbrev pub resource_id_register_for_notifications : ℕ
resource_id_register_for_notifications = 0x0006

abbrev pub resource_id_unregister_for_notifications : ℕ
resource_id_unregister_for_notifications = 0x0007

abbrev pub resource_id_fetch_subscribers : ℕ
resource_id_fetch_subscribers = 0x0008

-- `instance_id` is a uint16.
pub record USubscriptionOptions : Type 0 where
  pub authority_name : List ℕ
  pub instance_id : ℕ

pub record RpcClientUSubscription : Type 0 where
  pub transport : UTransport
  pub rpc_client : RpcClient
  pub uuri_builder : USubscriptionUUriBuilder

-- The constructor, with the ID that the client's ExpireService gets.
unfoldable pub new_subscription_client :
    Protobuf
    → ServiceOptions
    → UTransport
    → USubscriptionOptions
    → ℕ
    → Result RpcClientUSubscription
unfolding new_client set_instance_id set_authority_name new_uri_builder
new_subscription_client pb service transport options expiry_id =
    Outcome.◌>>=◌ (new_client pb transport pb.priority_cs4 (pos 5000) none none none expiry_id)
      (λ rpc_client. ok (record {
        transport = transport;
        rpc_client = rpc_client;
        uuri_builder =
            set_instance_id (set_authority_name (new_uri_builder service) options.authority_name)
              options.instance_id;
      }))

module _ (pb : Protobuf) (heap : HeapAlgorithms) where
  -- The request to the service's method, and the client that is left.
  unfoldable pub invoke_resource :
      {R : Type 0}
      → Codec R
      → ℕ
      → RpcClientUSubscription
      → Calling
      → R
      → (promise : ℕ) → Run (ℕ × Option ListenHandle × RpcClientUSubscription)
  unfolding invoke_future_to_proto get_service_uri_with_resource_id
  invoke_resource codec resource_id client env request promise = do
    let method = get_service_uri_with_resource_id client.uuri_builder resource_id
    (future, handle, after) ←
        invoke_future_to_proto pb heap codec client.rpc_client env method request promise
    return (future, handle, record client { rpc_client = after })

  -- What each operation takes: its request's codec, the client, and the promise it sets.
  abbrev pub Operation : Type 0 → Type 0
  Operation R =
      Codec R
      → RpcClientUSubscription
      → Calling
      → R
      → (promise : ℕ) → Run (ℕ × Option ListenHandle × RpcClientUSubscription)

  unfoldable pub subscribe : Operation SubscriptionRequest
  unfolding invoke_resource
  subscribe codec = invoke_resource codec resource_id_subscribe

  unfoldable pub unsubscribe : Operation TopicRequest
  unfolding invoke_resource
  unsubscribe codec = invoke_resource codec resource_id_unsubscribe

  unfoldable pub fetch_subscriptions : Operation FetchSubscriptionsRequest
  unfolding invoke_resource
  fetch_subscriptions codec = invoke_resource codec resource_id_fetch_subscriptions

  unfoldable pub fetch_subscribers : Operation TopicRequest
  unfolding invoke_resource
  fetch_subscribers codec = invoke_resource codec resource_id_fetch_subscribers

  unfoldable pub register_for_notifications : Operation TopicRequest
  unfolding invoke_resource
  register_for_notifications codec = invoke_resource codec resource_id_register_for_notifications

  unfoldable pub unregister_for_notifications : Operation TopicRequest
  unfolding invoke_resource
  unregister_for_notifications codec =
      invoke_resource codec resource_id_unregister_for_notifications
