-- ===== src/Client/Requests.antt =====
-- Where the operations of src/client/usubscription/v3/RpcClientUSubscription.cpp send their requests.
use up_cpp.Common.{ℕ, ◌+◌, ◌*◌, ◌%◌, ◌^◌, ◌<◌, ◌≤◌, ◌≡◌, refl, ap, ◌∙◌, Option, some, none, arith}
use up_cpp.Common.Int.{pos}
use up_cpp.Common.Outcome.{ok, throw}
use up_cpp.Common.Outcome
use up_cpp.Proto.{UUri, Protobuf}
use up_cpp.Exception.{Result}
use up_cpp.Validator.Uri.Forms.{NoWildcards}
use up_cpp.Validator.Uri.Accepted.{IsMethod}
use up_cpp.Transport.{UTransport, ListenHandle}
use up_cpp.Communication.RpcExpiry.Heap.{HeapAlgorithms}
use up_cpp.Communication.RpcClient.{RpcClient, Calling, new_client}
use up_cpp.Communication.RpcClient.Effects.{RpcWorld, bind_run, return}
use up_cpp.Communication.RpcClient.ToProto.{
  invoke_future_to_proto, packed_call, invoke_to_proto_lem,
}
use up_cpp.Utils.ProtoConverter.{
  Codec, SubscriptionRequest, TopicRequest, FetchSubscriptionsRequest,
}
use up_cpp.Client.UriBuilder.{
  ServiceOptions, new_uri_builder, set_authority_name, set_instance_id,
  get_service_uri_with_resource_id,
}
use up_cpp.Client.Subscription.{
  USubscriptionOptions, RpcClientUSubscription, new_subscription_client, invoke_resource, subscribe,
  unsubscribe, fetch_subscriptions, fetch_subscribers, register_for_notifications,
  unregister_for_notifications,
}

-- The service's method with a resource ID, at the authority and the instance of the options.
abbrev pub service_method : ServiceOptions → USubscriptionOptions → ℕ → UUri
service_method service options resource_id = record {
  authority_name = options.authority_name;
  ue_id = service.service_id % 2 ^ 16 + options.instance_id % 2 ^ 16 * 2 ^ 16;
  ue_version_major = service.service_version_major;
  resource_id = resource_id;
}

method_of_resource :
    (service : ServiceOptions) (options : USubscriptionOptions) (r : ℕ)
    → 1 ≤ r
    → r < 0x8000
    → NoWildcards (service_method service options 0)
    → IsMethod (service_method service options r)
method_of_resource service options r low high h = (
  record {
    authority = h.authority;
    service = h.service;
    service_instance = h.service_instance;
    version = h.version;
    resource = omega (arith, high);
  },
  (low, high),
)

uri_built :
    (service : ServiceOptions) (options : USubscriptionOptions) (r : ℕ)
    → r < 0x8000
    → get_service_uri_with_resource_id
        (set_instance_id
          (set_authority_name (new_uri_builder service) options.authority_name)
          options.instance_id)
        r
      ≡ service_method service options r
unfolding get_service_uri_with_resource_id set_instance_id set_authority_name new_uri_builder
uri_built service options r high = ground (arith, high)

module _ (pb : Protobuf) (heap : HeapAlgorithms) where
  -- A promise that waits for a typed call, and the subscription client afterwards.
  abbrev pub promised :
      RpcClientUSubscription
      → ℕ
      → Result (Option ListenHandle × RpcClient) × RpcWorld
      → Result (ℕ × Option ListenHandle × RpcClientUSubscription) × RpcWorld
  promised client promise =
      bind_run λ answer. return (promise, answer.0, record client { rpc_client = answer.1 })

  twice :
      (client : RpcClientUSubscription) (promise : ℕ)
      (r : Result (Option ListenHandle × RpcClient) × RpcWorld)
      → bind_run {A = ℕ × Option ListenHandle × RpcClient}
          {B = ℕ × Option ListenHandle × RpcClientUSubscription}
          (λ answer. return (answer.0, answer.1, record client { rpc_client = answer.2 }))
          (bind_run (λ answer. return (promise, answer.0, answer.1)) r)
        ≡ promised client promise r
  twice client promise (throw exception, w) = refl
  twice client promise (ok answer, w) = refl

  -- The typed call of the service's method.
  abbrev pub service_called :
      ServiceOptions
      → USubscriptionOptions
      → RpcClientUSubscription
      → Calling
      → ℕ
      → RpcWorld
      → {R : Type 0} → Codec R
      → ℕ
      → R
      → Result (ℕ × Option ListenHandle × RpcClientUSubscription) × RpcWorld
  service_called service options client env promise w codec r request = promised client promise (
      packed_call pb heap codec client.rpc_client env (service_method service options r)
        (some promise) (codec.pack request) w)

  resource_invoked :
      {R : Type 0} (codec : Codec R) (r : ℕ) (client : RpcClientUSubscription) (env : Calling)
      (request : R) (promise : ℕ) (w : RpcWorld) (method : UUri)
      → get_service_uri_with_resource_id client.uuri_builder r ≡ method
      → IsMethod method
      → invoke_resource pb heap codec r client env request promise w
        ≡ promised client promise (
            packed_call pb heap codec client.rpc_client env method
              (some promise)
              (codec.pack request)
              w)
  unfolding invoke_resource invoke_future_to_proto
  resource_invoked codec r client env request promise w method same good =
      rw
        (
          same,
          invoke_to_proto_lem pb heap codec client.rpc_client env method request (some promise) w
              good,
        )
        (twice client promise _)

  service_reached :
      {R : Type 0} (service : ServiceOptions) (options : USubscriptionOptions)
      (client : RpcClientUSubscription) (env : Calling) (promise : ℕ) (w : RpcWorld)
      → client.uuri_builder
        ≡ set_instance_id
            (set_authority_name (new_uri_builder service) options.authority_name)
            options.instance_id
      → NoWildcards (service_method service options 0)
      → (codec : Codec R) (r : ℕ) (request : R) → 1 ≤ r
      → r < 0x8000
      → invoke_resource pb heap codec r client env request promise w
        ≡ service_called service options client env promise w codec r request
  service_reached service options client env promise w builder h codec r request low high =
      resource_invoked codec r client env request promise w (service_method service options r)
        (ap (λ b. get_service_uri_with_resource_id b r) builder ∙ uri_built service options r high)
        (method_of_resource service options r low high h)

  made_of :
      (service : ServiceOptions) (transport : UTransport) (options : USubscriptionOptions)
      (client : RpcClientUSubscription) (rpc_client : Result RpcClient)
      → Outcome.◌>>=◌ rpc_client (λ c. ok (record {
        transport = transport;
        rpc_client = c;
        uuri_builder =
            set_instance_id
              (set_authority_name (new_uri_builder service) options.authority_name)
              options.instance_id;
      }))
        ≡ ok client
      → (rpc_client ≡ ok client.rpc_client)
        × (client.uuri_builder
            ≡ set_instance_id
                (set_authority_name (new_uri_builder service) options.authority_name)
                options.instance_id)
  made_of service transport options client (throw e) made = absurd (cc made)
  made_of service transport options client (ok c) made = (cc made, cc made)

  -- If the service's address has no wildcards, each operation of a subscription client that its
  -- constructor made is a typed call of the service's method with the operation's resource ID, at
  -- the authority and the instance of the options, and answers with its promise. The constructor's
  -- RPC client has the priority CS4 and five seconds to live.
  pub operations_call_service :
      (service : ServiceOptions) (transport : UTransport) (options : USubscriptionOptions)
      (expiry_id : ℕ) (client : RpcClientUSubscription)
      → new_subscription_client pb service transport options expiry_id ≡ ok client
      → NoWildcards (service_method service options 0)
      → (subscription_codec : Codec SubscriptionRequest)
        (fetch_codec : Codec FetchSubscriptionsRequest) (topic_codec : Codec TopicRequest)
        (env : Calling) (s : SubscriptionRequest) (f : FetchSubscriptionsRequest) (t : TopicRequest)
        (promise : ℕ) (w : RpcWorld)
      → (new_client pb transport pb.priority_cs4 (pos 5000) none none none expiry_id
          ≡ ok client.rpc_client)
        × (subscribe pb heap subscription_codec client env s promise w
            ≡ service_called service options client env promise w subscription_codec 1 s)
        × (unsubscribe pb heap topic_codec client env t promise w
            ≡ service_called service options client env promise w topic_codec 2 t)
        × (fetch_subscriptions pb heap fetch_codec client env f promise w
            ≡ service_called service options client env promise w fetch_codec 3 f)
        × (fetch_subscribers pb heap topic_codec client env t promise w
            ≡ service_called service options client env promise w topic_codec 8 t)
        × (register_for_notifications pb heap topic_codec client env t promise w
            ≡ service_called service options client env promise w topic_codec 6 t)
        × (unregister_for_notifications pb heap topic_codec client env t promise w
            ≡ service_called service options client env promise w topic_codec 7 t)
  unfolding new_subscription_client subscribe unsubscribe fetch_subscriptions fetch_subscribers
      register_for_notifications unregister_for_notifications
  operations_call_service service transport options expiry_id client made h sc fc tc env s f t
        promise w =
      let (client_made, builder) =
        made_of service transport options client
          (new_client pb transport pb.priority_cs4 (pos 5000) none none none expiry_id) made in
      (
        client_made,
        service_reached service options client env promise w builder h sc 1 s (omega arith)
            (omega arith),
        service_reached service options client env promise w builder h tc 2 t (omega arith)
            (omega arith),
        service_reached service options client env promise w builder h fc 3 f (omega arith)
            (omega arith),
        service_reached service options client env promise w builder h tc 8 t (omega arith)
            (omega arith),
        service_reached service options client env promise w builder h tc 6 t (omega arith)
            (omega arith),
        service_reached service options client env promise w builder h tc 7 t (omega arith)
            (omega arith),
      )
