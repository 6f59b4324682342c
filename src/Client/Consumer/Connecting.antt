-- ===== src/Client/Consumer/Connecting.antt =====
-- What the methods of src/client/usubscription/v3/Consumer.cpp do to a consumer's requests.
use up_cpp.Common.{
  ℕ, ◌≡◌, ◌⊎◌, refl, ap, ◌∙◌, inl, inr, true, false, Option, none, some, List, if◌then◌else◌,
}
use up_cpp.Common.Int.{ℤ}
use up_cpp.Common.Outcome.{ok, throw}
use up_cpp.Proto.{UUri, UMessage, Protobuf}
use up_cpp.Exception.{Result}
use up_cpp.Builder.Message.{build_method_payload}
use up_cpp.Builder.Payload.{Payload, from_message}
use up_cpp.Transport.{ListenHandle, is_ok_code}
use up_cpp.Communication.RpcExpiry.{RpcState}
use up_cpp.Communication.RpcExpiry.Heap.{HeapAlgorithms}
use up_cpp.Communication.RpcClient.{
  RpcClient, Calling, new_client, invoke_message, invoke_method_payload,
}
use up_cpp.Communication.RpcClient.Effects.{RpcWorld, bind_run, outside}
use up_cpp.Communication.RpcClient.Closing.{IsSilent, new_client-instance_id}
use up_cpp.Client.UriBuilder.{get_service_uri_with_resource_id}
use up_cpp.Communication.Subscriber
use up_cpp.Communication.Subscriber.{Subscriber}
use up_cpp.Client.Consumer.{
  Messages, Consumer, Consuming, call_service, replace_handle, request_service, subscribe, set_up,
  destroy_found, build_subscription_request, create_notification_sink, keep_subscriber,
}
use up_cpp.Client.Consumer.Effects.{return, bind_method, beside, call, ◌>>=◌}
use up_cpp.Client.Consumer.Ownership.{
  Holds, Keeps, bind-Keeps, outside-Keeps, or_still, OwnsConsumer, Called, message-Called,
  sink-Keeps, subscriber_kept-Keeps, destroyed-IsSilent, severed-IsSilent,
}

module _ {Update Response : Type 0} (messages : Messages Update Response) (pb : Protobuf)
    (heap : HeapAlgorithms) (base : RpcState) (i : ℕ) where
  abbrev Self : Type 0
  Self = Consumer Update Response

  abbrev Q : Self → RpcState → Type 0
  Q = OwnsConsumer messages pb heap base i

  handle_kept :
      (self : Self) (client : RpcClient) (out : Result ListenHandle × RpcWorld)
      → client.instance_id ≡ i
      → self.rpc_client ≡ some client
      → Called messages pb heap base i self.rpc_handle out.0 out.1.rpc
      → Holds Q (bind_method (replace_handle messages) (beside self out))
  handle_kept self client (throw exception, w) same held h = (h, inr (client, held, same))
  handle_kept self client (ok n, w) same held h = (
    λ m new. elim (h m new) [
      | inl now ↦ inl (ap some now)
      | inr before ↦ inr (severed-IsSilent m self.rpc_handle w before)
    ],
    inr (client, held, same),
  )

  payload-Called :
      (client : RpcClient) (env : Calling) (method : UUri) (payload : Payload) (callback : ℕ)
      (old : Option ListenHandle) (w : RpcWorld)
      → ((m : ℕ) → base.request m ≡ none → (old ≡ some m) ⊎ IsSilent m w.rpc)
      → let (result, after) =
          invoke_method_payload pb heap client env method payload (some callback) w in
        Called messages pb heap base i old result after.rpc
  unfolding invoke_method_payload
  payload-Called client env method payload callback old w h =
      built-Called (build_method_payload client.builder method payload env.system).0
    where
      built-Called :
          (built : Result UMessage)
          → let (result, after) =
              bind_run
                (λ message. invoke_message pb heap client env message (some callback))
                (built, w) in
            Called messages pb heap base i old result after.rpc
      built-Called (throw exception) = h
      built-Called (ok message) =
          message-Called messages pb heap base i client env message callback old w h

  service_called :
      (resource_id : ℕ) (serialized : List ℕ) (env : Consuming) (self : Self) (w : RpcWorld)
      (priority ttl : ℤ) (made : Result RpcClient)
      → env.instance_id ≡ i
      → new_client pb self.transport priority ttl none none none env.instance_id ≡ made
      → Q self w.rpc
      → Holds Q (
          bind_method
            (call_service messages pb heap resource_id serialized env)
            (beside self (made, w)))
  service_called resource_id serialized env self w priority ttl (throw exception) own e h = h
  service_called resource_id serialized env self w priority ttl (ok client) own e h =
      let held = record self { rpc_client = some client } in
      let after = destroy_found self.rpc_client env.listener_held w in
      handle_kept held client _
        (new_client-instance_id pb _ priority ttl env.instance_id client e ∙ own) refl
        (payload-Called client env.calling
          (get_service_uri_with_resource_id self.uuri_builder resource_id)
          (from_message messages.payload_format_protobuf serialized) env.response_callback
          self.rpc_handle after
          (λ m new.
            or_still (destroyed-IsSilent m self.rpc_client env.listener_held w) (h.0 m new)))

  pub request_service-Keeps :
      (resource_id : ℕ) (serialized : List ℕ) (priority ttl : ℤ) (env : Consuming)
      → env.instance_id ≡ i
      → Keeps Q (request_service messages pb heap resource_id serialized priority ttl env)
  unfolding request_service
  request_service-Keeps resource_id serialized priority ttl env own self w h =
      service_called resource_id serialized env self w priority ttl
        (new_client pb self.transport priority ttl none none none env.instance_id) own refl h

  subscribe-Keeps :
      (priority ttl : ℤ) (callback : Option ℕ) (env : Consuming)
      → env.instance_id ≡ i
      → Keeps Q (subscribe messages pb heap priority ttl callback env)
  unfolding subscribe
  subscribe-Keeps priority ttl callback env own self w h =
      bind-Keeps Q
        (request_service messages pb heap 1
          (messages.request_bytes (build_subscription_request messages self)) priority ttl env)
        (λ done.
          call
            (outside (Subscriber.subscribe (some self.transport) self.subscription_topic callback))
          >>= keep_subscriber messages pb heap)
        (request_service-Keeps 1 _ priority ttl env own)
        (λ done.
          outside-Keeps Q
            (Subscriber.subscribe (some self.transport) self.subscription_topic callback)
            (keep_subscriber messages pb heap) (subscriber_kept-Keeps messages pb heap base i))
        self w h

  pub set_up-Keeps :
      (update_callback : ℕ) (priority ttl : ℤ) (callback : Option ℕ) (env : Consuming)
      → env.instance_id ≡ i
      → Keeps Q (set_up messages pb heap update_callback priority ttl callback env)
  unfolding set_up
  set_up-Keeps update_callback priority ttl callback env own =
      bind-Keeps Q (create_notification_sink messages update_callback) _
        (sink-Keeps messages pb heap base i update_callback)
        (λ status.
          elim (is_ok_code status.code)
            as (λ b.
              Keeps Q (
                if b
                then subscribe messages pb heap priority ttl callback env
                else return status)) [
                  | true ↦ subscribe-Keeps priority ttl callback env own
                  | false ↦ λ self w h. h
                ])
