-- ===== src/Client/Consumer/Unsubscribing.antt =====
-- How unsubscribe of src/client/usubscription/v3/Consumer.cpp ends.
use mathlib.Core.Path.{subst}
use up_cpp.Common.{
  map, ℕ, ◌≡◌, ◌⊎◌, refl, sym, ap, Bool, inl, inr, Option, none, some, List, [], ◌∷◌, ◌∙◌,
  Bool-cases,
}
use up_cpp.Common.Int.{ℤ}
use up_cpp.Common.Outcome.{ok, throw}
use up_cpp.Proto.{UUri, UMessage, Protobuf}
use up_cpp.Exception.{Result}
use up_cpp.Builder.Message.{build_method_payload}
use up_cpp.Builder.Payload.{Payload, from_message}
use up_cpp.Transport.{ListenHandle, drop_handle}
use up_cpp.Transport.World.{World}
use up_cpp.Communication.Subscriber.{Subscriber}
use up_cpp.Communication.RpcExpiry.{RpcState}
use up_cpp.Communication.RpcExpiry.Heap.{HeapAlgorithms, erased}
use up_cpp.Communication.RpcClient.{
  RpcClient, drop_listeners, Calling, new_client, invoke_message, invoke_method_payload,
}
use up_cpp.Communication.RpcClient.Effects.{RpcWorld, bind_run}
use up_cpp.Communication.RpcClient.Outcomes.{invoke_cases}
use up_cpp.Communication.RpcClient.Closing.{IsSilent, NoneWait}
use up_cpp.Client.UriBuilder.{get_service_uri_with_resource_id}
use up_cpp.Client.Consumer.{
  Messages, Consumer, Consuming, call_service, replace_handle, request_service, unsubscribe,
  build_unsubscription_request, end_subscription, destroy_found, sever_found, drop_subscriber,
}
use up_cpp.Client.Consumer.Effects.{bind_method, beside}
use up_cpp.Client.Consumer.Ownership.{Holds, OwnsConsumer}
use up_cpp.Client.Consumer.Connecting.{request_service-Keeps}
use up_cpp.Client.Consumer.Cleanup.{subscriber_dropped}

module _ {Update Response : Type 0} (messages : Messages Update Response) (pb : Protobuf)
    (heap : HeapAlgorithms) where
  abbrev Self : Type 0
  Self = Consumer Update Response

  -- The handle that a call of invokeMethod returns, if it returns, is that of the next connection.
  abbrev IsHandle : ℕ → Result ListenHandle → Type 0
  IsHandle n (ok handle) = handle ≡ n
  IsHandle n (throw exception) = Unit {0}

  built-IsHandle :
      (client : RpcClient) (env : Calling) (callback : ℕ) (built : Result UMessage) (w : RpcWorld)
      → IsHandle w.world.next_connection
          (bind_run
            (λ message. invoke_message pb heap client env message (some callback))
            (built, w)).0
  built-IsHandle client env callback (throw exception) w = tt
  built-IsHandle client env callback (ok message) w =
      invoke_cases pb heap client env message callback w
        (λ result s. IsHandle w.world.next_connection result)
        (record {
          failed = λ status. refl;
          queued = λ p same whose. refl;
          given_up = λ exception. tt;
        })

  payload-IsHandle :
      (client : RpcClient) (env : Calling) (method : UUri) (payload : Payload) (callback n : ℕ)
      (w : RpcWorld)
      → w.world.next_connection ≡ n
      → IsHandle n (invoke_method_payload pb heap client env method payload (some callback) w).0
  unfolding invoke_method_payload
  payload-IsHandle client env method payload callback n w same =
      subst
        (λ k.
          IsHandle k (invoke_method_payload pb heap client env method payload (some callback) w).0)
        same
        (built-IsHandle client env callback
          (build_method_payload client.builder method payload env.system).0 w)

  -- The consumer keeps its subscriber, and its handle is the new one and `P` holds of the world
  -- unless an exception is thrown.
  abbrev Requested :
      Option Subscriber → ℕ → (RpcWorld → Type 0) → Result (Unit {0}) × Self × RpcWorld → Type 0
  Requested s n P (ok done, self, w) = (self.subscriber ≡ s) × (self.rpc_handle ≡ some n) × P w
  Requested s n P (throw exception, self, w) = self.subscriber ≡ s

  handle_set :
      (self : Self) (n : ℕ) (out : Result ListenHandle × RpcWorld)
      → IsHandle n out.0
      → Requested self.subscriber n
          (λ v. (out.0 ≡ ok n) × (v ≡ sever_found self.rpc_handle out.1))
          (bind_method (replace_handle messages) (beside self out))
  handle_set self n (ok handle, w) same = (refl, ap some same, (ap ok same, refl))
  handle_set self n (throw exception, w) same = refl

  listeners_next :
      (ns : List ListenHandle) (held : ListenHandle → Bool) (w : World)
      → (drop_listeners ns held w).next_connection ≡ w.next_connection
  unfolding drop_handle
  listeners_next [] held w = refl
  listeners_next (n ∷ ns) held w =
      listeners_next ns held (drop_handle n (held n) w).1
      ∙ (elim (Bool-cases (held n)) [ inl e ↦ rw e refl | inr e ↦ rw e refl ])

  same_next :
      (old : Option RpcClient) (held : ListenHandle → Bool) (w : RpcWorld)
      → (destroy_found old held w).world.next_connection ≡ w.world.next_connection
  same_next none held w = refl
  same_next (some client) held w =
      listeners_next (map (λ p. p.response_listener) (erased client.instance_id w.rpc.pending)) held
        w.world

  -- The request of a service that was made: a new client calls the resource with the payload, once
  -- the client before is destroyed, and then the handle before is.
  abbrev pub WasMade :
      ℕ → List ℕ → Consuming → Self → ℕ → RpcWorld → Result RpcClient → RpcWorld → Type 0
  WasMade resource_id serialized env c n w made v =
      (client : RpcClient) × (made ≡ ok client)
      × (let (result, after) =
            invoke_method_payload pb heap client env.calling
              (get_service_uri_with_resource_id c.uuri_builder resource_id)
              (from_message messages.payload_format_protobuf serialized)
              (some env.response_callback) (destroy_found c.rpc_client env.listener_held w) in
          (result ≡ ok n) × (v ≡ sever_found c.rpc_handle after))

  Requested-map :
      (P Q : RpcWorld → Type 0) (s : Option Subscriber) (n : ℕ)
      (out : Result (Unit {0}) × Self × RpcWorld)
      → ((v : RpcWorld) → P v → Q v)
      → Requested s n P out
      → Requested s n Q out
  Requested-map P Q s n (ok done, self, w) f h = (h.0, h.1, f w h.2)
  Requested-map P Q s n (throw exception, self, w) f h = h

  service-Requested :
      (resource_id : ℕ) (serialized : List ℕ) (env : Consuming) (self : Self) (w : RpcWorld)
      (made : Result RpcClient)
      → Requested self.subscriber w.world.next_connection
          (WasMade resource_id serialized env self w.world.next_connection w made)
          (bind_method
            (call_service messages pb heap resource_id serialized env)
            (beside self (made, w)))
  service-Requested resource_id serialized env self w (throw exception) = refl
  service-Requested resource_id serialized env self w (ok client) =
      let held = record self { rpc_client = some client } in
      let after = destroy_found self.rpc_client env.listener_held w in
      Requested-map _ _ self.subscriber w.world.next_connection _ (λ v h. (client, refl, h))
        (handle_set held w.world.next_connection _ (
          payload-IsHandle client env.calling
            (get_service_uri_with_resource_id self.uuri_builder resource_id)
            (from_message messages.payload_format_protobuf serialized) env.response_callback
            w.world.next_connection after (same_next self.rpc_client env.listener_held w)))

  request_service-Requested :
      (resource_id : ℕ) (serialized : List ℕ) (priority ttl : ℤ) (env : Consuming) (self : Self)
      (w : RpcWorld)
      → Requested self.subscriber w.world.next_connection
          (WasMade resource_id serialized env self w.world.next_connection w
            (new_client pb self.transport priority ttl none none none env.instance_id))
          (request_service messages pb heap resource_id serialized priority ttl env self w)
  unfolding request_service
  request_service-Requested resource_id serialized priority ttl env self w =
      service-Requested resource_id serialized env self w
        (new_client pb self.transport priority ttl none none none env.instance_id)

  -- What unsubscribe comes to: it returns, having made a request after which `P` holds and dropped
  -- the subscriber last, or throws and keeps it.
  abbrev pub Unsubscribed :
      Option Subscriber
      → Bool
      → ℕ
      → (RpcWorld → Type 0)
      → RpcState
      → Result (Unit {0}) × Self × RpcWorld
      → Type 0
  Unsubscribed s held n P base (ok done, c, w) =
      (c.subscriber ≡ none)
      × (c.rpc_handle ≡ some n)
      × ((m : ℕ) → base.request m ≡ none → (n ≡ m) ⊎ IsSilent m w.rpc)
      × ((v : RpcWorld) × P v × (w ≡ drop_subscriber s held v))
  Unsubscribed s held n P base (throw exception, c, w) =
      (c.subscriber ≡ s)
      × ((m : ℕ) → base.request m ≡ none → (c.rpc_handle ≡ some m) ⊎ IsSilent m w.rpc)

  ended :
      (P : RpcWorld → Type 0) (base : RpcState) (env : Consuming) (s : Option Subscriber) (n : ℕ)
      (out : Result (Unit {0}) × Self × RpcWorld)
      → Requested s n P out
      → Holds (OwnsConsumer messages pb heap base env.instance_id) out
      → Unsubscribed s env.subscriber_held n P base
          (bind_method (λ done. end_subscription messages pb heap env) out)
  ended P base env s n (throw exception, c, w) r h = (r, h.0)
  ended P base env s n (ok done, c, w) r h = (
    refl,
    r.1,
    λ m new. elim (h.0 m new) [
      | inl held ↦ inl (cc (held, r.1))
      | inr silent ↦ inr (
          subst (IsSilent m)
            (sym (subscriber_dropped messages pb heap base 0 c.subscriber env.subscriber_held w))
            silent)
    ],
    (w, r.2, ap (λ o. drop_subscriber o env.subscriber_held w) r.0),
  )

  -- A call of unsubscribe that returns has called resource 2 of the service with the unsubscription
  -- request, by a new RPC client once the client before was destroyed; the consumer now holds the
  -- handle of this request, and has then dropped the subscriber; of all requests that the consumer has made since `base`, no
  -- other can call its callback any more. One that throws has kept the subscriber, and only the
  -- request whose handle the consumer holds may call. Before, likewise, only the request whose
  -- handle the consumer holds could, and none of the new RPC client's instance waits.
  pub unsubscribe-Unsubscribed :
      (base : RpcState) (priority ttl : ℤ) (env : Consuming) (c : Self) (w : RpcWorld)
      → ((m : ℕ) → base.request m ≡ none → (c.rpc_handle ≡ some m) ⊎ IsSilent m w.rpc)
      → NoneWait env.instance_id w.rpc
      → Unsubscribed c.subscriber env.subscriber_held w.world.next_connection
          (WasMade 2
            (messages.unsubscribe_bytes (build_unsubscription_request messages c))
            env
            c
            w.world.next_connection
            w
            (new_client pb c.transport priority ttl none none none env.instance_id))
          base
          (unsubscribe messages pb heap priority ttl env c w)
  unfolding unsubscribe
  unsubscribe-Unsubscribed base priority ttl env c w owned idle =
      let bytes = messages.unsubscribe_bytes (build_unsubscription_request messages c) in
      ended _ base env c.subscriber w.world.next_connection
        (request_service messages pb heap 2 bytes priority ttl env c w)
        (request_service-Requested 2 bytes priority ttl env c w)
        (request_service-Keeps messages pb heap base env.instance_id 2 bytes priority ttl env refl c
          w (owned, inl idle))
