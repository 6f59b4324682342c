-- ===== src/Client/Consumer/Cleanup.antt =====
-- What create of src/client/usubscription/v3/Consumer.cpp leave of a consumer's
-- requests, however it ends.
use mathlib.Core.Path.{subst}
use up_cpp.Common.{ℕ, ◌≡◌, ◌⊎◌, refl, sym, ap, ◌∙◌, inl, inr, Bool, Bool-cases, Option, none, some}
use up_cpp.Common.Int.{ℤ}
use up_cpp.Common.Outcome.{ok, throw}
use up_cpp.Proto.{UUri, UStatus, Protobuf}
use up_cpp.Exception.{Result}
use up_cpp.Utils.Expected.{Expected, expected}
use up_cpp.Transport.{UTransport, ListenHandle, is_ok_code}
use up_cpp.Communication.RpcExpiry.{RpcState}
use up_cpp.Communication.RpcExpiry.Heap.{HeapAlgorithms, taken}
use up_cpp.Communication.RpcClient.{RpcClient, destroy_client}
use up_cpp.Communication.RpcClient.Effects.{RpcWorld}
use up_cpp.Communication.RpcClient.Closing.{
  IsSilent, NoneWait, drop_listener-rpc, destroy_client-keeps_NoneWait, destroy_client-NoneWait,
  sever_request-pending,
}
use up_cpp.Client.UriBuilder.{ServiceOptions}
use up_cpp.Client.RequestBuilder.{CallOptions}
use up_cpp.Communication.Subscriber.{Subscriber}
use up_cpp.Communication.NotificationSink.{NotificationSink}
use up_cpp.Client.Consumer.{
  Messages, Consumer, Consuming, set_up, drop_subscriber, drop_sink, create, new_consumer, destroy,
  destroy_found, sever_found, settle,
}
use up_cpp.Client.Consumer.Connecting.{set_up-Keeps}
use up_cpp.Client.Consumer.Ownership.{Holds, OwnsConsumer, destroyed-IsSilent, severed-IsSilent}

module _ {Update Response : Type 0} (messages : Messages Update Response) (pb : Protobuf)
    (heap : HeapAlgorithms) (base : RpcState) (i : ℕ) where
  abbrev Self : Type 0
  Self = Consumer Update Response

  abbrev Q : Self → RpcState → Type 0
  Q = OwnsConsumer messages pb heap base i

  -- No request made since can call its callback any more, and none of the instance waits.
  abbrev pub AllSilent : RpcState → Type 0
  AllSilent s = ((m : ℕ) → base.request m ≡ none → IsSilent m s) × NoneWait i s

  pub subscriber_dropped :
      (s : Option Subscriber) (held : Bool) (w : RpcWorld) → (drop_subscriber s held w).rpc ≡ w.rpc
  subscriber_dropped none held w = refl
  subscriber_dropped (some s) held w = drop_listener-rpc s.subscription held w

  sink_dropped :
      (s : Option NotificationSink) (held : Bool) (w : RpcWorld) → (drop_sink s held w).rpc ≡ w.rpc
  sink_dropped none held w = refl
  sink_dropped (some s) held w = drop_listener-rpc s.listener held w

  none_wait :
      (old : Option RpcClient) (held : ListenHandle → Bool) (w : RpcWorld)
      → NoneWait i w.rpc ⊎ ((c : RpcClient) × (old ≡ some c) × (c.instance_id ≡ i))
      → NoneWait i (destroy_found old held w).rpc
  none_wait none held w (inl h) = h
  none_wait none held w (inr (c, e, same)) = absurd (cc e)
  none_wait (some client) held w (inl h) = destroy_client-keeps_NoneWait i client w.rpc h
  none_wait (some client) held w (inr (c, e, same)) =
      let id : client.instance_id ≡ i = cc (e, same) in
      subst (λ j. NoneWait j (destroy_client client w.rpc)) id
        (destroy_client-NoneWait client w.rpc)

  severed_wait :
      (old : Option ListenHandle) (client : Option RpcClient) (w : RpcWorld)
      → NoneWait i w.rpc ⊎ ((c : RpcClient) × (client ≡ some c) × (c.instance_id ≡ i))
      → NoneWait i (sever_found old w).rpc
        ⊎ ((c : RpcClient) × (client ≡ some c) × (c.instance_id ≡ i))
  severed_wait none client w h = h
  severed_wait (some n) client w (inr h) = inr h
  severed_wait (some n) client w (inl h) = inl (ap (taken i) (sever_request-pending n w.rpc) ∙ h)

  destroyed :
      (c : Self) (held : ListenHandle → Bool) (w : RpcWorld)
      → Q c w.rpc
      → AllSilent (destroy_found c.rpc_client held (sever_found c.rpc_handle w)).rpc
  destroyed c held w h = (
    λ m new.
        destroyed-IsSilent m c.rpc_client held (sever_found c.rpc_handle w)
          (severed-IsSilent m c.rpc_handle w (h.0 m new)),
    none_wait c.rpc_client held (sever_found c.rpc_handle w)
        (severed_wait c.rpc_handle c.rpc_client w h.1),
  )

  destroy-AllSilent :
      (c : Self) (env : Consuming) (w : RpcWorld)
      → Q c w.rpc
      → AllSilent (destroy messages pb heap c env w).rpc
  unfolding destroy
  destroy-AllSilent c env w h =
      let start = drop_subscriber c.subscriber env.subscriber_held w in
      subst AllSilent
        (sym (
          sink_dropped c.notification_sink env.sink_held
            (destroy_found c.rpc_client env.listener_held (sever_found c.rpc_handle start))))
        (destroyed c env.listener_held start
          (subst (Q c) (sym (subscriber_dropped c.subscriber env.subscriber_held w)) h))

  abbrev pub MadeOrSilent : Result (Expected Self UStatus) × RpcWorld → Type 0
  MadeOrSilent (result, w) = ((c : Self) × (result ≡ ok (expected c))) ⊎ AllSilent w.rpc

  settle-MadeOrSilent :
      (env : Consuming) (out : Result UStatus × Self × RpcWorld)
      → Holds Q out
      → MadeOrSilent (settle messages pb heap env out)
  settle-MadeOrSilent env (throw exception, c, w) h = inr (destroy-AllSilent c env w h)
  settle-MadeOrSilent env (ok status, c, w) h = elim (Bool-cases (is_ok_code status.code)) [
    | inl good ↦ rw good (inl (c, refl))
    | inr bad ↦ rw bad (inr (destroy-AllSilent c env w h))
  ]

-- A call of create that returns no consumer, by a status or by an exception, leaves none of the
-- requests that it made able to call its callback, and none of its RPC client's in the queue, if
-- none of that client's instance was there.
pub create-MadeOrSilent :
    {Update Response : Type 0} (messages : Messages Update Response) (pb : Protobuf)
    (heap : HeapAlgorithms) (service : ServiceOptions) (transport : Option UTransport)
    (topic : UUri) (callback : Option ℕ) (priority ttl : ℤ) (options : CallOptions)
    (update_callback : ℕ) (env : Consuming) (w : RpcWorld)
    → NoneWait env.instance_id w.rpc
    → MadeOrSilent messages pb heap w.rpc env.instance_id (
        create messages pb heap service transport topic callback priority ttl options
          update_callback env w)
unfolding create
create-MadeOrSilent messages pb heap service none topic callback priority ttl options
      update_callback env w h =
    inr ((λ m new r found. cc (new, found)), h)
create-MadeOrSilent messages pb heap service (some t) topic callback priority ttl options
      update_callback env w h =
    let start = new_consumer messages service t topic options in
    settle-MadeOrSilent messages pb heap w.rpc env.instance_id env
      (set_up messages pb heap update_callback priority ttl callback env start w)
      (set_up-Keeps messages pb heap w.rpc env.instance_id update_callback priority ttl callback env
        refl start w ((λ m new. inr (λ r found. cc (new, found))), inl h))
