-- ===== src/Client/Consumer/Ownership.antt =====
-- The requests of a consumer of src/client/usubscription/v3/Consumer.cpp: at any time all but the
-- one whose handle it holds are silent.
use up_cpp.Common.{Bool, ℕ, ◌≡◌, ◌⊎◌, sym, inl, inr, Option, none, some, arith, ◌==◌, Bool-cases}
use up_cpp.Common.Outcome.{ok, throw}
use up_cpp.Proto.{Uuid, UMessage, UStatus, Protobuf}
use up_cpp.Exception.{Result}
use up_cpp.Utils.Expected.{Expected, expected, unexpected}
use up_cpp.Transport.{ListenHandle}
use up_cpp.Transport.World.{World, M}
use up_cpp.Communication.RpcExpiry.{RpcState, enqueue, begin_request}
use up_cpp.Communication.RpcExpiry.Heap.{HeapAlgorithms}
use up_cpp.Communication.RpcClient.{RpcClient, Calling, invoke_message, sever_request}
use up_cpp.Communication.RpcClient.Effects.{RpcWorld, in_world, outside}
use up_cpp.Communication.RpcClient.Outcomes.{invoke_cases}
use up_cpp.Communication.RpcClient.Closing.{
  IsSilent, NoneWait, expire-IsSilent, begin_request-IsSilent, sever_request-IsSilent,
  destroy_client-IsSilent,
}
use up_cpp.Communication.Subscriber.{Subscriber}
use up_cpp.Communication.NotificationSink.{NotificationSink}
use up_cpp.Communication.NotificationSink
use up_cpp.Client.UriBuilder.{get_notification_uri}
use up_cpp.Client.Consumer.{
  Messages, Consumer, keep_sink, keep_subscriber, create_notification_sink, destroy_found,
  sever_found,
}
use up_cpp.Client.Consumer.Effects.{Method, bind_method, beside, call, ◌>>=◌}

-- A method after which a relation between the object and the requests holds if it did before,
-- whether it returns or throws.
module _ {Self : Type 0} (Q : Self → RpcState → Type 0) where
  abbrev pub Holds : {A : Type 0} → Result A × Self × RpcWorld → Type 0
  Holds (result, self, w) = Q self w.rpc

  abbrev pub Keeps : {A : Type 0} → Method Self A → Type 0
  Keeps method = (self : Self) (w : RpcWorld) → Q self w.rpc → Holds (method self w)

  after_bind :
      {A B : Type 0} (next : A → Method Self B) (out : Result A × Self × RpcWorld)
      → ((a : A) → Keeps (next a))
      → Holds out
      → Holds (bind_method next out)
  after_bind next (throw exception, self, w) keeps h = h
  after_bind next (ok a, self, w) keeps h = keeps a self w h

  pub bind-Keeps :
      {A B : Type 0} (first : Method Self A) (next : A → Method Self B)
      → Keeps first
      → ((a : A) → Keeps (next a))
      → Keeps (first >>= next)
  bind-Keeps first next keeps rest self w h = after_bind next (first self w) rest (keeps self w h)

  outside_done :
      {A : Type 0} (self : Self) (rpc : RpcState) (out : Result A × World)
      → Q self rpc
      → Holds (beside self (in_world rpc out))
  outside_done self rpc (result, world) h = h

  -- A call of the transport changes no request.
  pub outside-Keeps :
      {A B : Type 0} (run : M A) (next : A → Method Self B)
      → ((a : A) → Keeps (next a))
      → Keeps (call (outside run) >>= next)
  outside-Keeps run next rest self w h =
      after_bind next (beside self (in_world w.rpc (run w.world))) rest
        (outside_done self w.rpc (run w.world) h)

pub or_still : {X A B : Type 0} → (A → B) → X ⊎ A → X ⊎ B
or_still f (inl x) = inl x
or_still f (inr a) = inr (f a)

-- Of the requests made since `base`, only the one that the handle stands for may still call; and
-- none of the instance waits, if the client of that instance is not there to be destroyed.
abbrev pub Owns : RpcState → ℕ → Option ListenHandle → Option RpcClient → RpcState → Type 0
Owns base i handle client s =
    ((m : ℕ) → base.request m ≡ none → (handle ≡ some m) ⊎ IsSilent m s)
    × (NoneWait i s ⊎ ((c : RpcClient) × (client ≡ some c) × (c.instance_id ≡ i)))

pub destroyed-IsSilent :
    (m : ℕ) (old : Option RpcClient) (held : ListenHandle → Bool) (w : RpcWorld)
    → IsSilent m w.rpc
    → IsSilent m (destroy_found old held w).rpc
destroyed-IsSilent m none held w h = h
destroyed-IsSilent m (some client) held w h = destroy_client-IsSilent m client w.rpc h

pub severed-IsSilent :
    (m : ℕ) (old : Option ListenHandle) (w : RpcWorld)
    → (old ≡ some m) ⊎ IsSilent m w.rpc
    → IsSilent m (sever_found old w).rpc
severed-IsSilent m none w (inl e) = absurd (cc e)
severed-IsSilent m none w (inr h) = h
severed-IsSilent m (some n) w (inl e) =
    sever_request-IsSilent n m w.rpc (λ other. absurd (other (cc e)))
severed-IsSilent m (some n) w (inr h) = sever_request-IsSilent n m w.rpc (λ other. h)

module _ {Update Response : Type 0} (messages : Messages Update Response) (pb : Protobuf)
    (heap : HeapAlgorithms) (base : RpcState) (i : ℕ) where
  abbrev pub OwnsConsumer : Consumer Update Response → RpcState → Type 0
  OwnsConsumer c s = Owns base i c.rpc_handle c.rpc_client s

  sink_kept-Keeps :
      (r : Expected NotificationSink UStatus) → Keeps OwnsConsumer (keep_sink messages r)
  sink_kept-Keeps (unexpected status) self w h = h
  sink_kept-Keeps (expected sink) self w h = h

  pub sink-Keeps : (callback : ℕ) → Keeps OwnsConsumer (create_notification_sink messages callback)
  unfolding create_notification_sink
  sink-Keeps callback self w h =
      outside-Keeps OwnsConsumer
        (NotificationSink.create (some self.transport) (some callback)
          (get_notification_uri self.uuri_builder))
        (keep_sink messages) sink_kept-Keeps self w h

  pub subscriber_kept-Keeps :
      (r : Expected Subscriber UStatus) → Keeps OwnsConsumer (keep_subscriber messages pb heap r)
  subscriber_kept-Keeps (unexpected status) self w h = h
  subscriber_kept-Keeps (expected subscriber) self w h = h

  -- What a call of invokeMethod leaves, for the consumer that is about to hold its handle.
  abbrev pub Called : Option ListenHandle → Result ListenHandle → RpcState → Type 0
  Called old (ok n) s = (m : ℕ) → base.request m ≡ none → (n ≡ m) ⊎ ((old ≡ some m) ⊎ IsSilent m s)
  Called old (throw exception) s = (m : ℕ) → base.request m ≡ none → (old ≡ some m) ⊎ IsSilent m s

  began :
      (old : Option ListenHandle) (n m : ℕ) (reqid : Uuid) (s : RpcState)
      → (old ≡ some m) ⊎ IsSilent m s
      → (n ≡ m) ⊎ ((old ≡ some m) ⊎ IsSilent m (begin_request n reqid s))
  began old n m reqid s h = elim (Bool-cases (n == m)) [
    | inl same ↦ inl (ground (arith, same))
    | inr other ↦
        inr (or_still (begin_request-IsSilent n m reqid s (λ e. ground (arith, e, other))) h)
  ]

  given_up :
      (old : Option ListenHandle) (n m : ℕ) (s : RpcState)
      → (n ≡ m) ⊎ ((old ≡ some m) ⊎ IsSilent m s)
      → (old ≡ some m) ⊎ IsSilent m (sever_request n s)
  given_up old n m s (inl same) =
      inr (sever_request-IsSilent n m s (λ other. absurd (other (sym same))))
  given_up old n m s (inr h) = or_still (λ silent. sever_request-IsSilent n m s (λ other. silent)) h

  pub message-Called :
      (client : RpcClient) (env : Calling) (message : UMessage) (callback : ℕ)
      (old : Option ListenHandle) (w : RpcWorld)
      → ((m : ℕ) → base.request m ≡ none → (old ≡ some m) ⊎ IsSilent m w.rpc)
      → let (result, after) = invoke_message pb heap client env message (some callback) w in
        Called old result after.rpc
  unfolding enqueue
  message-Called client env message callback old w h =
      let n = w.world.next_connection in
      let id = message.attributes.id in
      invoke_cases pb heap client env message callback w (Called old) (record {
        failed = λ status m new.
            or_still (or_still (expire-IsSilent n m status (begin_request n id w.rpc)))
              (began old n m id w.rpc (h m new));
        queued = λ p same whose m new. began old n m id w.rpc (h m new);
        given_up = λ exception m new.
            given_up old n m (begin_request n id w.rpc) (began old n m id w.rpc (h m new));
      })
