-- ===== src/Communication/RpcClient/Closing.antt =====
-- Requests of src/communication/RpcClient.cpp whose callee has disconnected, and what is left in
-- the queue when a client is destroyed.
use up_cpp.Common.{
  ℕ, ◌≡◌, ◌≢◌, refl, sym, ◌∙◌, inl, inr, ap, Bool, true, false, Option, none, some, List, [], ◌∷◌,
  arith, ◌==◌, Bool-cases,
}
use up_cpp.Common.Int.{ℤ}
use up_cpp.Common.Outcome.{ok, >>=-eq-ok, ok-injective}
use up_cpp.Proto.{Uuid, UStatus, Protobuf}
use up_cpp.Utils.Expected.{unexpected}
use up_cpp.Builder.Message.{with_priority, with_ttl}
use up_cpp.Transport.{UTransport, ListenHandle, drop_handle}
use up_cpp.Communication.RpcExpiry.{
  RpcRequest, RpcState, MessageOrStatus, update, begin_request, disconnect, call_once, call_flagged,
  expire, expire_each, scrub, cancel_reason,
}
use up_cpp.Communication.RpcExpiry.Worker.{expire_frame}
use up_cpp.Communication.RpcExpiry.Heap.{PendingRequest, keep, taken}
use up_cpp.Communication.RpcClient.{
  RpcClient, new_client, sever_request, sever_found, destroy_client, drop_listener,
}
use up_cpp.Communication.RpcClient.Effects.{RpcWorld}

-- The request was never made, or its callee has disconnected.
abbrev pub IsSilent : ℕ → RpcState → Type 0
IsSilent m s = (r : RpcRequest) → s.request m ≡ some r → r.connected ≡ false

update-IsSilent :
    (n m : ℕ) (q : RpcRequest) (f : ℕ → Option RpcRequest)
    → (m ≡ n → q.connected ≡ false)
    → (m ≢ n → (r : RpcRequest) → f m ≡ some r → r.connected ≡ false)
    → (r : RpcRequest) → update n q f m ≡ some r
    → r.connected ≡ false
update-IsSilent n m q f off old r found = elim (Bool-cases (m == n)) [
  | inl same ↦ let now = off (ground (arith, same)) in ground (arith, found, same, now)
  | inr other ↦ old (ground (arith, other)) r (ground (arith, found, other))
]

flagged-IsSilent :
    (n m : ℕ) (answer : MessageOrStatus) (s : RpcState) (o : Option RpcRequest)
    → s.request n ≡ o
    → IsSilent m s
    → IsSilent m (call_flagged n answer s o)
flagged-IsSilent n m answer s none same h = h
flagged-IsSilent n m answer s (some q) same h = elim (Bool-cases q.called) [
  | inl e ↦ rw e h
  | inr e ↦ rw e (
      update-IsSilent n m (record q { called = true }) s.request
        (λ equal. h q (ap s.request equal ∙ same)) (λ other. h))
]

pub expire-IsSilent :
    (n m : ℕ) (reason : UStatus) (s : RpcState) → IsSilent m s → IsSilent m (expire n reason s)
unfolding expire call_once
expire-IsSilent n m reason s h = flagged-IsSilent n m (unexpected reason) s (s.request n) refl h

expire_each-IsSilent :
    (m : ℕ) (ps : List PendingRequest) (reason : UStatus) (s : RpcState)
    → IsSilent m s
    → IsSilent m (expire_each ps reason s)
unfolding expire_each
expire_each-IsSilent m [] reason s h = h
expire_each-IsSilent m (p ∷ ps) reason s h =
    expire_each-IsSilent m ps reason (expire p.expire reason s)
      (expire-IsSilent p.expire m reason s h)

pub expire_each-pending :
    (ps : List PendingRequest) (reason : UStatus) (s : RpcState)
    → (expire_each ps reason s).pending ≡ s.pending
unfolding expire_each
expire_each-pending [] reason s = refl
expire_each-pending (p ∷ ps) reason s =
    expire_each-pending ps reason (expire p.expire reason s) ∙ (expire_frame p.expire 0 reason s).0

pub destroy_client-IsSilent :
    (m : ℕ) (client : RpcClient) (s : RpcState)
    → IsSilent m s
    → IsSilent m (destroy_client client s)
unfolding destroy_client scrub
destroy_client-IsSilent m client s h =
    expire_each-IsSilent m (taken client.instance_id s.pending) cancel_reason _ h

pub begin_request-IsSilent :
    (n m : ℕ) (reqid : Uuid) (s : RpcState)
    → m ≢ n
    → IsSilent m s
    → IsSilent m (begin_request n reqid s)
unfolding begin_request
begin_request-IsSilent n m reqid s other h =
    update-IsSilent n m _ s.request (λ same. absurd (other same)) (λ distinct. h)

severed-IsSilent :
    (n m : ℕ) (s : RpcState) (o : Option RpcRequest)
    → s.request n ≡ o
    → (m ≢ n → IsSilent m s)
    → IsSilent m (sever_found n s o)
unfolding disconnect
severed-IsSilent n m s none same h = elim (Bool-cases (m == n)) [
  | inl equal ↦ λ r found. let e : m ≡ n = ground (arith, equal) in absurd (cc (e, same, found))
  | inr other ↦ h (ground (arith, other))
]
severed-IsSilent n m s (some q) same h =
    update-IsSilent n m (record q { connected = false }) s.request (λ equal. refl) h

pub sever_request-IsSilent :
    (n m : ℕ) (s : RpcState) → (m ≢ n → IsSilent m s) → IsSilent m (sever_request n s)
unfolding sever_request
sever_request-IsSilent n m s h = severed-IsSilent n m s (s.request n) refl h

taken-keep : (i j : ℕ) (c : List PendingRequest) → taken i c ≡ [] → taken i (keep j c) ≡ []
unfolding taken keep
taken-keep i j [] h = refl
taken-keep i j (p ∷ c) h = elim (Bool-cases (i == p.instance_id)) [
  | inl e ↦ absurd (ground (arith, e, h))
  | inr e ↦ elim (Bool-cases (j == p.instance_id)) [
    | inl f ↦ rw f (taken-keep i j c (ground (arith, e, h)))
    | inr f ↦ rw (f, e) (taken-keep i j c (ground (arith, e, h)))
  ]
]

taken-keep_same : (i : ℕ) (c : List PendingRequest) → taken i (keep i c) ≡ []
unfolding taken keep
taken-keep_same i [] = refl
taken-keep_same i (p ∷ c) = elim (Bool-cases (i == p.instance_id)) [
  | inl e ↦ rw e (taken-keep_same i c)
  | inr e ↦ rw (e, e) (taken-keep_same i c)
]

-- No request of an instance waits.
abbrev pub NoneWait : ℕ → RpcState → Type 0
NoneWait i s = taken i s.pending ≡ []

pub destroy_client-NoneWait :
    (client : RpcClient) (s : RpcState) → NoneWait client.instance_id (destroy_client client s)
unfolding destroy_client scrub
destroy_client-NoneWait client s =
    let i = client.instance_id in
    ap (taken i) (expire_each-pending (taken i s.pending) cancel_reason _)
    ∙ taken-keep_same i s.pending

pub destroy_client-keeps_NoneWait :
    (i : ℕ) (client : RpcClient) (s : RpcState)
    → NoneWait i s
    → NoneWait i (destroy_client client s)
unfolding destroy_client scrub
destroy_client-keeps_NoneWait i client s h =
    let j = client.instance_id in
    ap (taken i) (expire_each-pending (taken j s.pending) cancel_reason _)
    ∙ taken-keep i j s.pending h

pub sever_request-pending : (n : ℕ) (s : RpcState) → (sever_request n s).pending ≡ s.pending
unfolding sever_request disconnect
sever_request-pending n s = ground (arith, s.request n)

pub new_client-instance_id :
    (pb : Protobuf) (t : UTransport) (prio time : ℤ) (instance_id : ℕ) (client : RpcClient)
    → new_client pb t prio time none none none instance_id ≡ ok client
    → client.instance_id ≡ instance_id
unfolding new_client
new_client-instance_id pb t prio time instance_id client e =
    let (b1, first, rest1) = >>=-eq-ok (with_priority pb _ prio) _ e in
    let (b2, second, last) = >>=-eq-ok (with_ttl pb b1 time) _ rest1 in
    ap (λ c. c.instance_id) (sym (ok-injective last))

pub drop_listener-rpc :
    (handle : ListenHandle) (held : Bool) (w : RpcWorld) → (drop_listener handle held w).rpc ≡ w.rpc
unfolding drop_handle
drop_listener-rpc handle true w = refl
drop_listener-rpc handle false w = refl
