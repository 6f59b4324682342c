-- ===== src/Communication/RpcExpiry/Once.antt =====
-- The std::once_flag of src/communication/RpcClient.cpp, over all orders of the threads' steps.
use mathlib.Core.Path.{subst}
use up_cpp.Common.{
  count, count-append, ℕ, suc, ◌≤◌, ◌<◌, ◌≡◌, ◌≢◌, ◌⊎◌, refl, sym, ◌∙◌, ap, inl, inr, Bool, true,
  false, Option, none, some, List, [], ◌∷◌, ◌++◌, arith, ◌==◌, if◌then◌else◌, Bool-cases, value_or,
}
use up_cpp.Proto.{Uuid, UMessage, UStatus, Protobuf, ok_code}
use up_cpp.Validator.Message.{reqid_of}
use up_cpp.Transport.{is_ok_code}
use up_cpp.Utils.Expected.{expected, unexpected}
use up_cpp.Communication.RpcExpiry.{
  RpcRequest, RpcState, MessageOrStatus, update, begin_request, disconnect, call_once, call_flagged,
  expire, on_response, filter_response, enqueue, bad_response,
}
use up_cpp.Communication.RpcExpiry.Heap.{HeapAlgorithms}
use up_cpp.Communication.RpcExpiry.Steps.{
  System, Step, begin, fail, throw, queue, respond, take, scrub, settle, drop, Reach, here, next,
  initial,
}

-- How often a request's callback was called.
abbrev pub times : {A : Type 0} → ℕ → List (ℕ × A) → ℕ
times n d = count (λ e. e.0 == n) d

-- A request and the number of calls of its callback fit: none without a request or with its flag
-- unset, else one, or none if the callee has disconnected.
abbrev pub Told : Option RpcRequest → ℕ → Type 0
Told none t = t ≡ 0
Told (some r) t =
    (t ≤ 1) × (r.called ≡ false → t ≡ 0) × (r.called ≡ true → r.connected ≡ true → t ≡ 1)

abbrev pub AllTold : RpcState → Type 0
AllTold s = (m : ℕ) → Told (s.request m) (times m s.delivered)

Told-update :
    (n m : ℕ) (r : RpcRequest) (f : ℕ → Option RpcRequest) (t : ℕ)
    → (m ≡ n → Told (some r) t)
    → (m ≢ n → Told (f m) t)
    → Told (update n r f m) t
Told-update n m r f t same other = elim (Bool-cases (m == n)) [
  | inl e ↦ rw e (same (ground (arith, e)))
  | inr e ↦ rw e (other (λ q. ground (arith, e, q)))
]

pub times-snoc_other :
    {A : Type 0} (n m : ℕ) (a : A) (d : List (ℕ × A))
    → m ≢ n
    → times m (d ++ (n, a) ∷ []) ≡ times m d
times-snoc_other n m a d other = ground (arith, count-append (λ e. e.0 == m) d ((n, a) ∷ []))

pub times-snoc_same :
    {A : Type 0} (n : ℕ) (a : A) (d : List (ℕ × A)) → times n (d ++ (n, a) ∷ []) ≡ suc (times n d)
times-snoc_same n a d = ground (arith, count-append (λ e. e.0 == n) d ((n, a) ∷ []))

call_new :
    (n : ℕ) (answer : MessageOrStatus) (s : RpcState) (r : RpcRequest)
    → Told (some r) (times n s.delivered)
    → r.called ≡ false
    → Told
        (some (record r { called = true }))
        (times n (if r.connected then s.delivered ++ (n, answer) ∷ [] else s.delivered))
call_new n answer s r h e = elim (Bool-cases r.connected) [
  | inl c ↦ ground (arith, times-snoc_same n answer s.delivered, h, e, c)
  | inr c ↦ ground (arith, h, e, c)
]

call_other :
    (n m : ℕ) (answer : MessageOrStatus) (s : RpcState) (b : Bool)
    → m ≢ n
    → times m (if b then s.delivered ++ (n, answer) ∷ [] else s.delivered) ≡ times m s.delivered
call_other n m answer s true other = times-snoc_other n m answer s.delivered other
call_other n m answer s false other = refl

call_flagged-AllTold :
    (n : ℕ) (answer : MessageOrStatus) (s : RpcState) (o : Option RpcRequest)
    → s.request n ≡ o
    → AllTold s
    → AllTold (call_flagged n answer s o)
call_flagged-AllTold n answer s none same h m = h m
call_flagged-AllTold n answer s (some r) same h m = elim (Bool-cases r.called) [
  | inl e ↦ rw e (h m)
  | inr e ↦ rw e (
      Told-update n m (record r { called = true }) s.request _
        (λ q.
          subst
            (λ k.
              Told (some (record r { called = true }))
                (times k (if r.connected then s.delivered ++ (n, answer) ∷ [] else s.delivered)))
            (sym q)
            (call_new n answer s r (subst (λ o. Told o (times n s.delivered)) same (h n)) e))
        (λ q. subst (Told (s.request m)) (sym (call_other n m answer s r.connected q)) (h m)))
]

call_once-AllTold :
    (n : ℕ) (answer : MessageOrStatus) (s : RpcState) → AllTold s → AllTold (call_once n answer s)
unfolding call_once
call_once-AllTold n answer s h = call_flagged-AllTold n answer s (s.request n) refl h

expire-AllTold : (n : ℕ) (reason : UStatus) (s : RpcState) → AllTold s → AllTold (expire n reason s)
unfolding expire
expire-AllTold n reason s h = call_once-AllTold n (unexpected reason) s h

filter_cases :
    (pb : Protobuf) (n : ℕ) (msg : UMessage) (s : RpcState) (o : Option RpcRequest)
    → (filter_response pb n msg s o ≡ s)
      ⊎ ((answer : MessageOrStatus) × (filter_response pb n msg s o ≡ call_once n answer s))
filter_cases pb n msg s none = inl refl
filter_cases pb n msg s (some r) =
    elim (Bool-cases (pb.uuid_equals (reqid_of msg.attributes) r.reqid)) [
      | inr other ↦ inl (rw other refl)
      | inl ours ↦ elim (Bool-cases (is_ok_code (value_or msg.attributes.commstatus ok_code))) [
        | inl good ↦ inr (expected msg, rw (ours, good) refl)
        | inr bad ↦ inr (unexpected (bad_response msg), rw (ours, bad) refl)
      ]
    ]

-- A response is for another request, or calls the callback once.
pub response_cases :
    (pb : Protobuf) (n : ℕ) (msg : UMessage) (s : RpcState)
    → (on_response pb n msg s ≡ s)
      ⊎ ((answer : MessageOrStatus) × (on_response pb n msg s ≡ call_once n answer s))
unfolding on_response
response_cases pb n msg s = filter_cases pb n msg s (s.request n)

on_response-AllTold :
    (pb : Protobuf) (n : ℕ) (msg : UMessage) (s : RpcState)
    → AllTold s
    → AllTold (on_response pb n msg s)
on_response-AllTold pb n msg s h = elim (response_cases pb n msg s) [
  | inl same ↦ subst AllTold (sym same) h
  | inr (answer, called) ↦ subst AllTold (sym called) (call_once-AllTold n answer s h)
]

begin_request-AllTold :
    (n : ℕ) (reqid : Uuid) (s : RpcState)
    → s.request n ≡ none
    → AllTold s
    → AllTold (begin_request n reqid s)
unfolding begin_request
begin_request-AllTold n reqid s new h m =
    Told-update n m (record { called = false; connected = true; reqid = reqid }) s.request _
      (λ q.
        let none_yet : times m s.delivered ≡ 0 =
          subst (λ o. Told o (times m s.delivered)) (ap s.request q ∙ new) (h m) in
        (omega (arith, none_yet), λ c. none_yet, λ c on. absurd (cc c)))
      (λ q. h m)

disconnect-AllTold :
    (n : ℕ) (r : RpcRequest) (s : RpcState)
    → s.request n ≡ some r
    → AllTold s
    → AllTold (disconnect n r s)
unfolding disconnect
disconnect-AllTold n r s same h m =
    Told-update n m (record r { connected = false }) s.request _
      (λ q.
        let before : Told (some r) (times m s.delivered) =
          subst (λ o. Told o (times m s.delivered)) (ap s.request q ∙ same) (h m) in
        (before.0, before.1, λ c off. absurd (cc off)))
      (λ q. h m)

module _ (pb : Protobuf) (heap : HeapAlgorithms) where
  step-AllTold : (s t : System) → Step pb heap s t → AllTold s.state → AllTold t.state
  unfolding enqueue
  step-AllTold s t (begin _ n reqid new) h = begin_request-AllTold n reqid s.state new h
  step-AllTold s t (fail _ n status running) h = expire-AllTold n status s.state h
  step-AllTold s t (throw _ n running) h = h
  step-AllTold s t (queue _ p running) h = h
  step-AllTold s t (respond _ n msg) h = on_response-AllTold pb n msg s.state h
  step-AllTold s t (take _ now p c popped) h = h
  step-AllTold s t (scrub _ i) h = h
  step-AllTold s t (settle _ before after n reason found) h = expire-AllTold n reason s.state h
  step-AllTold s t (drop _ n r found) h = disconnect-AllTold n r s.state found h

  pub reach-AllTold : (s : System) → Reach pb heap initial s → AllTold s.state
  reach-AllTold s here m = refl
  reach-AllTold s (next {t} run step) m = step-AllTold t s step (reach-AllTold t run) m

  -- In every run with callbacks that return, a callback is called at most once, whatever responses,
  -- timeouts, failures and cancellations race for it, and a call of it leaves the flag of its request
  -- set.
  pub called_at_most_once :
      (s : System) (n : ℕ)
      → Reach pb heap initial s
      → (times n s.state.delivered ≤ 1)
        × ((r : RpcRequest)
            → s.state.request n ≡ some r
            → 0 < times n s.state.delivered
            → r.called ≡ true)
  called_at_most_once s n run = (
    at_most (s.state.request n) (reach-AllTold s run n),
    λ r found told.
        let fits = subst (λ o. Told o (times n s.state.delivered)) found (reach-AllTold s run n) in
        elim (Bool-cases r.called) [
          | inl on ↦ on
          | inr off ↦ absurd (omega (arith, fits.1 off, told))
        ],
  )
    where
      at_most :
          (o : Option RpcRequest)
          → Told o (times n s.state.delivered)
          → times n s.state.delivered ≤ 1
      at_most none h = omega (arith, h)
      at_most (some r) h = h.0
