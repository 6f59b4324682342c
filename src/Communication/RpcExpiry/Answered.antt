-- ===== src/Communication/RpcExpiry/Answered.antt =====
-- That no request of src/communication/RpcClient.cpp is forgotten, over all orders of the threads'
-- steps.
use mathlib.Core.Path.{subst}
use up_cpp.Common.{
  count, count-append, ℕ, ◌+◌, ◌<◌, ◌≡◌, ◌≢◌, ◌⊎◌, refl, sym, ◌∙◌, ap, inl, inr, Bool, true, false,
  Option, none, some, List, [], ◌∷◌, ◌++◌, map, arith, ◌==◌, Bool-cases, leb,
}
use up_cpp.Proto.{UMessage, UStatus, Protobuf}
use up_cpp.Utils.Expected.{unexpected}
use up_cpp.Communication.RpcExpiry.{
  RpcRequest, RpcState, MessageOrStatus, update, begin_request, disconnect, call_once, call_flagged,
  expire, on_response, enqueue, pop_expired, cancel_reason, expire_reason,
}
use up_cpp.Communication.RpcExpiry.Heap.{PendingRequest, HeapAlgorithms, IsHeap, keep, taken}
use up_cpp.Communication.RpcExpiry.Steps.{
  System, Step, begin, fail, throw, queue, respond, take, scrub, settle, drop, Reach, here, next,
  initial, mark,
}
use up_cpp.Communication.RpcExpiry.Worker.{expire_called, expire_frame}
use up_cpp.Communication.RpcExpiry.Once.{times, response_cases, Told, reach-AllTold}

-- How many `expire` functions of a request wait, in the queue or taken out of it.
abbrev pub claims : ℕ → System → ℕ
claims n s = count (λ p. p.expire == n) s.state.pending + times n s.owed

-- A request that was not called, is not in flight and was not given up by an exception waits.
abbrev pub AllHeld : System → Type 0
AllHeld s =
    (m : ℕ) (r : RpcRequest)
    → s.state.request m ≡ some r
    → r.called ≡ false
    → s.in_flight m ≡ false
    → s.thrown m ≡ false
    → 0 < claims m s

-- What a call leaves uncalled was so before.
flagged_uncalled :
    (n m : ℕ) (answer : MessageOrStatus) (s : RpcState) (o : Option RpcRequest) (r : RpcRequest)
    → s.request n ≡ o
    → (call_flagged n answer s o).request m ≡ some r
    → r.called ≡ false
    → s.request m ≡ some r
flagged_uncalled n m answer s none r same e off = e
flagged_uncalled n m answer s (some q) r same e off = ground arith

uncalled :
    (n m : ℕ) (answer : MessageOrStatus) (s : RpcState) (r : RpcRequest)
    → (call_once n answer s).request m ≡ some r
    → r.called ≡ false
    → s.request m ≡ some r
unfolding call_once
uncalled n m answer s r = flagged_uncalled n m answer s (s.request n) r refl

flagged_pending :
    (n : ℕ) (answer : MessageOrStatus) (s : RpcState) (o : Option RpcRequest)
    → (call_flagged n answer s o).pending ≡ s.pending
flagged_pending n answer s none = refl
flagged_pending n answer s (some r) = ground arith

expire_uncalled :
    (n m : ℕ) (reason : UStatus) (s : RpcState) (r : RpcRequest)
    → (expire n reason s).request m ≡ some r
    → r.called ≡ false
    → (m ≢ n) × (s.request m ≡ some r)
unfolding expire
expire_uncalled n m reason s r e off = (
  λ q. absurd (cc (off, expire_called n reason s r (ap (expire n reason s).request (sym q) ∙ e))),
  uncalled n m (unexpected reason) s r e off,
)

response_pending :
    (pb : Protobuf) (n : ℕ) (msg : UMessage) (s : RpcState)
    → (on_response pb n msg s).pending ≡ s.pending
unfolding call_once
response_pending pb n msg s = elim (response_cases pb n msg s) [
  | inl same ↦ ap (λ t. t.pending) same
  | inr (answer, called) ↦ ap (λ t. t.pending) called ∙ flagged_pending n answer s (s.request n)
]

response_uncalled :
    (pb : Protobuf) (n m : ℕ) (msg : UMessage) (s : RpcState) (r : RpcRequest)
    → (on_response pb n msg s).request m ≡ some r
    → r.called ≡ false
    → s.request m ≡ some r
response_uncalled pb n m msg s r e off = elim (response_cases pb n msg s) [
  | inl same ↦ ap (λ t. t.request m) (sym same) ∙ e
  | inr (answer, called) ↦ uncalled n m answer s r (ap (λ t. t.request m) (sym called) ∙ e) off
]

count-scrub :
    (f : PendingRequest → Bool) (i : ℕ) (c : List PendingRequest)
    → count f c ≡ count f (keep i c) + count f (taken i c)
unfolding keep taken
count-scrub f i [] = omega arith
count-scrub f i (p ∷ c) = ground (arith, count-scrub f i c)

times-map :
    (n : ℕ) (reason : UStatus) (c : List PendingRequest)
    → times n (map (λ p. (p.expire, reason)) c) ≡ count (λ p. p.expire == n) c
times-map n reason [] = refl
times-map n reason (p ∷ c) = ground (arith, times-map n reason c)

find_update :
    (n m : ℕ) (q r : RpcRequest) (f : ℕ → Option RpcRequest)
    → update n q f m ≡ some r
    → ((m ≡ n) × (q ≡ r)) ⊎ ((m ≢ n) × (f m ≡ some r))
find_update n m q r f e = elim (Bool-cases (m == n)) [
  | inl same ↦ inl (ground (arith, same), ground (arith, e, same))
  | inr other ↦ inr (λ h. ground (arith, other, h), ground (arith, e, other))
]

mark_off :
    (n m : ℕ) (b : Bool) (f : ℕ → Bool)
    → mark n b f m ≡ false
    → ((m ≡ n) × (b ≡ false)) ⊎ ((m ≢ n) × (f m ≡ false))
mark_off n m b f e = elim (Bool-cases (m == n)) [
  | inl same ↦ inl (ground (arith, same), ground (arith, e, same))
  | inr other ↦ inr (λ h. ground (arith, other, h), ground (arith, e, other))
]

-- The same queue has the same claims.
same_pending :
    (m : ℕ) (s : System) (c : List PendingRequest)
    → c ≡ s.state.pending
    → 0 < claims m s
    → 0 < count (λ p. p.expire == m) c + times m s.owed
same_pending m s c same h =
    subst (λ d. 0 < count (λ p. p.expire == m) d + times m s.owed) (sym same) h

times-split :
    (n m : ℕ) (reason : UStatus) (before after : List (ℕ × UStatus))
    → m ≢ n
    → times m (before ++ (n, reason) ∷ after) ≡ times m (before ++ after)
times-split n m reason before after other = ground (
  arith,
  count-append (λ e. e.0 == m) before ((n, reason) ∷ after),
  count-append (λ e. e.0 == m) before after,
)

module _ (pb : Protobuf) (heap : HeapAlgorithms) where
  pub popped_front :
      (now : ℕ) (d : List PendingRequest) (p : PendingRequest) (c : List PendingRequest)
      → pop_expired heap now d ≡ (some p, c)
      → (rest : List PendingRequest) × (d ≡ p ∷ rest) × (c ≡ heap.pop (p ∷ rest))
  unfolding pop_expired
  popped_front now [] p c e = absurd (cc e)
  popped_front now (q ∷ rest) p c e = elim (Bool-cases (leb q.when_expire now)) [
    | inl due ↦ (rest, ground (arith, due, e), ground (arith, due, e))
    | inr late ↦ absurd (ground (arith, late, e))
  ]

  take_claims :
      (m now : ℕ) (s : System) (p : PendingRequest) (c : List PendingRequest)
      → IsHeap s.state.pending
      → pop_expired heap now s.state.pending ≡ (some p, c)
      → count (λ q. q.expire == m) c + times m (s.owed ++ (p.expire, expire_reason) ∷ [])
        ≡ claims m s
  take_claims m now s p c ordered popped =
      let (rest, front, left) = popped_front now s.state.pending p c popped in
      let fewer : count (λ q. q.expire == m) c ≡ count (λ q. q.expire == m) rest =
        ap (count (λ q. q.expire == m)) left
        ∙ heap.pop-Same p rest (subst IsHeap front ordered) (λ q. q.expire == m) in
      ground (
        arith,
        fewer,
        ap (count (λ q. q.expire == m)) front,
        count-append (λ e. e.0 == m) s.owed ((p.expire, expire_reason) ∷ []),
      )

  -- What std::push_heap and std::pop_heap require: they are given a heap.
  abbrev pub IsDefined : (s t : System) → Step pb heap s t → Type 0
  IsDefined s t (queue _ p running) = IsHeap s.state.pending
  IsDefined s t (take _ now p c popped) = IsHeap s.state.pending
  IsDefined s t _ = Unit

  -- No step of the run pushes onto or pops off a queue that is no heap, which a scrub may leave.
  abbrev pub UsesHeaps : (s t : System) → Reach pb heap s t → Type 0
  UsesHeaps s t here = Unit
  UsesHeaps s t (next {t = v} run step) = UsesHeaps s v run × IsDefined v t step

  step-AllHeld :
      (s t : System) (step : Step pb heap s t) → IsDefined s t step → AllHeld s → AllHeld t
  unfolding begin_request disconnect enqueue pop_expired
  step-AllHeld s t (begin _ n reqid new) ordered h m r found uncalled_yet landed kept =
      elim (mark_off n m true s.in_flight landed) [
        | inl (same, off) ↦ absurd (cc off)
        | inr (other, off) ↦
            elim (find_update n m (record { called = false; connected = true; reqid = reqid }) r
              s.state.request found) [
                | inl (same, e) ↦ absurd (other same)
                | inr (_, old) ↦ h m r old uncalled_yet off kept
              ]
      ]
  step-AllHeld s t (fail _ n status running) ordered h m r found uncalled_yet landed kept =
      let (other, old) = expire_uncalled n m status s.state r found uncalled_yet in
      elim (mark_off n m false s.in_flight landed) [
        | inl (same, off) ↦ absurd (other same)
        | inr (_, off) ↦
            same_pending m s _ (expire_frame n m status s.state).0 (h m r old uncalled_yet off kept)
      ]
  step-AllHeld s t (throw _ n running) ordered h m r found uncalled_yet landed kept =
      elim (mark_off n m true s.thrown kept) [
        | inl (same, on) ↦ absurd (cc on)
        | inr (other, kept_before) ↦ elim (mark_off n m false s.in_flight landed) [
          | inl (same, off) ↦ absurd (other same)
          | inr (_, off) ↦ h m r found uncalled_yet off kept_before
        ]
      ]
  step-AllHeld s t (queue _ p running) ordered h m r found uncalled_yet landed kept =
      let pushed : count (λ q. q.expire == m) (heap.push s.state.pending p)
          ≡ count (λ q. q.expire == m) (p ∷ s.state.pending) =
        heap.push-Same s.state.pending p ordered (λ q. q.expire == m) in
      elim (mark_off p.expire m false s.in_flight landed) [
        | inl (same, off) ↦ ground (arith, pushed, same)
        | inr (other, off) ↦ ground (arith, pushed, h m r found uncalled_yet off kept)
      ]
  step-AllHeld s t (respond _ n msg) ordered h m r found uncalled_yet landed kept =
      same_pending m s _ (response_pending pb n msg s.state)
        (h m r (response_uncalled pb n m msg s.state r found uncalled_yet) uncalled_yet landed kept)
  step-AllHeld s t (take _ now p c popped) ordered h m r found uncalled_yet landed kept =
      omega (arith, take_claims m now s p c ordered popped, h m r found uncalled_yet landed kept)
  step-AllHeld s t (scrub _ i) ordered h m r found uncalled_yet landed kept = omega (
    arith,
    h m r found uncalled_yet landed kept,
    count-scrub (λ p. p.expire == m) i s.state.pending,
    times-map m cancel_reason (taken i s.state.pending),
    count-append (λ e. e.0 == m) s.owed
        (map (λ p. (p.expire, cancel_reason)) (taken i s.state.pending)),
  )
  step-AllHeld s t (settle _ before after n reason split) ordered h m r found uncalled_yet landed
        kept =
      let (other, old) = expire_uncalled n m reason s.state r found uncalled_yet in
      omega (
        arith,
        h m r old uncalled_yet landed kept,
        ap (count (λ p. p.expire == m)) (expire_frame n m reason s.state).0,
        ap (times m) split,
        times-split n m reason before after other,
      )
  step-AllHeld s t (drop _ n q old) ordered h m r found uncalled_yet landed kept =
      elim (find_update n m (record q { connected = false }) r s.state.request found) [
        | inl (same, e) ↦
            h m q (ap s.state.request same ∙ old) (ap (λ o. o.called) e ∙ uncalled_yet) landed kept
        | inr (other, before) ↦ h m r before uncalled_yet landed kept
      ]

  reach-AllHeld : (s : System) (run : Reach pb heap initial s) → UsesHeaps initial s run → AllHeld s
  reach-AllHeld s here heaps = λ m r found. absurd (cc found)
  reach-AllHeld s (next {t} run step) heaps =
      step-AllHeld t s step heaps.1 (reach-AllHeld t run heaps.0)

  -- No request is forgotten: in every run with callbacks that return, in which the queue is a heap
  -- whenever a request is pushed onto it or popped off it, once a request that no exception gave up
  -- is neither in flight nor queued nor taken out to be expired, its flag is set, and its callback
  -- has been called exactly once if it is still connected.
  pub answered_once :
      (s : System) (n : ℕ) (r : RpcRequest)
      → (run : Reach pb heap initial s) → UsesHeaps initial s run
      → s.state.request n ≡ some r
      → s.in_flight n ≡ false
      → s.thrown n ≡ false
      → claims n s ≡ 0
      → (r.called ≡ true) × (r.connected ≡ true → times n s.state.delivered ≡ 1)
  answered_once s n r run heaps found landed kept done = elim (Bool-cases r.called) [
    | inl called ↦ (
      called,
      λ on.
          (subst (λ o. Told o (times n s.state.delivered)) found (reach-AllTold pb heap s run n)).2
            called on,
    )
    | inr uncalled_yet ↦
        absurd (omega (arith, reach-AllHeld s run heaps n r found uncalled_yet landed kept, done))
  ]
