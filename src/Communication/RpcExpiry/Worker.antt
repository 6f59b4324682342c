-- ===== src/Communication/RpcExpiry/Worker.antt =====
-- What a round of the worker in src/communication/RpcClient.cpp achieves.
use mathlib.Core.Path.{subst}
use up_cpp.Common.{
  append-nil, ◌||◌, replicate, count, ℕ, zero, suc, ◌≤◌, ◌<◌, ◌≡◌, ◌≢◌, refl, sym, ◌∙◌, inl, inr,
  Bool, true, false, not, ◌&&◌, Option, none, some, List, [], ◌∷◌, arith, leb, ltb, ◌==◌,
  Bool-cases, ltb→lt, ap,
}
use up_cpp.Proto.{UStatus}
use up_cpp.Utils.Expected.{unexpected}
use up_cpp.Communication.RpcExpiry.{
  RpcState, RpcRequest, MessageOrStatus, call_once, call_flagged, expire, expire_reason,
  pop_expired, after_pop, take_off, do_work, wakes, wake_time,
}
use up_cpp.Communication.RpcExpiry.Delivered.{ended, answers, IsEnded, IsEnded-trans, expire_any}
use up_cpp.Communication.RpcExpiry.Heap.{
  PendingRequest, HeapAlgorithms, IsHeap, count_none, count_and_le, count_and_not, front_first,
}

pub expire_frame :
    (n m : ℕ) (reason : UStatus) (s : RpcState)
    → ((expire n reason s).pending ≡ s.pending)
      × ((expire n reason s).stop ≡ s.stop)
      × (m ≢ n → (expire n reason s).request m ≡ s.request m)
unfolding expire call_once
expire_frame n m reason s = ground (arith, s.request n)

flagged_called :
    (n : ℕ) (answer : MessageOrStatus) (s : RpcState) (o : Option RpcRequest) (r : RpcRequest)
    → s.request n ≡ o
    → (call_flagged n answer s o).request n ≡ some r
    → r.called ≡ true
flagged_called n answer s none r same e = cc (same, e)
flagged_called n answer s (some q) r same e = ground arith

pub expire_called :
    (n : ℕ) (reason : UStatus) (s : RpcState) (r : RpcRequest)
    → (expire n reason s).request n ≡ some r
    → r.called ≡ true
unfolding expire call_once
expire_called n reason s r e = flagged_called n (unexpected reason) s (s.request n) r refl e

-- Whether a pending request has expired, and is one of a given number.
abbrev pub is_due : ℕ → PendingRequest → Bool
is_due now p = leb p.when_expire now

abbrev pub is_due_of : ℕ → ℕ → PendingRequest → Bool
is_due_of n now p = p.expire == n && leb p.when_expire now

-- The state after work at `now`, told from the state before.
pub record Settled (now : ℕ) (s s' : RpcState) : Type 0 where
  pub none_due : count (is_due now) s'.pending ≡ 0
  pub others_kept :
      (f : PendingRequest → Bool)
      → count f s'.pending ≡ count (λ p. f p && not (is_due now p)) s.pending
  pub due_called :
      (n : ℕ) (r : RpcRequest)
      → 0 < count (is_due_of n now) s.pending
      → s'.request n ≡ some r
      → r.called ≡ true
  pub told :
      (n : ℕ) (r : RpcRequest)
      → s.request n ≡ some r
      → IsEnded n (ltb 0 (count (is_due_of n now) s.pending)) expire_reason r s s'
  pub rest_untouched : (n : ℕ) → count (is_due_of n now) s.pending ≡ 0 → s'.request n ≡ s.request n

pub not_due_front :
    (now : ℕ) (p : PendingRequest) (c : List PendingRequest)
    → IsHeap (p ∷ c)
    → leb p.when_expire now ≡ false
    → count (is_due now) (p ∷ c) ≡ 0
not_due_front now p c heap late =
    count_none (is_due now) (p ∷ c) (λ j q e. ground (arith, late, front_first p c j q heap e))

Settled-none_due : (now : ℕ) (s : RpcState) → count (is_due now) s.pending ≡ 0 → Settled now s s
Settled-none_due now s h = record {
  none_due = h;
  others_kept = λ f. sym (count_and_not f (is_due now) s.pending h);
  due_called = λ n r due e.
      absurd (omega (arith, due, h, count_and_le (λ p. p.expire == n) (is_due now) s.pending));
  told = λ n r found.
      let no_more : count (is_due_of n now) s.pending ≡ 0 =
        omega (arith, h, count_and_le (λ p. p.expire == n) (is_due now) s.pending) in
      rw no_more (found, sym (append-nil (answers n s.delivered)));
  rest_untouched = λ n e. refl;
}

module _ (heap : HeapAlgorithms) where
  -- One round takes the front off and calls its request.
  abbrev round : RpcState → PendingRequest → List PendingRequest → RpcState
  round s p c = expire p.expire expire_reason (take_off p (heap.pop (p ∷ c)) s)

  count-round :
      (s : RpcState) (p : PendingRequest) (c : List PendingRequest) (f : PendingRequest → Bool)
      → IsHeap (p ∷ c)
      → count f (round s p c).pending ≡ count f c
  count-round s p c f ordered =
      ap (count f) (expire_frame p.expire 0 expire_reason (take_off p (heap.pop (p ∷ c)) s)).0
      ∙ heap.pop-Same p c ordered f

  pub Settled-round :
      (now : ℕ) (s s' : RpcState) (p : PendingRequest) (c : List PendingRequest)
      → s.pending ≡ p ∷ c
      → IsHeap (p ∷ c)
      → leb p.when_expire now ≡ true
      → Settled now (round s p c) s'
      → Settled now s s'
  Settled-round now s s' p c front ordered due h = record {
    none_due = h.none_due;
    others_kept = λ f.
        h.others_kept f
        ∙ count-round s p c _ ordered
        ∙ ground (arith, ap (count (λ q. f q && not (is_due now q))) front, due);
    due_called = λ n r some_due e.
        elim (Bool-cases (ltb 0 (count (is_due_of n now) (round s p c).pending))) [
          | inl more ↦ h.due_called n r (ltb→lt 0 _ more) e
          | inr no_more ↦
              let none_left : count (is_due_of n now) (round s p c).pending ≡ 0 =
                ground (arith, no_more) in
              let same : n ≡ p.expire = ground (
                arith,
                due,
                some_due,
                none_left,
                count-round s p c (is_due_of n now) ordered,
                ap (count (is_due_of n now)) front,
              ) in
              let called : (round s p c).request n ≡ some r =
                sym (h.rest_untouched n none_left) ∙ e in
              expire_called p.expire expire_reason (take_off p (heap.pop (p ∷ c)) s) r
                (subst (λ k. (round s p c).request k ≡ some r) same called)
        ];
    told = λ n r found.
        let first = expire_any p.expire n expire_reason (take_off p (heap.pop (p ∷ c)) s) r found in
        let both : (p.expire == n || ltb 0 (count (is_due_of n now) (round s p c).pending))
            ≡ ltb 0 (count (is_due_of n now) s.pending) =
          ground (
            arith,
            due,
            count-round s p c (is_due_of n now) ordered,
            ap (count (is_due_of n now)) front,
          ) in
        subst (λ b. IsEnded n b expire_reason r s s') both
          (IsEnded-trans n (p.expire == n) (ltb 0 (count (is_due_of n now) (round s p c).pending))
            expire_reason r s (round s p c) s' first (h.told n (ended (p.expire == n) r) first.0));
    rest_untouched = λ n e.
        let all : count (is_due_of n now) (p ∷ c) ≡ 0 =
          sym (ap (count (is_due_of n now)) front) ∙ e in
        let other : n ≢ p.expire = λ same. ground (arith, all, same, due) in
        let none_left : count (is_due_of n now) c ≡ 0 = ground (arith, all, other) in
        h.rest_untouched n (count-round s p c (is_due_of n now) ordered ∙ none_left)
        ∙ (expire_frame p.expire n expire_reason (take_off p (heap.pop (p ∷ c)) s)).2 other;
  }

  pop_due :
      (now : ℕ) (p : PendingRequest) (c : List PendingRequest)
      → leb p.when_expire now ≡ true
      → pop_expired heap now (p ∷ c) ≡ (some p, heap.pop (p ∷ c))
  unfolding pop_expired
  pop_due now p c due = rw due refl

  pop_late :
      (now : ℕ) (p : PendingRequest) (c : List PendingRequest)
      → leb p.when_expire now ≡ false
      → pop_expired heap now (p ∷ c) ≡ (none, p ∷ c)
  unfolding pop_expired
  pop_late now p c late = rw late refl

  round_lem :
      (rounds now : ℕ) (s : RpcState) (c : List PendingRequest)
      → s.pending ≡ c
      → s.stop ≡ false
      → do_work heap (replicate (suc rounds) now) s
        ≡ after_pop heap
            (λ t. do_work heap (replicate rounds now) t)
            s
            false
            (pop_expired heap now c)
  unfolding do_work
  round_lem rounds now s c same running =
      ap
        (λ (b : Bool).
          after_pop heap (λ t. do_work heap (replicate rounds now) t) s b
            (pop_expired heap now s.pending))
        running
      ∙ ap
          (λ (d : List PendingRequest).
            after_pop heap (λ t. do_work heap (replicate rounds now) t) s false
              (pop_expired heap now d))
          same

  empty_lem : (now : ℕ) → pop_expired heap now [] ≡ (none, [])
  unfolding pop_expired
  empty_lem now = refl

  no_rounds : (now : ℕ) (s : RpcState) → do_work heap [] s ≡ s
  unfolding do_work
  no_rounds now s = refl

  round_with :
      (rounds now : ℕ) (s : RpcState) (c : List PendingRequest)
      (popped : Option PendingRequest × List PendingRequest)
      → s.pending ≡ c
      → s.stop ≡ false
      → pop_expired heap now c ≡ popped
      → Settled now s (after_pop heap (λ t. do_work heap (replicate rounds now) t) s false popped)
      → Settled now s (do_work heap (replicate (suc rounds) now) s)
  round_with rounds now s c popped same running e h =
      subst (Settled now s)
        (sym (
          round_lem rounds now s c same running
          ∙ ap (after_pop heap (λ t. do_work heap (replicate rounds now) t) s false) e))
        h

  -- With a round for each pending request, all at one reading of the clock, a worker that is not
  -- stopped and whose queue is a heap settles all that has expired: nothing due is left in the
  -- queue, every request that was due has its flag set, and its callback has been called with
  -- DEADLINE_EXCEEDED, once, if it was not called before and is connected; all others are as they
  -- were.
  pub do_work-Settled :
      (rounds now : ℕ) (s : RpcState) (c : List PendingRequest)
      → s.pending ≡ c
      → s.stop ≡ false
      → IsHeap c
      → count (λ p. true) c ≤ rounds
      → Settled now s (do_work heap (replicate rounds now) s)
  do_work-Settled zero now s [] same running ordered few =
      subst (Settled now s) (sym (no_rounds now s))
        (Settled-none_due now s (ap (count (is_due now)) same))
  do_work-Settled zero now s (p ∷ c) same running ordered few = absurd (omega (arith, few))
  do_work-Settled (suc rounds) now s [] same running ordered few =
      round_with rounds now s [] (none, []) same running (empty_lem now)
        (Settled-none_due now s (ap (count (is_due now)) same))
  do_work-Settled (suc rounds) now s (p ∷ c) same running ordered few =
      elim (Bool-cases (leb p.when_expire now)) [
        | inl due ↦
            let frame = expire_frame p.expire 0 expire_reason (take_off p (heap.pop (p ∷ c)) s) in
            round_with rounds now s (p ∷ c) (some p, heap.pop (p ∷ c)) same running
              (pop_due now p c due)
              (Settled-round now s _ p c same ordered due (
                do_work-Settled rounds now (round s p c) (heap.pop (p ∷ c)) frame.0
                  (frame.1 ∙ running) (heap.pop-IsHeap p c ordered)
                  (omega (arith, few, heap.pop-Same p c ordered (λ q. true)))))
        | inr late ↦
            round_with rounds now s (p ∷ c) (none, p ∷ c) same running (pop_late now p c late)
              (Settled-none_due now s
                (ap (count (is_due now)) same ∙ not_due_front now p c ordered late))
      ]

-- A worker that stays asleep has nothing to do: it is not stopped, and of a heap that is as when it
-- went to sleep no request is due.
pub asleep_none_due :
    (now : ℕ) (stop : Bool) (c : List PendingRequest)
    → IsHeap c
    → wakes (wake_time c) now stop c ≡ false
    → (stop ≡ false) × (count (is_due now) c ≡ 0)
unfolding wakes
asleep_none_due now stop [] ordered h = (h, refl)
asleep_none_due now stop (p ∷ c) ordered h =
    (ground (arith, h), not_due_front now p c ordered (ground (arith, h)))
