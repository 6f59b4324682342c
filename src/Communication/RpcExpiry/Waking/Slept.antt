-- ===== src/Communication/RpcExpiry/Waking/Slept.antt =====
-- The sleep of the worker in src/communication/RpcClient.cpp.
use up_cpp.Common.{
  count, ◌<◌, ℕ, ◌≡◌, ◌⊎◌, refl, sym, ◌∙◌, ap, inl, inr, Bool, true, false, Option, none, some,
  List, [], ◌∷◌, arith,
}
use up_cpp.Communication.RpcExpiry.{pop_expired, wakes, wake_time}
use up_cpp.Communication.RpcExpiry.Heap.{PendingRequest, HeapAlgorithms, IsHeap}
use up_cpp.Communication.RpcExpiry.Worker.{is_due, not_due_front}
use up_cpp.Communication.RpcExpiry.Waking.{
  Stage, ExpireWorker, checking, waiting, done, popping, expiring, looking, quiet, asleep, roused,
  stopping, is_free, notified, popped, Step, Reach, here, next, started, go_on, end, pop, expire,
  lock, stay_awake, calm_down, sleep, time_out, wake, relock, enqueue, scrub, stop, tell, join,
}

-- Asleep until a time, or about to be.
abbrev pub Sleeps : Stage → Option ℕ → Type 0
Sleeps stage w = (stage ≡ quiet w) ⊎ (stage ≡ asleep w)

abbrev pub rests : Stage → Bool
rests (quiet w) = true
rests (asleep w) = true
rests _ = false

Sleeps-rests : (stage : Stage) (w : Option ℕ) → Sleeps stage w → rests stage ≡ true
Sleeps-rests stage w (inl e) = ap rests e
Sleeps-rests stage w (inr e) = ap rests e

pub restless : (stage : Stage) → is_free stage ≡ true → rests (notified stage) ≡ false
restless checking free = refl
restless waiting free = refl
restless done free = refl
restless (popping now) free = refl
restless (expiring p) free = refl
restless (asleep w) free = refl
restless (roused w) free = refl
restless (looking w) free = absurd (cc free)
restless (quiet w) free = absurd (cc free)

popped_awake : (o : Option PendingRequest) → rests (popped o) ≡ false
popped_awake none = refl
popped_awake (some p) = refl

pub not_asleep : (stage : Stage) (w : Option ℕ) → rests stage ≡ false → ¬ Sleeps stage w
not_asleep stage w awake q = cc (awake, Sleeps-rests stage w q)

-- A predicate that fails has seen the queue as it was when the wait began, and no stop.
calm_facts :
    (w : Option ℕ) (now : ℕ) (on : Bool) (c : List PendingRequest)
    → wakes w now on c ≡ false
    → (w ≡ wake_time c) × (on ≡ false)
unfolding wakes
calm_facts none now on [] e = (refl, e)
calm_facts none now on (p ∷ c) e = absurd (cc e)
calm_facts (some w) now on [] e = absurd (cc e)
calm_facts (some w) now on (p ∷ c) e = (ground (arith, e), ground (arith, e))

same_time : (v w : Option ℕ) → quiet v ≡ quiet w → v ≡ w
same_time v w e = cc e

-- What a worker that sleeps has seen.
abbrev pub HasSeenAll : ExpireWorker → Type 0
HasSeenAll s =
    (w : Option ℕ)
    → Sleeps s.stage w
    → (w ≡ wake_time s.pending) × (s.stop ≡ true → s.destruction ≡ stopping)

-- Before the time that a sleep is until.
abbrev pub IsBefore : Option ℕ → ℕ → Type 0
IsBefore none now = Unit
IsBefore (some time) now = now < time

first_not_due :
    (w : Option ℕ) (now : ℕ) (c : List PendingRequest)
    → IsHeap c
    → w ≡ wake_time c
    → IsBefore w now
    → count (is_due now) c ≡ 0
first_not_due w now [] ordered e early = refl
first_not_due none now (p ∷ c) ordered e early = absurd (cc e)
first_not_due (some time) now (p ∷ c) ordered e early =
    not_due_front now p c ordered (ground (arith, e, early))

module _ (heap : HeapAlgorithms) (spurious : Bool) where
  pub step-HasSeenAll : (s t : ExpireWorker) → Step heap spurious s t → HasSeenAll s → HasSeenAll t
  step-HasSeenAll s t (go_on _ now e running) h w q = absurd (not_asleep _ w refl q)
  step-HasSeenAll s t (end _ e stopped) h w q = absurd (not_asleep _ w refl q)
  step-HasSeenAll s t (pop _ now e) h w q =
      absurd (not_asleep _ w (popped_awake (pop_expired heap now s.pending).0) q)
  step-HasSeenAll s t (expire _ p e) h w q = absurd (not_asleep _ w refl q)
  step-HasSeenAll s t (lock _ e) h w q = absurd (not_asleep _ w refl q)
  step-HasSeenAll s t (stay_awake _ v now e awake) h w q = absurd (not_asleep _ w refl q)
  step-HasSeenAll s t (calm_down _ v now e calm) h w (inl q) =
      let (same, running) = calm_facts v now s.stop s.pending calm in
      (sym (same_time v w q) ∙ same, λ stopped. absurd (cc (running, stopped)))
  step-HasSeenAll s t (calm_down _ v now e calm) h w (inr q) = cc q
  step-HasSeenAll s t (sleep _ v e) h w (inl q) = cc q
  step-HasSeenAll s t (sleep _ v e) h w (inr q) = h w (inl cc)
  step-HasSeenAll s t (time_out _ v e) h w q = absurd (not_asleep _ w refl q)
  step-HasSeenAll s t (wake _ v e _) h w q = absurd (not_asleep _ w refl q)
  step-HasSeenAll s t (relock _ v e) h w q = absurd (not_asleep _ w refl q)
  step-HasSeenAll s t (enqueue _ p free) h w q = absurd (not_asleep _ w (restless s.stage free) q)
  step-HasSeenAll s t (scrub _ i free) h w q = absurd (not_asleep _ w (restless s.stage free) q)
  step-HasSeenAll s t (stop _ e) h w q = ((h w q).0, λ stopped. refl)
  step-HasSeenAll s t (tell _ e free) h w q = absurd (not_asleep _ w (restless s.stage free) q)
  step-HasSeenAll s t (join _ e ended) h w q = absurd (not_asleep s.stage w (ap rests ended) q)

  pub reach-HasSeenAll : (s : ExpireWorker) → Reach heap spurious started s → HasSeenAll s
  reach-HasSeenAll s here = λ w q. absurd (not_asleep checking w refl q)
  reach-HasSeenAll s (next {t} run step) = step-HasSeenAll t s step (reach-HasSeenAll t run)

  -- The sleep of the worker misses nothing: in every run, while the worker sleeps and the queue is
  -- a heap, no request is due before the time that it sleeps until, or ever if it sleeps without a
  -- limit; and if `stop_` is set, the destructor's notification is still to come.
  pub sleep_misses_nothing :
      (s : ExpireWorker) (w : Option ℕ)
      → Reach heap spurious started s
      → s.stage ≡ asleep w
      → IsHeap s.pending
      → ((now : ℕ) → IsBefore w now → count (is_due now) s.pending ≡ 0)
        × (s.stop ≡ true → s.destruction ≡ stopping)
  sleep_misses_nothing s w run e ordered =
      let (first, still_to_come) = reach-HasSeenAll s run w (inr e) in
      (λ now early. first_not_due w now s.pending ordered first early, still_to_come)
