-- ===== src/Communication/RpcExpiry/Waking/Shutdown.antt =====
-- The destructor of the ExpireWorker of src/communication/RpcClient.cpp.
use up_cpp.Common.{
  ℕ, zero, ◌≡◌, ◌≢◌, refl, ap, inl, inr, true, false, Option, none, some, List, [], ◌∷◌,
}
use up_cpp.Communication.RpcExpiry.{pop_expired, wakes, wake_time}
use up_cpp.Communication.RpcExpiry.Heap.{PendingRequest, HeapAlgorithms}
use up_cpp.Communication.RpcExpiry.Waking.{
  Stage, Destruction, ExpireWorker, checking, waiting, done, popping, expiring, looking, quiet,
  asleep, roused, alive, stopping, told, joined, is_free, notified, popped, Step, Reach, here, next,
  started, go_on, end, pop, expire, lock, stay_awake, calm_down, sleep, time_out, wake, relock,
  enqueue, scrub, stop, tell, join,
}
use up_cpp.Communication.RpcExpiry.Waking.Slept.{HasSeenAll, rests, restless, reach-HasSeenAll}

wakes_stopped : (w : Option ℕ) (now : ℕ) (c : List PendingRequest) → wakes w now true c ≡ true
unfolding wakes
wakes_stopped none now [] = refl
wakes_stopped none now (p ∷ c) = refl
wakes_stopped (some w) now [] = refl
wakes_stopped (some w) now (p ∷ c) = refl

-- Once the destructor is called, `stop_` is set.
abbrev IsStopped : ExpireWorker → Type 0
IsStopped s = s.destruction ≢ alive → s.stop ≡ true

module _ (heap : HeapAlgorithms) where
  step-IsStopped : (s t : ExpireWorker) → Step heap true s t → IsStopped s → IsStopped t
  step-IsStopped s t (go_on _ now e running) h = h
  step-IsStopped s t (end _ e stopped) h = h
  step-IsStopped s t (pop _ now e) h = h
  step-IsStopped s t (expire _ p e) h = h
  step-IsStopped s t (lock _ e) h = h
  step-IsStopped s t (stay_awake _ v now e awake) h = h
  step-IsStopped s t (calm_down _ v now e calm) h = h
  step-IsStopped s t (sleep _ v e) h = h
  step-IsStopped s t (time_out _ v e) h = h
  step-IsStopped s t (wake _ v e _) h = h
  step-IsStopped s t (relock _ v e) h = h
  step-IsStopped s t (enqueue _ p free) h = h
  step-IsStopped s t (scrub _ i free) h = h
  step-IsStopped s t (stop _ e) h = λ called. refl
  step-IsStopped s t (tell _ e free) h = λ called. h (λ a. absurd (cc (a, e)))
  step-IsStopped s t (join _ e ended) h = λ called. h (λ a. absurd (cc (a, e)))

  reach-IsStopped : (s : ExpireWorker) → Reach heap true started s → IsStopped s
  reach-IsStopped s here = λ called. absurd (called refl)
  reach-IsStopped s (next {t} run step) = step-IsStopped t s step (reach-IsStopped t run)

  after_step :
      (s t u : ExpireWorker) → Step heap false s t → Reach heap false t u → Reach heap false s u
  after_step s t u step here = next here step
  after_step s t u step (next {t = v} run last) = next (after_step s t v step run) last

  -- The destructor can return, without a spurious wakeup.
  abbrev Ends : ExpireWorker → Type 0
  Ends s = (t : ExpireWorker) × Reach heap false s t × (t.destruction ≡ joined)

  Ends-step : (s t : ExpireWorker) → Step heap false s t → Ends t → Ends s
  Ends-step s t step (u, run, ended) = (u, after_step s t u step run, ended)

  at_done : (s : ExpireWorker) → s.destruction ≡ told → s.stage ≡ done → Ends s
  at_done s d e = (record s { destruction = joined }, next here (join s d e), refl)

  at_checking :
      (s : ExpireWorker) → s.stop ≡ true → s.destruction ≡ told → s.stage ≡ checking → Ends s
  at_checking s on d e =
      let t : ExpireWorker = record s { stage = done } in
      Ends-step s t (end s e on) (at_done t d refl)

  at_looking :
      (s : ExpireWorker) (w : Option ℕ)
      → s.stop ≡ true
      → s.destruction ≡ told
      → s.stage ≡ looking w
      → Ends s
  at_looking s w on d e =
      let t : ExpireWorker = record s { stage = checking } in
      Ends-step s t (stay_awake s w zero e (rw on (wakes_stopped w zero s.pending)))
        (at_checking t on d refl)

  at_waiting :
      (s : ExpireWorker) → s.stop ≡ true → s.destruction ≡ told → s.stage ≡ waiting → Ends s
  at_waiting s on d e =
      let t : ExpireWorker = record s { stage = looking (wake_time s.pending) } in
      Ends-step s t (lock s e) (at_looking t _ on d refl)

  at_expiring :
      (s : ExpireWorker) (p : PendingRequest)
      → s.stop ≡ true
      → s.destruction ≡ told
      → s.stage ≡ expiring p
      → Ends s
  at_expiring s p on d e =
      let t : ExpireWorker = record s { stage = checking } in
      Ends-step s t (expire s p e) (at_checking t on d refl)

  at_popped :
      (s : ExpireWorker) (o : Option PendingRequest)
      → s.stop ≡ true
      → s.destruction ≡ told
      → s.stage ≡ popped o
      → Ends s
  at_popped s none on d e = at_waiting s on d e
  at_popped s (some p) on d e = at_expiring s p on d e

  -- Once the worker is notified of the stop.
  at_told :
      (s : ExpireWorker) (stage : Stage)
      → s.stop ≡ true
      → s.destruction ≡ told
      → s.stage ≡ stage
      → rests stage ≡ false
      → Ends s
  at_told s checking on d e awake = at_checking s on d e
  at_told s waiting on d e awake = at_waiting s on d e
  at_told s done on d e awake = at_done s d e
  at_told s (popping now) on d e awake =
      let o : Option PendingRequest = (pop_expired heap now s.pending).0 in
      let t : ExpireWorker = record s {
        pending = (pop_expired heap now s.pending).1;
        stage = popped o;
      } in
      Ends-step s t (pop s now e) (at_popped t o on d refl)
  at_told s (expiring p) on d e awake = at_expiring s p on d e
  at_told s (looking w) on d e awake = at_looking s w on d e
  at_told s (roused w) on d e awake =
      let t : ExpireWorker = record s { stage = looking w } in
      Ends-step s t (relock s w e) (at_looking t w on d refl)
  at_told s (quiet w) on d e awake = absurd (cc awake)
  at_told s (asleep w) on d e awake = absurd (cc awake)

  telling :
      (s : ExpireWorker)
      → s.stop ≡ true
      → s.destruction ≡ stopping
      → is_free s.stage ≡ true
      → Ends s
  telling s on d free =
      let t : ExpireWorker = record s { stage = notified s.stage; destruction = told } in
      Ends-step s t (tell s d free)
        (at_told t (notified s.stage) on refl refl (restless s.stage free))

  -- Once `stop_` is set.
  at_stopping :
      (s : ExpireWorker) (stage : Stage)
      → s.stop ≡ true
      → s.destruction ≡ stopping
      → s.stage ≡ stage
      → Ends s
  at_stopping s (looking w) on d e =
      let t : ExpireWorker = record s { stage = checking } in
      Ends-step s t (stay_awake s w zero e (rw on (wakes_stopped w zero s.pending)))
        (telling t on d refl)
  at_stopping s (quiet w) on d e =
      let t : ExpireWorker = record s { stage = asleep w } in
      Ends-step s t (sleep s w e) (telling t on d refl)
  at_stopping s checking on d e = telling s on d (ap is_free e)
  at_stopping s waiting on d e = telling s on d (ap is_free e)
  at_stopping s done on d e = telling s on d (ap is_free e)
  at_stopping s (popping now) on d e = telling s on d (ap is_free e)
  at_stopping s (expiring p) on d e = telling s on d (ap is_free e)
  at_stopping s (asleep w) on d e = telling s on d (ap is_free e)
  at_stopping s (roused w) on d e = telling s on d (ap is_free e)

  told_awake :
      (s : ExpireWorker) (stage : Stage)
      → HasSeenAll s
      → s.stop ≡ true
      → s.destruction ≡ told
      → s.stage ≡ stage
      → rests stage ≡ false
  told_awake s (quiet w) seen on d e = absurd (cc (d, (seen w (inl e)).1 on))
  told_awake s (asleep w) seen on d e = absurd (cc (d, (seen w (inr e)).1 on))
  told_awake s checking seen on d e = refl
  told_awake s waiting seen on d e = refl
  told_awake s done seen on d e = refl
  told_awake s (popping now) seen on d e = refl
  told_awake s (expiring p) seen on d e = refl
  told_awake s (looking w) seen on d e = refl
  told_awake s (roused w) seen on d e = refl

  once_called :
      (s : ExpireWorker) (destruction : Destruction)
      → HasSeenAll s
      → s.stop ≡ true
      → s.destruction ≡ destruction
      → destruction ≢ alive
      → Ends s
  once_called s alive seen on d called = absurd (called refl)
  once_called s stopping seen on d called = at_stopping s s.stage on d refl
  once_called s told seen on d called =
      at_told s s.stage on d refl (told_awake s s.stage seen on d refl)
  once_called s joined seen on d called = (s, here, d)

  -- The destructor is never stuck: in every run, with spurious wakeups or without, once the
  -- destructor is called, wherever the worker is by then, steps without a spurious wakeup lead to
  -- the worker's end and the destructor's.
  pub shutdown_ends :
      (s : ExpireWorker)
      → Reach heap true started s
      → s.destruction ≢ alive
      → (t : ExpireWorker) × Reach heap false s t × (t.destruction ≡ joined)
  shutdown_ends s run called =
      once_called s s.destruction (reach-HasSeenAll heap true s run) (reach-IsStopped s run called)
        refl called
