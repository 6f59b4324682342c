-- ===== src/Communication/RpcExpiry/Waking.antt =====
-- The worker's thread of src/communication/RpcClient.cpp with the threads that wake it: those that
-- enqueue or scrub, and the one that destroys the ExpireWorker, as steps between which any of them
-- may go on. The mutex is held over one step, except by the worker from its look at the queue until
-- it sleeps.
pub mod Slept
pub mod Shutdown
pub mod Tests
use up_cpp.Common.{ℕ, ◌≡◌, Bool, true, false, Option, none, some, List, []}
use up_cpp.Communication.RpcExpiry.{pop_expired, wakes, wake_time}
use up_cpp.Communication.RpcExpiry.Heap.{PendingRequest, HeapAlgorithms, keep}

-- Where the worker is: at the loop's test; behind its reading of the clock; with an expired request
-- in hand; before the wait; about to test the wait's predicate, for the time it waits for; behind a
-- test that failed; asleep; notified, without the mutex; and done.
pub data Stage : Type 0 where
  checking waiting done : Stage
  popping : ℕ → Stage
  expiring : PendingRequest → Stage
  looking quiet asleep roused : Option ℕ → Stage

-- Where the destructor is: not called, behind `stop_ = true`, behind the notification, and done.
pub data Destruction : Type 0 where
  alive stopping told joined : Destruction

pub record ExpireWorker : Type 0 where
  pub pending : List PendingRequest
  pub stop : Bool
  pub stage : Stage
  pub destruction : Destruction

-- Whether the worker leaves the mutex to others.
abbrev pub is_free : Stage → Bool
is_free (looking w) = false
is_free (quiet w) = false
is_free _ = true

-- `wake_worker_.notify_one()`
abbrev pub notified : Stage → Stage
notified (asleep w) = roused w
notified stage = stage

-- Behind the first critical section.
abbrev pub popped : Option PendingRequest → Stage
popped none = waiting
popped (some p) = expiring p

-- `spurious` is whether the worker may wake for no reason.
module _ (heap : HeapAlgorithms) (spurious : Bool) where
  pub data Step : ExpireWorker → ExpireWorker → Type 0 where
    go_on :
        (s : ExpireWorker) (now : ℕ)
        → s.stage ≡ checking
        → s.stop ≡ false
        → Step s (record s { stage = popping now })
    end :
        (s : ExpireWorker) → s.stage ≡ checking → s.stop ≡ true → Step s (record s { stage = done })
    pop :
        (s : ExpireWorker) (now : ℕ)
        → s.stage ≡ popping now
        → Step s (record s {
          pending = (pop_expired heap now s.pending).1;
          stage = popped (pop_expired heap now s.pending).0;
        })
    expire :
        (s : ExpireWorker) (p : PendingRequest)
        → s.stage ≡ expiring p
        → Step s (record s { stage = checking })
    lock :
        (s : ExpireWorker)
        → s.stage ≡ waiting
        → Step s (record s { stage = looking (wake_time s.pending) })
    stay_awake :
        (s : ExpireWorker) (w : Option ℕ) (now : ℕ)
        → s.stage ≡ looking w
        → wakes w now s.stop s.pending ≡ true
        → Step s (record s { stage = checking })
    calm_down :
        (s : ExpireWorker) (w : Option ℕ) (now : ℕ)
        → s.stage ≡ looking w
        → wakes w now s.stop s.pending ≡ false
        → Step s (record s { stage = quiet w })
    sleep :
        (s : ExpireWorker) (w : Option ℕ)
        → s.stage ≡ quiet w
        → Step s (record s { stage = asleep w })
    time_out :
        (s : ExpireWorker) (w : ℕ)
        → s.stage ≡ asleep (some w)
        → Step s (record s { stage = roused (some w) })
    wake :
        (s : ExpireWorker) (w : Option ℕ)
        → s.stage ≡ asleep w
        → spurious ≡ true
        → Step s (record s { stage = roused w })
    relock :
        (s : ExpireWorker) (w : Option ℕ)
        → s.stage ≡ roused w
        → Step s (record s { stage = looking w })
    enqueue :
        (s : ExpireWorker) (p : PendingRequest)
        → is_free s.stage ≡ true
        → Step s (record s { pending = heap.push s.pending p; stage = notified s.stage })
    scrub :
        (s : ExpireWorker) (instance_id : ℕ)
        → is_free s.stage ≡ true
        → Step s (record s { pending = keep instance_id s.pending; stage = notified s.stage })
    stop :
        (s : ExpireWorker)
        → s.destruction ≡ alive
        → Step s (record s { stop = true; destruction = stopping })
    tell :
        (s : ExpireWorker)
        → s.destruction ≡ stopping
        → is_free s.stage ≡ true
        → Step s (record s { stage = notified s.stage; destruction = told })
    join :
        (s : ExpireWorker)
        → s.destruction ≡ told
        → s.stage ≡ done
        → Step s (record s { destruction = joined })

  pub data Reach (s : ExpireWorker) : ExpireWorker → Type 0 where
    here : Reach s s
    next : {t u : ExpireWorker} → Reach s t → Step t u → Reach s u

-- The worker when its thread starts.
abbrev pub started : ExpireWorker
started = record { pending = []; stop = false; stage = checking; destruction = alive }
