-- ===== src/Communication/RpcExpiry/Waking/Tests.antt =====
-- The sleep of the worker, at a run in which it waits for one request when the destructor comes.
use up_cpp.Common.{count, ◌<◌, ℕ, ◌≡◌, refl, true, false, some, [], ◌∷◌}
use up_cpp.Communication.RpcExpiry.{pop_expired, wakes}
use up_cpp.Communication.RpcExpiry.Heap.{PendingRequest}
use up_cpp.Communication.RpcExpiry.SortedQueue.{sorted_queue, sort-IsHeap}
use up_cpp.Communication.RpcExpiry.Worker.{is_due}
use up_cpp.Communication.RpcExpiry.Waking.{
  Stage, ExpireWorker, alive, checking, waiting, popping, looking, quiet, asleep, stopping, joined,
  Reach, here, next, started, go_on, pop, lock, calm_down, sleep, enqueue, stop,
}
use up_cpp.Communication.RpcExpiry.Waking.Slept.{sleep_misses_nothing}
use up_cpp.Communication.RpcExpiry.Waking.Shutdown.{shutdown_ends}

abbrev waited_for : PendingRequest
waited_for = record { when_expire = 5; response_listener = 1; expire = 0; instance_id = 2 }

abbrev at_stage : Stage → ExpireWorker
at_stage stage = record {
  pending = waited_for ∷ [];
  stop = false;
  stage = stage;
  destruction = alive;
}

falls_asleep : Reach sorted_queue true started (at_stage (asleep (some 5)))
unfolding pop_expired wakes
falls_asleep =
    next
      (next
        (next
          (next
            (next (next here (enqueue started waited_for refl))
              (go_on (at_stage checking) 3 refl refl))
            (pop (at_stage (popping 3)) 3 refl))
          (lock (at_stage waiting) refl))
        (calm_down (at_stage (looking (some 5))) (some 5) 4 refl refl))
      (sleep (at_stage (quiet (some 5))) (some 5) refl)

sleep_misses_nothing_example :
    ((now : ℕ) → now < 5 → count (is_due now) (waited_for ∷ []) ≡ 0)
    × (false ≡ true → alive ≡ stopping)
sleep_misses_nothing_example =
    sleep_misses_nothing sorted_queue true (at_stage (asleep (some 5))) (some 5) falls_asleep refl
      (sort-IsHeap (waited_for ∷ []))

-- The destructor comes while the worker sleeps.
abbrev stopped : ExpireWorker
stopped = record (at_stage (asleep (some 5))) { stop = true; destruction = stopping }

shutdown_ends_example :
    (t : ExpireWorker) × Reach sorted_queue false stopped t × (t.destruction ≡ joined)
shutdown_ends_example =
    shutdown_ends sorted_queue stopped (next falls_asleep (stop (at_stage (asleep (some 5))) refl))
      (λ e. cc e)
