-- ===== src/Communication/RpcExpiry/Tests.antt =====
-- The theorems on waiting requests at concrete runs.
use up_cpp.Utils.Expected.{expected, unexpected}
use up_cpp.Common.{
  Bool, replicate, ℕ, ◌≤◌, ◌<◌, ◌≡◌, refl, true, false, none, some, List, [], ◌∷◌, ◌++◌, arith,
}
use up_cpp.Samples.{pb, id, publication}
use up_cpp.Communication.RpcExpiry.{
  MessageOrStatus, RpcRequest, RpcState, begin_request, disconnect, expire, expire_reason, enqueue,
  pop_expired, do_work, wakes, call_once, take_off,
}
use up_cpp.Communication.RpcExpiry.Heap.{PendingRequest, IsHeap, keep}
use up_cpp.Communication.RpcExpiry.SortedQueue.{sorted_queue, sort-IsHeap}
use up_cpp.Communication.RpcExpiry.Worker.{Settled, do_work-Settled}
use up_cpp.Communication.RpcExpiry.Steps.{
  System, begin, queue, take, settle, Reach, here, next, initial, mark,
}
use up_cpp.Communication.RpcExpiry.Once.{times, called_at_most_once}
use up_cpp.Communication.RpcExpiry.Answered.{claims, UsesHeaps, answered_once}
use up_cpp.Communication.RpcExpiry.Throwing.{call_once_raising, thrown_called_again}
use up_cpp.Communication.RpcExpiry.Scrub.{scrub_delays}

abbrev pending_at : ℕ → ℕ → ℕ → PendingRequest
pending_at when n instance_id = record {
  when_expire = when;
  response_listener = n;
  expire = n;
  instance_id = instance_id;
}

-- A request is made, queued, taken off the queue once it has expired, and expired.
abbrev begun : System
begun = record initial {
  state = begin_request 0 id initial.state;
  in_flight = mark 0 true initial.in_flight;
}

abbrev queued : System
queued = record begun {
  state = enqueue sorted_queue (pending_at 5 0 1) begun.state;
  in_flight = mark 0 false begun.in_flight;
}

abbrev popped : System
popped = record queued {
  state = take_off (pending_at 5 0 1) [] queued.state;
  owed = queued.owed ++ (0, expire_reason) ∷ [];
}

abbrev settled : System
settled = record popped { state = expire 0 expire_reason popped.state; owed = [] }

abbrev to_queued : Reach pb sorted_queue initial queued
to_queued = next (next here (begin initial 0 id refl)) (queue begun (pending_at 5 0 1) refl)

popped_one : pop_expired sorted_queue 7 queued.state.pending ≡ (some (pending_at 5 0 1), [])
unfolding pop_expired enqueue begin_request
popped_one = refl

abbrev to_popped : Reach pb sorted_queue initial popped
to_popped = next to_queued (take queued 7 (pending_at 5 0 1) [] popped_one)

abbrev to_settled : Reach pb sorted_queue initial settled
to_settled = next to_popped (settle popped [] [] 0 expire_reason refl)

called_at_most_once_example :
    (times 0 settled.state.delivered ≤ 1)
    × ((r : RpcRequest)
        → settled.state.request 0 ≡ some r
        → 0 < times 0 settled.state.delivered
        → r.called ≡ true)
called_at_most_once_example = called_at_most_once pb sorted_queue settled 0 to_settled

abbrev called_request : RpcRequest
called_request = record { called = true; connected = true; reqid = id }

called_found : settled.state.request 0 ≡ some called_request
unfolding expire call_once enqueue begin_request
called_found = refl

nothing_waits : claims 0 settled ≡ 0
unfolding expire call_once enqueue begin_request
nothing_waits = refl

to_heaps : UsesHeaps pb sorted_queue initial settled to_settled
unfolding enqueue begin_request
to_heaps = ((((tt, tt), sort-IsHeap []), sort-IsHeap (pending_at 5 0 1 ∷ [])), tt)

answered_once_example : (true ≡ true) × (true ≡ true → times 0 settled.state.delivered ≡ 1)
answered_once_example =
    answered_once pb sorted_queue settled 0 called_request to_settled to_heaps called_found refl
      refl nothing_waits

-- The caller drops its handle before the request expires.
abbrev dropped : System
dropped = record queued {
  state = disconnect 0 (record called_request { called = false }) queued.state;
}

abbrev dropped_popped : System
dropped_popped = record dropped {
  state = take_off (pending_at 5 0 1) [] dropped.state;
  owed = dropped.owed ++ (0, expire_reason) ∷ [];
}

abbrev dropped_settled : System
dropped_settled = record dropped_popped {
  state = expire 0 expire_reason dropped_popped.state;
  owed = [];
}

-- Three requests, of which two have expired at 7.
abbrev three : List PendingRequest
three = pending_at 3 0 1 ∷ pending_at 5 1 2 ∷ pending_at 9 2 1 ∷ []

abbrev waiting : RpcState
waiting = record {
  request = λ n. some (record { called = false; connected = true; reqid = id });
  pending = three;
  stop = false;
  delivered = [];
  dropped = [];
}

do_work-Settled_example : Settled 7 waiting (do_work sorted_queue (replicate 3 7) waiting)
do_work-Settled_example =
    do_work-Settled sorted_queue 3 7 waiting three refl refl (sort-IsHeap three) (omega arith)

scrub_delays_example :
    IsHeap (pending_at 3 0 1 ∷ pending_at 9 1 2 ∷ pending_at 5 2 2 ∷ [])
    × (keep 1 (pending_at 3 0 1 ∷ pending_at 9 1 2 ∷ pending_at 5 2 2 ∷ [])
        ≡ pending_at 9 1 2 ∷ pending_at 5 2 2 ∷ [])
    × (pop_expired sorted_queue 7
          (keep 1 (pending_at 3 0 1 ∷ pending_at 9 1 2 ∷ pending_at 5 2 2 ∷ []))
        ≡ (none, pending_at 9 1 2 ∷ pending_at 5 2 2 ∷ []))
    × (wakes (some 9) 7 false (keep 1 (pending_at 3 0 1 ∷ pending_at 9 1 2 ∷ pending_at 5 2 2 ∷ []))
        ≡ false)
scrub_delays_example =
    scrub_delays sorted_queue 1 7 (pending_at 3 0 1) (pending_at 9 1 2) (pending_at 5 2 2) refl
      (omega arith) (omega arith) (omega arith) (omega arith) (omega arith)

-- The callback of request 0 throws at every message, and returns at every status.
abbrev raises : ℕ → MessageOrStatus → Bool
raises n (expected m) = true
raises n (unexpected status) = false

thrown_called_again_example :
    let (threw, s1) = call_once_raising raises 0 (expected publication) begun.state in
    let (threw', s2) = call_once_raising raises 0 (unexpected expire_reason) s1 in
    (threw ≡ true)
    × (threw' ≡ false)
    × (s2.delivered ≡ ([] ++ (0, expected publication) ∷ []) ++ (0, unexpected expire_reason) ∷ [])
    × (s2.request 0 ≡ some (record { called = true; connected = true; reqid = id }))
unfolding begin_request
thrown_called_again_example =
    thrown_called_again raises 0 (expected publication) (unexpected expire_reason) begun.state
      (record { called = false; connected = true; reqid = id }) refl refl refl refl refl
