-- ===== src/Utils/CallbackConnection/Tests.antt =====
-- The theorems on callback connections at concrete ones.
use up_cpp.Common.{suc, ◌+◌, ◌≡◌, refl, true, false, none, some, [], ◌∷◌, arith, all_of}
use up_cpp.Common.Outcome.{ok}
use up_cpp.Utils.CallbackConnection.{
  Connections, CalleeHandle, callee_is_connected, caller_is_connected, call, callee_reset,
  callee_move_assign,
}
use up_cpp.Utils.CallbackConnection.Calls.{
  Phase, running, returned, Link, released, requested, severed, asleep, is_idle, expired, Step,
  enter, lock, finish, release, request, sever, Reach, here, next, notify, established,
}
use up_cpp.Utils.CallbackConnection.Silence.{severed_silences}
use up_cpp.Utils.CallbackConnection.LostWakeup.{wakeup_lost, exception_strands}
use up_cpp.Utils.CallbackConnection.Handles.{reset_severs, move_assign_forgets_cleanup, cleaned_of}

-- Two connections, each with one caller.
abbrev two : Connections
two = record {
  connection = λ n. record { sever_requested = false; callback = some (n + 10); owners = 1 };
  next = 2;
  cleaned = [];
}

abbrev first : CalleeHandle
first = record { connection = some 0; callback = true; cleanup = some 7 }

abbrev second : CalleeHandle
second = record { connection = some 1; callback = true; cleanup = none }

reset_severs_example :
    let (h', s') = callee_reset first two in
    (callee_is_connected h' s' ≡ false)
    × (caller_is_connected (some 0) s' ≡ false)
    × (call suc (some 0) s' ≡ ok none)
    × (s'.cleaned ≡ (7, 0) ∷ [])
    × ((callee_reset h' s').1.cleaned ≡ s'.cleaned)
reset_severs_example = reset_severs suc first 0 two refl refl (omega arith)

move_assign_forgets_cleanup_example :
    let (assigned, moved_from, s') = callee_move_assign first second two in
    (caller_is_connected (some 0) s' ≡ false)
    × ((s'.connection 0).sever_requested ≡ (two.connection 0).sever_requested)
    × (s'.cleaned ≡ [])
    × (cleaned_of 0 (callee_reset assigned s').1 ≡ 0)
    × (cleaned_of 0 (callee_reset moved_from s').1 ≡ 0)
    × (cleaned_of 0 (callee_reset first two).1 ≡ 1)
move_assign_forgets_cleanup_example =
    move_assign_forgets_cleanup first second 0 1 7 two refl refl refl (omega arith) refl
      (omega arith)

-- A call is in the callback when the callee resets its handle.
abbrev one_in : Link
one_in = record established { calls = running ∷ []; started = 1 }

alive : expired (record established { calls = Phase.entered ∷ [] }) ≡ false
unfolding expired
alive = refl

to_one_in : Reach established one_in
to_one_in =
    next (next here (enter established refl))
      (lock (record established { calls = Phase.entered ∷ [] }) [] [] refl alive)

abbrev let_go : Link
let_go = record one_in { held = false; stage = released }

abbrev asked : Link
asked = record let_go { sever_requested = true; stage = requested }

abbrev call_over : Link
call_over = record asked { calls = returned ∷ [] }

abbrev over : Link
over = record call_over { stage = severed }

abbrev left_behind : Link
left_behind = record over { calls = [] }

is_expired : expired call_over ≡ true
unfolding expired
is_expired = refl

still_expired : expired over ≡ true
unfolding expired
still_expired = refl

to_over : Reach established over
to_over =
    next
      (next (next (next to_one_in (release one_in refl)) (request let_go refl))
        (finish asked [] [] refl))
      (sever call_over refl is_expired)

after_over : Reach over left_behind
after_over = next here (notify over [] [] refl still_expired)

severed_silences_example :
    (over.sever_requested ≡ true)
    × (all_of is_idle left_behind.calls ≡ true)
    × (left_behind.started ≡ over.started)
severed_silences_example = severed_silences over left_behind to_over refl after_over

wakeup_lost_example :
    (m : Link) × Reach asked m × (m.stage ≡ asleep) × (expired m ≡ true) × ((k : Link) → ¬ Step m k)
wakeup_lost_example = wakeup_lost asked refl refl refl refl

abbrev sleeping : Link
sleeping = record asked { stage = asleep }

exception_strands_example :
    ((m : Link) × Step sleeping m
      × (m.stage ≡ asleep)
      × (expired m ≡ true)
      × ((k : Link) → ¬ Step m k))
    × ((m : Link) × Reach sleeping m × (m.stage ≡ severed) × (expired m ≡ true))
exception_strands_example = exception_strands sleeping refl refl refl refl
