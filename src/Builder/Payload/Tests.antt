-- ===== src/Builder/Payload/Tests.antt =====
-- The payload theorems at concrete payloads.
use up_cpp.Common.{◌≡◌, refl, [], ◌∷◌}
use up_cpp.Common.Int.{pos}
use up_cpp.Common.Outcome.{ok}
use up_cpp.Samples.{payload}
use up_cpp.Builder.Payload.{build_copy, build_move, move_construct, move_assign}
use up_cpp.Builder.Payload.Moves.{moved_from_unmarked}

moved_from_unmarked_example :
    (build_copy (move_construct payload).1 ≡ ok ([], pos 3))
    × ((build_move (move_construct payload).1).0 ≡ ok ([], pos 3))
    × ((move_assign payload payload).1 ≡ (move_construct payload).1)
    × (build_copy (move_construct payload).0 ≡ ok (1 ∷ 2 ∷ 3 ∷ [], pos 3))
    × ((move_assign payload payload).0 ≡ (move_construct payload).0)
moved_from_unmarked_example = moved_from_unmarked payload payload refl
