-- ===== src/Builder/Payload/Moves.antt =====
-- A payload of src/datamodel/builder/Payload.cpp gives its data away once.
use up_cpp.Common.{ℕ, ◌≡◌, ◌↔◌, true, false, List, [], arith}
use up_cpp.Common.Int.{ℤ}
use up_cpp.Common.Outcome.{ok, throw}
use up_cpp.Proto.{Protobuf}
use up_cpp.Exception.{Result, payload_moved}
use up_cpp.Builder.Payload.{
  Payload, from_bytes, from_string, from_moved_string, from_serialized, from_serializer, build_copy,
  build_move, move_construct, move_assign,
}

abbrev pub gone : {A : Type 0} → Result A
gone = throw (payload_moved "Payload has been already moved")

-- A constructor with a format accepts just the formats of the enumeration. The payload that it
-- makes can be copied any number of times and moved out once, both giving the bytes and the format
-- that went in; after the move neither copying nor moving gives anything, and a second move leaves
-- the payload as it is.
pub move_once :
    (pb : Protobuf) (bytes : List ℕ) (format : ℤ) (p : Payload)
    → from_bytes pb bytes format ≡ ok p
    → let q = (build_move p).1 in
      (pb.payload_format_is_valid format ≡ true)
      × (build_copy p ≡ ok (bytes, format))
      × ((build_move p).0 ≡ ok (bytes, format))
      × (build_copy q ≡ gone)
      × (build_move q ≡ (gone, q))
unfolding from_bytes build_copy build_move
move_once pb bytes format p e =
    (ground arith, ground arith, ground arith, ground arith, ground arith)

-- The five constructors that take a format make the same payload and refuse the same formats.
pub constructors_agree :
    (pb : Protobuf) (bytes : List ℕ) (format : ℤ) (p : Payload)
    → ((from_bytes pb bytes format ≡ ok p) ↔ (from_string pb bytes format ≡ ok p))
      × ((from_string pb bytes format ≡ ok p) ↔ (from_moved_string pb bytes format ≡ ok p))
      × ((from_moved_string pb bytes format ≡ ok p) ↔ (from_serialized pb (bytes, format) ≡ ok p))
      × ((from_serialized pb (bytes, format) ≡ ok p) ↔ (from_serializer pb (bytes, format) ≡ ok p))
unfolding from_bytes from_string from_moved_string from_serialized from_serializer
constructors_agree pb bytes format p = ground arith

-- A payload that was moved into another by construction or assignment is not marked as moved: if it
-- still held its data, copying or moving it afterwards gives no bytes and throws nothing.
pub moved_from_unmarked :
    (self p : Payload)
    → p.moved ≡ false
    → let left = (move_construct p).1 in
      (build_copy left ≡ ok ([], p.payload.1))
      × ((build_move left).0 ≡ ok ([], p.payload.1))
      × ((move_assign self p).1 ≡ left)
      × (build_copy (move_construct p).0 ≡ ok p.payload)
      × ((move_assign self p).0 ≡ (move_construct p).0)
unfolding move_construct move_assign build_copy build_move
moved_from_unmarked self p h =
    (ground arith, ground arith, ground arith, ground arith, ground arith)
