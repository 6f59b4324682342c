-- ===== src/Serializer/Bytes.antt =====
-- `AsBytes` of src/datamodel/serializer/Uuid.cpp. `htonl` and `memcpy` of a uint32 write its bytes
-- from the highest down, whatever the order of the host.
use up_cpp.Common.{
  ℕ, ◌+◌, ◌*◌, ◌/◌, ◌%◌, ◌^◌, ◌<◌, ◌≡◌, refl, ◌∙◌, List, [], ◌∷◌, ◌++◌, arith, bit_or,
}
use up_cpp.Common.Bits.{bit_or_disjoint}
use up_cpp.Common.Outcome.{ok, throw}
use up_cpp.Proto.{Uuid}
use up_cpp.Exception.{Result, invalid_argument}
use up_cpp.UuidConstants.{len_uint64_in_bit}

unfoldable pub network_bytes : ℕ → List ℕ
network_bytes x = x / 2 ^ 24 % 256 ∷ x / 2 ^ 16 % 256 ∷ x / 2 ^ 8 % 256 ∷ x % 256 ∷ []

unfoldable pub host_long : (a b c d : ℕ) → ℕ
host_long a b c d = a * 2 ^ 24 + b * 2 ^ 16 + c * 2 ^ 8 + d

unfoldable pub serialize : Uuid → List ℕ
serialize uuid =
    network_bytes (uuid.msb / 2 ^ (len_uint64_in_bit / 2) % 2 ^ 32)
    ++ network_bytes (uuid.msb % 2 ^ 32)
    ++ network_bytes (uuid.lsb / 2 ^ (len_uint64_in_bit / 2) % 2 ^ 32)
    ++ network_bytes (uuid.lsb % 2 ^ 32)

-- A shift left of a uint64 that an `|` joins to a uint32.
unfoldable pub join : ℕ → ℕ → ℕ
join high low = bit_or (high * 2 ^ (len_uint64_in_bit / 2) % 2 ^ 64) low

unfoldable pub deserialize : List ℕ → Result Uuid
deserialize (a0 ∷ a1 ∷ a2 ∷ a3 ∷ b0 ∷ b1 ∷ b2 ∷ b3 ∷ c0 ∷ c1 ∷ c2 ∷ c3 ∷ d0 ∷ d1 ∷ d2 ∷ d3 ∷ []) =
    ok (record {
      msb = join (host_long a0 a1 a2 a3) (host_long b0 b1 b2 b3);
      lsb = join (host_long c0 c1 c2 c3) (host_long d0 d1 d2 d3);
    })
deserialize _ = throw (invalid_argument "Invalid UUID byte array size")

host_network :
    (x : ℕ)
    → x < 2 ^ 32
    → host_long (x / 2 ^ 24 % 256) (x / 2 ^ 16 % 256) (x / 2 ^ 8 % 256) (x % 256) ≡ x
unfolding host_long
host_network x h = omega (arith, h)

join_split : (x : ℕ) → x < 2 ^ 64 → join (x / 2 ^ 32 % 2 ^ 32) (x % 2 ^ 32) ≡ x
unfolding join
join_split x h =
    let small : x / 2 ^ 32 % 2 ^ 32 ≡ x / 2 ^ 32 = omega (arith, h) in
    let shifted : x / 2 ^ 32 * 2 ^ 32 % 2 ^ 64 ≡ x / 2 ^ 32 * 2 ^ 32 = omega (arith, h) in
    rw (small, shifted) (bit_or_disjoint 32 (x / 2 ^ 32) (x % 2 ^ 32) (omega arith) ∙ omega arith)

-- Reading what was written gives the UUID back, for any two 64-bit fields.
pub bytes_round_trip :
    (u : Uuid) → u.msb < 2 ^ 64 → u.lsb < 2 ^ 64 → deserialize (serialize u) ≡ ok u
unfolding deserialize serialize network_bytes
bytes_round_trip u h k =
    rw
      (
        host_network (u.msb / 2 ^ 32 % 2 ^ 32) (omega arith),
        host_network (u.msb % 2 ^ 32) (omega arith),
        host_network (u.lsb / 2 ^ 32 % 2 ^ 32) (omega arith),
        host_network (u.lsb % 2 ^ 32) (omega arith),
        join_split u.msb h,
        join_split u.lsb k,
      )
      refl
