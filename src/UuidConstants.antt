-- ===== src/UuidConstants.antt =====
-- include/up-cpp/datamodel/constants/UuidConstants.h, as far as the program uses it. A mask of `k`
-- low bits is written `% 2 ^ k` where it is applied, so only the widths are named here.
use up_cpp.Common.{ℕ, ◌*◌}

abbrev pub uuid_timestamp_bits : ℕ
uuid_timestamp_bits = 48

abbrev pub uuid_timestamp_shift : ℕ
uuid_timestamp_shift = 16

abbrev pub uuid_version_bits : ℕ
uuid_version_bits = 4

abbrev pub uuid_version_shift : ℕ
uuid_version_shift = 12

abbrev pub uuid_variant_bits : ℕ
uuid_variant_bits = 2

abbrev pub uuid_variant_shift : ℕ
uuid_variant_shift = 62

abbrev pub uuid_random_a_bits : ℕ
uuid_random_a_bits = 12

abbrev pub uuid_random_b_bits : ℕ
uuid_random_b_bits = 62

abbrev pub uuid_version_7 : ℕ
uuid_version_7 = 7

abbrev pub uuid_variant_rfc4122 : ℕ
uuid_variant_rfc4122 = 2

abbrev pub uuid_byte_size : ℕ
uuid_byte_size = 16

abbrev pub len_uint64_in_bit : ℕ
len_uint64_in_bit = 8 * 8
