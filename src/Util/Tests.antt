-- ===== src/Util/Tests.antt =====
-- The theorems about util/base.go at concrete inputs.
use ofgp_core.Base.{◌≡◌, refl, some, ltb, arith, ◌∷◌, [], ℕ_eq}
use ofgp_core.Util.Codec.{
  negsuc, u64_to_bytes, i64_to_bytes, bytes_to_i64, bytes_to_i64-i64_to_bytes,
}
use ofgp_core.Util.Order.{bytes_ltb, bytes_ltb-u64_to_bytes}

minus_two : i64_to_bytes (negsuc 1) ≡ 255 ∷ 255 ∷ 255 ∷ 255 ∷ 255 ∷ 255 ∷ 255 ∷ 254 ∷ []
unfolding i64_to_bytes
minus_two = refl

bytes_to_i64-i64_to_bytes_example : bytes_to_i64 (i64_to_bytes (negsuc 1)) ≡ some (negsuc 1)
bytes_to_i64-i64_to_bytes_example = bytes_to_i64-i64_to_bytes (negsuc 1) (omega arith)

bytes_ltb-u64_to_bytes_example : bytes_ltb (u64_to_bytes 255) (u64_to_bytes 256) ≡ ltb 255 256
bytes_ltb-u64_to_bytes_example = bytes_ltb-u64_to_bytes 255 256 (omega arith) (omega arith)
