-- ===== src/Util/Codec.antt =====
-- util/base.go: the bytes of a 64-bit integer, the most significant first, and back.
use ofgp_core.Base.{
  ltb, if◌then◌else◌, ℕ, ◌+◌, ◌-◌, ◌*◌, ◌/◌, ◌%◌, ◌^◌, ◌<◌, ◌≡◌, refl, Option, none, some, List, [],
  ◌∷◌, arith, ◌>>=◌,
}

-- Integers over the native numbers.
pub data ℤ : Type 0 where
  pos negsuc : ℕ → ℤ

unfoldable pub u64_to_bytes : ℕ → List ℕ
u64_to_bytes v =
    let v₁ = v / 256 in
    let v₂ = v₁ / 256 in
    let v₃ = v₂ / 256 in
    let v₄ = v₃ / 256 in
    let v₅ = v₄ / 256 in
    let v₆ = v₅ / 256 in
    let v₇ = v₆ / 256 in
    v₇ % 256 ∷ v₆ % 256 ∷ v₅ % 256 ∷ v₄ % 256 ∷ v₃ % 256 ∷ v₂ % 256 ∷ v₁ % 256 ∷ v % 256 ∷ []

-- `v <<= 8; v += uint64(b)`.
unfoldable pub push_byte : ℕ → ℕ → ℕ
push_byte v b = (v * 256 % 2 ^ 64 + b) % 2 ^ 64

-- `none` is the error for another length than 8.
unfoldable pub bytes_to_u64 : List ℕ → Option ℕ
unfolding push_byte
bytes_to_u64 (b₀ ∷ b₁ ∷ b₂ ∷ b₃ ∷ b₄ ∷ b₅ ∷ b₆ ∷ b₇ ∷ []) =
    let v₁ = push_byte b₀ b₁ in
    let v₂ = push_byte v₁ b₂ in
    let v₃ = push_byte v₂ b₃ in
    let v₄ = push_byte v₃ b₄ in
    let v₅ = push_byte v₄ b₅ in let v₆ = push_byte v₅ b₆ in some (push_byte v₆ b₇)
bytes_to_u64 bytes = none

-- The conversion of an int64, whose bits stay.
unfoldable pub to_u64 : ℤ → ℕ
to_u64 (pos n) = n % 2 ^ 64
to_u64 (negsuc n) = 2 ^ 64 - 1 - n % 2 ^ 64

unfoldable pub to_i64 : ℕ → ℤ
to_i64 u = if ltb u (2 ^ 63) then pos u else negsuc (2 ^ 64 - 1 - u)

unfoldable pub i64_to_bytes : ℤ → List ℕ
unfolding u64_to_bytes to_u64
i64_to_bytes v = u64_to_bytes (to_u64 v)

unfoldable pub bytes_to_i64 : List ℕ → Option ℤ
unfolding bytes_to_u64 to_i64
bytes_to_i64 bytes = do u ← bytes_to_u64 bytes; some (to_i64 u)

-- The numbers that an int64 can hold.
abbrev pub IsI64 : ℤ → Type 0
IsI64 (pos n) = n < 2 ^ 63
IsI64 (negsuc n) = n < 2 ^ 63

push_byte_digit : (v : ℕ) → v < 2 ^ 64 → push_byte (v / 256) (v % 256) ≡ v
unfolding push_byte
push_byte_digit v h = omega arith

first_digit : (v : ℕ) → v < 256 → v % 256 ≡ v
first_digit v h = omega arith

bytes_to_u64-u64_to_bytes : (v : ℕ) → v < 2 ^ 64 → bytes_to_u64 (u64_to_bytes v) ≡ some v
unfolding bytes_to_u64 u64_to_bytes
bytes_to_u64-u64_to_bytes v h =
    rw
      (
        first_digit (v / 256 / 256 / 256 / 256 / 256 / 256 / 256) (omega (arith, h)),
        push_byte_digit (v / 256 / 256 / 256 / 256 / 256 / 256) (omega (arith, h)),
        push_byte_digit (v / 256 / 256 / 256 / 256 / 256) (omega (arith, h)),
        push_byte_digit (v / 256 / 256 / 256 / 256) (omega (arith, h)),
        push_byte_digit (v / 256 / 256 / 256) (omega (arith, h)),
        push_byte_digit (v / 256 / 256) (omega (arith, h)),
        push_byte_digit (v / 256) (omega (arith, h)),
        push_byte_digit v h,
      )
      refl

to_u64_bound : (v : ℤ) → to_u64 v < 2 ^ 64
unfolding to_u64
to_u64_bound (pos n) = omega arith
to_u64_bound (negsuc n) = omega arith

to_i64-to_u64 : (v : ℤ) → IsI64 v → to_i64 (to_u64 v) ≡ v
unfolding to_i64 to_u64
to_i64-to_u64 (pos n) h = ground (arith, h)
to_i64-to_u64 (negsuc n) h = ground (arith, h)

-- Every int64 that is written to the database, a negative one too, is read back as it was.
pub bytes_to_i64-i64_to_bytes : (v : ℤ) → IsI64 v → bytes_to_i64 (i64_to_bytes v) ≡ some v
unfolding bytes_to_i64 i64_to_bytes
bytes_to_i64-i64_to_bytes v h =
    decoded (bytes_to_u64 (u64_to_bytes (to_u64 v)))
      (bytes_to_u64-u64_to_bytes (to_u64 v) (to_u64_bound v))
  where
    decoded : (o : Option ℕ) → o ≡ some (to_u64 v) → (o >>= (λ (u : ℕ). some (to_i64 u))) ≡ some v
    decoded o e = rw (e, to_i64-to_u64 v h) refl
