-- ===== src/Util/Order.antt =====
-- util/base.go as the keys of blocks use it: LevelDB keeps its keys in the order of their bytes.
use ofgp_core.Base.{
  ltb, nat_eq, if◌then◌else◌, length, All, ℕ, ◌+◌, ◌*◌, ◌^◌, ◌<◌, ◌≡◌, refl, List, [], ◌∷◌, arith,
  Bool, true, false, Bool-cases, inl, inr, ◌⊎◌, ap,
}
use ofgp_core.Util.Codec.{u64_to_bytes}

-- The order of the bytes, a shorter text before the longer ones that it begins.
unfoldable pub bytes_ltb : List ℕ → List ℕ → Bool
bytes_ltb xs [] = false
bytes_ltb [] (y ∷ ys) = true
bytes_ltb (x ∷ xs) (y ∷ ys) = let rest = bytes_ltb xs ys in if nat_eq x y then rest else ltb x y

-- The number that the bytes write in base 256, and 256 to their length.
place : List ℕ → ℕ
place [] = 1
place (b ∷ bs) = 256 * place bs

value : List ℕ → ℕ
value [] = 0
value (b ∷ bs) = b * place bs + value bs

abbrev IsByte : ℕ → Type 0
IsByte b = b < 256

digit_bound : (b p v : ℕ) → b < 256 → v < p → b * p + v < 256 * p
digit_bound b p v hb hv = grind arith

digit_lt : (x y p v w : ℕ) → x < y → v < p → x * p + v < y * p + w
digit_lt x y p v w h hv = grind arith

value_bound : (bs : List ℕ) → All IsByte bs → value bs < place bs
unfolding value place
value_bound [] v = omega arith
value_bound (b ∷ bs) v = digit_bound b (place bs) (value bs) v.0 (value_bound bs v.1)

place-length : (xs ys : List ℕ) → length xs ≡ length ys → place xs ≡ place ys
unfolding place
place-length [] [] e = refl
place-length [] (y ∷ ys) e = absurd (omega (arith, e))
place-length (x ∷ xs) [] e = absurd (omega (arith, e))
place-length (x ∷ xs) (y ∷ ys) e = ap (λ (n : ℕ). 256 * n) (place-length xs ys (omega (arith, e)))

apart : (x y : ℕ) → (x < y) ⊎ ((x ≡ y) ⊎ (y < x))
apart x y = elim (Bool-cases (ltb x y)) [
  | inl lt ↦ inl (ground (arith, lt))
  | inr ge ↦ elim (Bool-cases (ltb y x)) [
    | inl gt ↦ inr (inr (ground (arith, gt)))
    | inr le ↦ inr (inl (ground (arith, ge, le)))
  ]
]

bytes_ltb-value :
    (xs ys : List ℕ)
    → All IsByte xs
    → All IsByte ys
    → length xs ≡ length ys
    → bytes_ltb xs ys ≡ ltb (value xs) (value ys)
unfolding bytes_ltb value
bytes_ltb-value [] [] v w e = refl
bytes_ltb-value [] (y ∷ ys) v w e = absurd (omega (arith, e))
bytes_ltb-value (x ∷ xs) [] v w e = absurd (omega (arith, e))
bytes_ltb-value (x ∷ xs) (y ∷ ys) v w e = elim (apart x y) [
  | inl lt ↦
      ground
        (arith, digit_lt x y (place xs) (value xs) (value ys) lt (value_bound xs v.1), same_place)
  | inr (inl eq) ↦ ground (arith, eq, same_place, bytes_ltb-value xs ys v.1 w.1 (omega (arith, e)))
  | inr (inr gt) ↦
      ground
        (arith, digit_lt y x (place ys) (value ys) (value xs) gt (value_bound ys w.1), same_place)
]
  where
    same_place : place xs ≡ place ys
    same_place = place-length xs ys (omega (arith, e))

value-u64_to_bytes : (v : ℕ) → v < 2 ^ 64 → value (u64_to_bytes v) ≡ v
unfolding value place u64_to_bytes
value-u64_to_bytes v h = omega (arith, h)

u64_to_bytes-IsByte : (v : ℕ) → All IsByte (u64_to_bytes v)
unfolding u64_to_bytes
u64_to_bytes-IsByte v = (
  omega arith,
  (
    omega arith,
    (omega arith, (omega arith, (omega arith, (omega arith, (omega arith, (omega arith, tt)))))),
  ),
)

-- The keys of two heights stand in the order of the heights, as `GetCommitHeight`, which reads the last
-- key of the blocks, needs it.
pub bytes_ltb-u64_to_bytes :
    (v w : ℕ) → v < 2 ^ 64 → w < 2 ^ 64 → bytes_ltb (u64_to_bytes v) (u64_to_bytes w) ≡ ltb v w
unfolding u64_to_bytes
bytes_ltb-u64_to_bytes v w hv hw = ground (
  arith,
  bytes_ltb-value (u64_to_bytes v) (u64_to_bytes w) (u64_to_bytes-IsByte v) (u64_to_bytes-IsByte w)
      refl,
  value-u64_to_bytes v hv,
  value-u64_to_bytes w hw,
)
