-- ===== src/Base/Maps.antt =====
-- Go maps as association lists: a write replaces the entry of its key, or adds one at the end.
use Prim.Native.Nat.{suc}
use mathlib.Core.Path.{◌≡◌, refl, subst}
use mathlib.Core.Logic.{inl, inr}
use mathlib.Core.Bool.{Bool, true, false}
use mathlib.Core.List.{List, [], ◌∷◌}
use mathlib.Core.Option.{Option, none, some}
use native.Mathlib.Omega.{arith}
use ofgp_core.Base.Tests.{Eq, ◌==◌, if◌then◌else◌, beq_refl, Bool-cases}
use ofgp_core.Base.Lists.{length, All}

abbrev pub Map {ℓ κ} : Type ℓ → Type κ → Type (ℓ ⊔ κ)
Map K V = List (K × V)

abbrev pub is_some {ℓ} : {A : Type ℓ} → Option A → Bool
is_some none = false
is_some (some a) = true

-- What a missing key reads as, where the values are slices or maps.
abbrev pub or_nil {ℓ} : {A : Type ℓ} → Option (List A) → List A
or_nil none = []
or_nil (some l) = l

All-if {ℓ} :
    {A : Type ℓ} (P : A → Type 0) (b : Bool) (xs ys : List A)
    → All P xs
    → All P ys
    → All P (if b then xs else ys)
All-if P true xs ys h k = h
All-if P false xs ys h k = k

module _ {ℓ κ} {K : Type ℓ} {V : Type κ} ⦃e : Eq K⦄ where
  -- `m[k]`, with `none` for a missing key.
  unfoldable pub lookup : K → Map K V → Option V
  lookup k [] = none
  lookup k ((j, v) ∷ m) = if j == k then some v else lookup k m

  -- `m[k] = v`.
  unfoldable pub insert : K → V → Map K V → Map K V
  insert k v [] = (k, v) ∷ []
  insert k v ((i, w) ∷ rest) = if i == k then (k, v) ∷ rest else (i, w) ∷ insert k v rest

  -- `delete(m, k)`.
  unfoldable pub delete : K → Map K V → Map K V
  delete k [] = []
  delete k ((j, w) ∷ m) = if j == k then delete k m else (j, w) ∷ delete k m

  -- A write is seen under its key, and every other key reads as before.
  pub lookup-insert :
      (written read : K) (v : V) (m : Map K V)
      → lookup read (insert written v m) ≡ (if written == read then some v else lookup read m)
  unfolding lookup insert
  lookup-insert written read v [] = refl
  lookup-insert written read v ((i, w) ∷ rest) = ground (
    arith,
    e.beq_iff written read,
    e.beq_iff i written,
    e.beq_iff i read,
    lookup-insert written read v rest,
  )

  pub lookup-insert_self : (k : K) (v : V) (m : Map K V) → lookup k (insert k v m) ≡ some v
  lookup-insert_self k v m = rw (lookup-insert k k v m, beq_refl k)

  pub lookup-delete :
      (k j : K) (m : Map K V) → lookup j (delete k m) ≡ (if k == j then none else lookup j m)
  unfolding lookup delete
  lookup-delete k j [] = ground arith
  lookup-delete k j ((i, w) ∷ m) =
      ground (arith, e.beq_iff k j, e.beq_iff i k, e.beq_iff i j, lookup-delete k j m)

  -- A write grows the map exactly when the key is new.
  pub length-insert :
      (k : K) (v : V) (m : Map K V)
      → length (insert k v m) ≡ (if is_some (lookup k m) then length m else suc (length m))
  unfolding lookup insert
  length-insert k v [] = refl
  length-insert k v ((j, w) ∷ m) = ground (arith, length-insert k v m)

  -- No key stands in the map twice, so that its length counts the keys.
  abbrev pub UniqueKeys : Map K V → Type κ
  UniqueKeys [] = Unit
  UniqueKeys ((j, w) ∷ m) = (lookup j m ≡ none) × UniqueKeys m

  pub insert-UniqueKeys : (k : K) (v : V) (m : Map K V) → UniqueKeys m → UniqueKeys (insert k v m)
  unfolding lookup insert
  insert-UniqueKeys k v [] u = (refl, tt)
  insert-UniqueKeys k v ((j, w) ∷ m) u =
      ground (arith, e.beq_iff j k, e.beq_iff k j, lookup-insert k j v m, insert-UniqueKeys k v m)

  -- What holds of every entry holds after a write of an entry of which it does, and after a removal.
  pub insert-All :
      (P : K × V → Type 0) (k : K) (v : V) (m : Map K V) → P (k, v) → All P m → All P (insert k v m)
  unfolding insert
  insert-All P k v [] p h = (p, tt)
  insert-All P k v ((j, w) ∷ m) p h =
      All-if P (j == k) ((k, v) ∷ m) ((j, w) ∷ insert k v m) (p, h.1)
        (h.0, insert-All P k v m p h.1)

  pub delete-All : (P : K × V → Type 0) (k : K) (m : Map K V) → All P m → All P (delete k m)
  unfolding delete
  delete-All P k [] h = tt
  delete-All P k ((j, w) ∷ m) h =
      let rest = delete-All P k m h.1 in
      All-if P (j == k) (delete k m) ((j, w) ∷ delete k m) rest (h.0, rest)

  pub lookup-All :
      (P : K × V → Type 0) (k : K) (m : Map K V) {v : V} → All P m → lookup k m ≡ some v → P (k, v)
  unfolding lookup
  lookup-All P k [] h found = cc
  lookup-All P k ((j, w) ∷ m) {v} h found = elim (Bool-cases (j == k)) [
    | inl same ↦
        subst (λ (i : K). P (i, v)) ((e.beq_iff j k).0 same)
          (subst (λ (d : V). P (j, d)) (ground arith) h.0)
    | inr other ↦ lookup-All P k m h.1 (ground arith)
  ]

  pub delete-UniqueKeys : (k : K) (m : Map K V) → UniqueKeys m → UniqueKeys (delete k m)
  unfolding lookup delete
  delete-UniqueKeys k [] u = tt
  delete-UniqueKeys k ((j, w) ∷ m) u =
      ground (arith, lookup-delete k j m, delete-UniqueKeys k m u.1)
