-- ===== src/Db/Keys.antt =====
-- primitives/dbops.go: the keys of the database, as bytes.
use ofgp_core.Base.{
  subst, sym, bytes_eq, ◌||◌, ◌&&◌, not, inl, inr, Bool-cases, bytes_eq_iff, get_elem?, ◌++◌, codes,
  nat_eq, ℕ_eq, ℕ, ◌≡◌, refl, List, [], ◌∷◌, Bool, true, zero, suc, ◌<◌, some, arith,
}

-- The variables of the file, in their order.
unfoldable pub key_prefixes : List (List ℕ)
key_prefixes =
    codes "NodeState_Term"
    ∷ codes "NodeState_LastTermAccuse"
    ∷ codes "NodeState_WeakAccuses"
    ∷ codes "NodeState_Fresh"
    ∷ codes "NodeState_Votie"
    ∷ codes "NodeState_LastBchBlockHeader"
    ∷ codes "JoinNodeInfo"
    ∷ codes "LeaveNodeInfo"
    ∷ codes "ETHHeight"
    ∷ codes "ETHTxIndex"
    ∷ codes "XINHeight"
    ∷ codes "XINTxIndex"
    ∷ codes "MS"
    ∷ codes "B"
    ∷ codes "H"
    ∷ codes "T"
    ∷ codes "M"
    ∷ codes "SM"
    ∷ codes "SF"
    ∷ codes "SR"
    ∷ codes "CH"
    ∷ codes "PP"
    ∷ codes "FA"
    ∷ codes "ETHash"
    ∷ codes "AR"
    ∷ codes "CS"
    ∷ []

-- One text begins the other.
abbrev pub clash : List ℕ → List ℕ → Bool
clash [] q = true
clash (x ∷ p) [] = true
clash (x ∷ p) (y ∷ q) = nat_eq x y && clash p q

some_eq : {x y : List ℕ} → some x ≡ some y → x ≡ y
some_eq e = cc e

cons_head : {x y : ℕ} {xs ys : List ℕ} → x ∷ xs ≡ y ∷ ys → x ≡ y
cons_head e = cc e

cons_tail : {x y : ℕ} {xs ys : List ℕ} → x ∷ xs ≡ y ∷ ys → xs ≡ ys
cons_tail e = cc e

pub clash-++ : (p q r s : List ℕ) → p ++ r ≡ q ++ s → clash p q ≡ true
clash-++ [] q r s e = refl
clash-++ (x ∷ p) [] r s e = refl
clash-++ (x ∷ p) (y ∷ q) r s e = ground (arith, cons_head e, clash-++ p q r s (cons_tail e))

-- The one pair of the list that clashes.
abbrev is_snapshot_and_map : List ℕ → List ℕ → Bool
is_snapshot_and_map p q = bytes_eq p (codes "MS") && bytes_eq q (codes "M")

abbrev apart : List ℕ → List ℕ → Bool
apart p q = is_snapshot_and_map p q || not (clash p q)

abbrev none_clash : List ℕ → List (List ℕ) → Bool
none_clash p [] = true
none_clash p (q ∷ qs) = apart p q && none_clash p qs

abbrev all_apart : List (List ℕ) → Bool
all_apart [] = true
all_apart (p ∷ ps) = none_clash p ps && all_apart ps

key_prefixes-all_apart : all_apart key_prefixes ≡ true
unfolding key_prefixes
key_prefixes-all_apart = refl

none_clash-apart :
    (p : List ℕ) (ps : List (List ℕ)) (j : ℕ) (q : List ℕ)
    → none_clash p ps ≡ true
    → get_elem? ps j ≡ some q
    → apart p q ≡ true
none_clash-apart p [] j q v e = absurd (ground (arith, e))
none_clash-apart p (a ∷ ps) zero q v e =
    subst (λ (x : List ℕ). apart p x ≡ true) (some_eq e) (ground (arith, v))
none_clash-apart p (a ∷ ps) (suc j) q v e = none_clash-apart p ps j q (ground (arith, v)) e

all_apart-at :
    (ps : List (List ℕ)) (i j : ℕ) (p q : List ℕ)
    → all_apart ps ≡ true
    → i < j
    → get_elem? ps i ≡ some p
    → get_elem? ps j ≡ some q
    → apart p q ≡ true
all_apart-at [] i j p q v lt ep eq = absurd (ground (arith, ep))
all_apart-at (a ∷ ps) zero zero p q v lt ep eq = absurd (omega (arith, lt))
all_apart-at (a ∷ ps) zero (suc j) p q v lt ep eq =
    subst (λ (x : List ℕ). apart x q ≡ true) (some_eq ep)
      (none_clash-apart a ps j q (ground (arith, v)) eq)
all_apart-at (a ∷ ps) (suc i) zero p q v lt ep eq = absurd (omega (arith, lt))
all_apart-at (a ∷ ps) (suc i) (suc j) p q v lt ep eq =
    all_apart-at ps i j p q (ground (arith, v)) (omega (arith, lt)) ep eq

-- Of two keys of the database with different prefixes, whatever follows the prefixes, only the
-- snapshot of the addresses and the entry of a transaction in the map of the names can be one key: the
-- transaction is then named "S" and what follows "MS".
pub keys_clash :
    (i j : ℕ) (p q r s : List ℕ)
    → i < j
    → get_elem? key_prefixes i ≡ some p
    → get_elem? key_prefixes j ≡ some q
    → p ++ r ≡ q ++ s
    → (p ≡ codes "MS") × (q ≡ codes "M") × (s ≡ codes "S" ++ r)
keys_clash i j p q r s lt ep eq e = elim (Bool-cases (is_snapshot_and_map p q)) [
  | inl both ↦
      let this : p ≡ codes "MS" = (bytes_eq_iff p (codes "MS")).0 (ground (arith, both)) in
      let that : q ≡ codes "M" = (bytes_eq_iff q (codes "M")).0 (ground (arith, both)) in
      (this, that, following this that)
  | inr other ↦ absurd (
      ground (
        arith,
        other,
        clash-++ p q r s e,
        all_apart-at key_prefixes i j p q key_prefixes-all_apart lt ep eq,
      ))
]
  where
    following : p ≡ codes "MS" → q ≡ codes "M" → s ≡ codes "S" ++ r
    following this that = sym (
        cons_tail (
          subst (λ (y : List ℕ). codes "MS" ++ r ≡ y ++ s) that
            (subst (λ (x : List ℕ). x ++ r ≡ q ++ s) this e)))
