-- ===== src/Proto/KeyOrder.antt =====
-- util/sort/sort.go as proto/pbtypes_ext.go uses it: Go gives the entries of a map in any order, so the
-- identifiers of votes and init messages are fed in the order of the keys.
use ofgp_core.Base.{
  ℕ_eq, leb, if◌then◌else◌, Bool-cases, ◌==◌, Map, lookup, UniqueKeys, ℕ, ◌≤◌, ◌<◌, ◌≡◌, refl, sym,
  ◌∙◌, inl, inr, none, some, List, [], ◌∷◌, arith,
}
use ofgp_core.Proto.Types.{Digest, Vote, InitMsg}
use ofgp_core.Proto.MsgIds.{insert_key, sort_keys, feed_init_msg_fields, init_msg_id}

module _ {ℓ} {A : Type ℓ} where
  abbrev Above : ℕ → Map ℕ A → Type 0
  Above k [] = Unit
  Above k (e ∷ m) = (k < e.0) × Above k m

  abbrev Ascending : Map ℕ A → Type 0
  Ascending [] = Unit
  Ascending (e ∷ m) = Above e.0 m × Ascending m

  -- Both maps hold the same entries, in whatever order.
  abbrev pub SameEntries : Map ℕ A → Map ℕ A → Type ℓ
  SameEntries m n = UniqueKeys m × UniqueKeys n × ((k : ℕ) → lookup k m ≡ lookup k n)

  Above-lookup : (j k : ℕ) (m : Map ℕ A) → Above k m → j ≤ k → lookup j m ≡ none
  unfolding lookup
  Above-lookup j k [] h le = refl
  Above-lookup j k ((i, a) ∷ m) h le = ground (arith, ℕ_eq.beq_iff i j, Above-lookup j k m h.1 le)

  Above-trans : (j k : ℕ) (m : Map ℕ A) → Above k m → j ≤ k → Above j m
  Above-trans j k [] h le = tt
  Above-trans j k (e ∷ m) h le = (ground arith, Above-trans j k m h.1 le)

  insert_key-Above :
      (j k : ℕ) (a : A) (m : Map ℕ A) → j < k → Above j m → Above j (insert_key (k, a) m)
  unfolding insert_key
  insert_key-Above j k a [] lt h = (lt, tt)
  insert_key-Above j k a (f ∷ m) lt h = ground (arith, insert_key-Above j k a m lt h.1)

  insert_key-Ascending :
      (k : ℕ) (a : A) (m : Map ℕ A)
      → lookup k m ≡ none
      → Ascending m
      → Ascending (insert_key (k, a) m)
  unfolding insert_key lookup
  insert_key-Ascending k a [] u h = (tt, tt)
  insert_key-Ascending k a ((j, b) ∷ m) u h = elim (Bool-cases (leb k j)) [
    | inl e ↦ ground (arith, ℕ_eq.beq_iff j k, Above-trans k j m h.0)
    | inr e ↦ ground (
      arith,
      ℕ_eq.beq_iff j k,
      insert_key-Above j k a m (ground arith) h.0,
      insert_key-Ascending k a m,
    )
  ]

  lookup-insert_key :
      (i k : ℕ) (a : A) (m : Map ℕ A)
      → lookup k m ≡ none
      → lookup i (insert_key (k, a) m) ≡ (if k == i then some a else lookup i m)
  unfolding insert_key lookup
  lookup-insert_key i k a [] u = refl
  lookup-insert_key i k a ((j, b) ∷ m) u =
      ground
        (arith, ℕ_eq.beq_iff j k, ℕ_eq.beq_iff j i, ℕ_eq.beq_iff k i, lookup-insert_key i k a m)

  lookup-sort_keys : (i : ℕ) (m : Map ℕ A) → UniqueKeys m → lookup i (sort_keys m) ≡ lookup i m
  unfolding sort_keys lookup
  lookup-sort_keys i [] u = refl
  lookup-sort_keys i ((k, a) ∷ m) u = ground (
    arith,
    lookup-sort_keys k m u.1,
    lookup-sort_keys i m u.1,
    lookup-insert_key i k a (sort_keys m),
  )

  sort_keys-Ascending : (m : Map ℕ A) → UniqueKeys m → Ascending (sort_keys m)
  unfolding sort_keys
  sort_keys-Ascending [] u = tt
  sort_keys-Ascending ((k, a) ∷ m) u =
      insert_key-Ascending k a (sort_keys m) (lookup-sort_keys k m u.1 ∙ u.0)
        (sort_keys-Ascending m u.1)

  Ascending-ext :
      (m n : Map ℕ A) → Ascending m → Ascending n → ((k : ℕ) → lookup k m ≡ lookup k n) → m ≡ n
  unfolding lookup
  Ascending-ext [] [] p q h = refl
  Ascending-ext [] ((j, b) ∷ n) p q h = ground (arith, h j, ℕ_eq.beq_iff j j)
  Ascending-ext ((k, a) ∷ m) [] p q h = ground (arith, h k, ℕ_eq.beq_iff k k)
  Ascending-ext ((k, a) ∷ m) ((j, b) ∷ n) p q h =
      cc (same_key, same_value, Ascending-ext m n p.1 q.1 below)
    where
      same_key : k ≡ j
      same_key = ground (
        arith,
        h k,
        h j,
        ℕ_eq.beq_iff j j,
        ℕ_eq.beq_iff k k,
        ℕ_eq.beq_iff j k,
        ℕ_eq.beq_iff k j,
        Above-lookup k j n q.0,
        Above-lookup j k m p.0,
      )

      same_value : a ≡ b
      same_value = ground (arith, same_key, h k, ℕ_eq.beq_iff j k, ℕ_eq.beq_iff k k)

      below : (i : ℕ) → lookup i m ≡ lookup i n
      below i = elim (Bool-cases (leb i k)) [
        | inl e ↦
            Above-lookup i k m p.0 (ground arith)
            ∙ sym (Above-lookup i j n q.0 (ground (arith, same_key)))
        | inr e ↦ ground (arith, same_key, h i, ℕ_eq.beq_iff j i, ℕ_eq.beq_iff k i)
      ]

  pub sort_keys_ext : (m n : Map ℕ A) → SameEntries m n → sort_keys m ≡ sort_keys n
  sort_keys_ext m n s =
      Ascending-ext (sort_keys m) (sort_keys n) (sort_keys-Ascending m s.0)
        (sort_keys-Ascending n s.1)
        (λ k. lookup-sort_keys k m s.0 ∙ s.2 k ∙ sym (lookup-sort_keys k n s.1))

module _ (sha256 : List ℕ → Digest) where
  -- The same holds of an init message and the votes that it carries.
  pub init_msg_id_any_order :
      (msg : InitMsg) (votes : Map ℕ Vote)
      → SameEntries votes msg.votes
      → init_msg_id sha256 (record msg { votes = votes }) ≡ init_msg_id sha256 msg
  unfolding init_msg_id feed_init_msg_fields
  init_msg_id_any_order msg votes s = cc (sort_keys_ext votes msg.votes s)
