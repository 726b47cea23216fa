-- ===== src/Node/Check/Certificates.antt =====
-- node/msg_validation.go: what a votie that `checkVotie` accepts proves: a quorum of nodes, each under
-- its own number, signed a prepare or a commit of the block.
use ofgp_core.Node.Check.Votes.{has_support, check_votie}
use ofgp_core.Node.Check.Basic.{
  check_node_id, verify_node, check_block, check_prepare, check_commit, prepares_match,
  commits_match,
}
use ofgp_core.Node.Check.Result.{>>=-eq-accepted, require-accepted, accepted}
use ofgp_core.Cluster.Defs.{Cluster}
use ofgp_core.Proto.Feed.{prepare_msg_id, commit_msg_id}
use ofgp_core.Proto.Types.{Digest, PrepareMsg, CommitMsg, Votie}
use mathlib.Core.Path.{fun_ext}
use ofgp_core.Base.{
  ℕ_eq, nat_eq, Bool-cases, length, Map, is_some, lookup, UniqueKeys, ℕ, zero, suc, ◌≤◌, ◌<◌, ◌≡◌,
  refl, ap, ◌∙◌, inl, inr, Bool, false, ◌||◌, List, [], ◌∷◌, arith, bytes_eq_iff, subst, ◌⊎◌, true,
}
use ofgp_core.Cluster.Quorum.{count}

-- The numbers below `n`.
abbrev pub below : ℕ → List ℕ
below zero = []
below (suc n) = n ∷ below n

count_none :
    (p : ℕ → Bool) (n j : ℕ) → n ≤ j → count (λ i. nat_eq j i || p i) (below n) ≡ count p (below n)
count_none p zero j h = refl
count_none p (suc n) j h = ground (arith, count_none p n j (omega arith))

count_one :
    (p : ℕ → Bool) (n j : ℕ)
    → j < n
    → p j ≡ false
    → count (λ i. nat_eq j i || p i) (below n) ≡ suc (count p (below n))
count_one p zero j h k = absurd (omega arith)
count_one p (suc n) j h k = elim (Bool-cases (nat_eq j n)) [
  | inl e ↦ ground (arith, count_none p n j)
  | inr e ↦ ground (arith, count_one p n j (ground arith) k)
]

-- Whether a map has an entry of the node.
abbrev pub has {ℓ} : {A : Type ℓ} → Map ℕ A → ℕ → Bool
has m i = is_some (lookup i m)

abbrev pub KeysBelow {ℓ} : {A : Type ℓ} → ℕ → Map ℕ A → Type 0
KeysBelow n [] = Unit
KeysBelow n (e ∷ m) = (e.0 < n) × KeysBelow n m

-- A map without a double key has as many entries as there are nodes that it has an entry of.
pub count-has {ℓ} :
    {A : Type ℓ} (n : ℕ) (m : Map ℕ A)
    → UniqueKeys m
    → KeysBelow n m
    → count (has m) (below n) ≡ length m
unfolding lookup
count-has n [] u b = count_false n
  where
    count_false : (n : ℕ) → count (λ i. false) (below n) ≡ 0
    count_false zero = refl
    count_false (suc n) = count_false n
count-has n ((k, a) ∷ m) u b =
    ap (λ p. count p (below n)) (fun_ext either)
    ∙ count_one (has m) n k b.0 (ap is_some u.0)
    ∙ ap suc (count-has n m u.1 b.1)
  where
    either : (i : ℕ) → has ((k, a) ∷ m) i ≡ (nat_eq k i || has m i)
    either i = ground arith

count-or : (p q : ℕ → Bool) (xs : List ℕ) → count p xs ≤ count (λ i. p i || q i) xs
count-or p q [] = omega arith
count-or p q (x ∷ xs) = ground (arith, count-or p q xs)

count-or_right : (p q : ℕ → Bool) (xs : List ℕ) → count q xs ≤ count (λ i. p i || q i) xs
count-or_right p q [] = omega arith
count-or_right p q (x ∷ xs) = ground (arith, count-or_right p q xs)

-- Whether the votie holds a prepare or a commit of the node.
abbrev pub signed : Votie → ℕ → Bool
signed v i = has v.prepares i || has v.commits i

module _ (sha256 : List ℕ → Digest) (verify : List ℕ → Digest → List ℕ → Bool) where
  -- A prepare of the node for the block of the votie, with a signature under the node's key.
  pub record SignedPrepare (c : Cluster) (v : Votie) (i : ℕ) : Type 0 where
    pub msg : PrepareMsg
    pub by_node : msg.node_id ≡ i
    pub in_term : msg.term ≡ v.term
    pub at_height : msg.height ≡ v.height
    pub for_block : msg.block_id ≡ v.block.id
    pub verified : verify_node verify c i (prepare_msg_id sha256 msg) msg.sig ≡ true

  pub record SignedCommit (c : Cluster) (v : Votie) (i : ℕ) : Type 0 where
    pub msg : CommitMsg
    pub by_node : msg.node_id ≡ i
    pub in_term : msg.term ≡ v.term
    pub at_height : msg.height ≡ v.height
    pub for_block : msg.block_id ≡ v.block.id
    pub verified : verify_node verify c i (commit_msg_id sha256 msg) msg.sig ≡ true

  abbrev pub SignedBy : Cluster → Votie → ℕ → Type 0
  SignedBy c v i = SignedPrepare c v i ⊎ SignedCommit c v i

  prepares_match-below :
      (c : Cluster) (t h : ℕ) (id : Digest) (m : Map ℕ PrepareMsg)
      → prepares_match sha256 verify c t h id m ≡ true
      → KeysBelow (length c.node_list) m
  unfolding prepares_match check_prepare check_node_id
  prepares_match-below c t h id [] e = tt
  prepares_match-below c t h id ((k, p) ∷ m) e =
      (ground arith, prepares_match-below c t h id m (ground arith))

  commits_match-below :
      (c : Cluster) (t h : ℕ) (id : Digest) (m : Map ℕ CommitMsg)
      → commits_match sha256 verify c t h id m ≡ true
      → KeysBelow (length c.node_list) m
  unfolding commits_match check_commit check_node_id
  commits_match-below c t h id [] e = tt
  commits_match-below c t h id ((k, p) ∷ m) e =
      (ground arith, commits_match-below c t h id m (ground arith))

  prepares_match-signed :
      (c : Cluster) (v : Votie) (i : ℕ) (m : Map ℕ PrepareMsg)
      → prepares_match sha256 verify c v.term v.height v.block.id m ≡ true
      → has m i ≡ true
      → SignedPrepare c v i
  unfolding prepares_match check_prepare lookup
  prepares_match-signed c v i [] e h = cc
  prepares_match-signed c v i ((k, p) ∷ m) e h = elim (Bool-cases (nat_eq k i)) [
    | inl same ↦ record {
      msg = p;
      by_node = ground arith;
      in_term = ground arith;
      at_height = ground arith;
      for_block = ground (arith, bytes_eq_iff v.block.id p.block_id);
      verified = ground arith;
    }
    | inr other ↦ prepares_match-signed c v i m (ground arith) (ground arith)
  ]

  commits_match-signed :
      (c : Cluster) (v : Votie) (i : ℕ) (m : Map ℕ CommitMsg)
      → commits_match sha256 verify c v.term v.height v.block.id m ≡ true
      → has m i ≡ true
      → SignedCommit c v i
  unfolding commits_match check_commit lookup
  commits_match-signed c v i [] e h = cc
  commits_match-signed c v i ((k, p) ∷ m) e h = elim (Bool-cases (nat_eq k i)) [
    | inl same ↦ record {
      msg = p;
      by_node = ground arith;
      in_term = ground arith;
      at_height = ground arith;
      for_block = ground (arith, bytes_eq_iff v.block.id p.block_id);
      verified = ground arith;
    }
    | inr other ↦ commits_match-signed c v i m (ground arith) (ground arith)
  ]

  -- What `checkVotie` has checked of the votie that it accepts.
  pub record IsCertified (c : Cluster) (v : Votie) : Type 0 where
    pub prepares_match_block :
        prepares_match sha256 verify c v.term v.height v.block.id v.prepares ≡ true
    pub commits_match_block :
        commits_match sha256 verify c v.term v.height v.block.id v.commits ≡ true
    pub supported : has_support sha256 verify c v ≡ true

  pub check_votie-IsCertified :
      (c : Cluster) (v w : Votie) → check_votie sha256 verify c v ≡ accepted w → IsCertified c w
  unfolding check_votie
  check_votie-IsCertified c v w e =
      let (block, eb, e1) = >>=-eq-accepted (check_block sha256 verify v.block) _ e in
      let (p, e2) = require-accepted _ _ e1 in
      let (q, e3) = require-accepted _ _ e2 in
      let (s, e4) = require-accepted _ _ e3 in
      subst (IsCertified c) {x = record v { block = block }} (cc e4)
        (record { prepares_match_block = p; commits_match_block = q; supported = s })

  pub signed-SignedBy :
      (c : Cluster) (v : Votie) (i : ℕ) → IsCertified c v → signed v i ≡ true → SignedBy c v i
  signed-SignedBy c v i k h = elim (Bool-cases (has v.prepares i)) [
    | inl p ↦ inl (prepares_match-signed c v i v.prepares k.prepares_match_block p)
    | inr n ↦ inr (commits_match-signed c v i v.commits k.commits_match_block (ground arith))
  ]

  -- The nodes that signed for a certified block above the genesis are a quorum.
  pub signed-quorum :
      (c : Cluster) (v : Votie)
      → IsCertified c v
      → UniqueKeys v.prepares
      → UniqueKeys v.commits
      → 0 < v.height
      → c.quorum_n ≤ count (signed v) (below (length c.node_list))
  unfolding has_support
  signed-quorum c v k p q h = ground (
    arith,
    k.supported,
    count-has (length c.node_list) v.prepares p
        (prepares_match-below c v.term v.height v.block.id v.prepares k.prepares_match_block),
    count-has (length c.node_list) v.commits q
        (commits_match-below c v.term v.height v.block.id v.commits k.commits_match_block),
    count-or (has v.prepares) (has v.commits) (below (length c.node_list)),
    count-or_right (has v.prepares) (has v.commits) (below (length c.node_list)),
  )
