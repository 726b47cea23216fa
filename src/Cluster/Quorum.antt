-- ===== src/Cluster/Quorum.antt =====
-- What the quorum sizes of cluster/params.go guarantee.
use ofgp_core.Base.{
  ℕ_eq, if◌then◌else◌, Bool-cases, ◌==◌, length, get_elem?, ℕ, suc, ◌+◌, ◌*◌, ◌%◌, ◌≤◌, ◌<◌, ◌≡◌,
  refl, inl, inr, Bool, true, false, not, ◌&&◌, some, List, [], ◌∷◌, arith,
}
use ofgp_core.Cluster.Defs.{Cluster, NodeInfo, update_quorums, add_node_info}

module _ {ℓ} {A : Type ℓ} where
  -- How many elements pass a test.
  abbrev pub count : (A → Bool) → List A → ℕ
  count p [] = 0
  count p (x ∷ xs) = let rest = count p xs in if p x then suc rest else rest

  pub count-le-length : (p : A → Bool) (xs : List A) → count p xs ≤ length xs
  count-le-length p [] = omega arith
  count-le-length p (x ∷ xs) = ground (arith, count-le-length p xs)

  -- Two tests that together pass more often than there are elements and `bad` ones pass
  -- together on an element that is not bad.
  count_overlap :
      (p q bad : A → Bool) (xs : List A)
      → length xs + count bad xs < count p xs + count q xs
      → (i : ℕ) × (a : A) × (get_elem? xs i ≡ some a)
        × (p a ≡ true)
        × (q a ≡ true)
        × (bad a ≡ false)
  count_overlap p q bad [] h = absurd (omega arith)
  count_overlap p q bad (x ∷ xs) h = elim (Bool-cases (p x && q x && not (bad x))) [
    | inl e ↦ (0, x, refl, ground arith, ground arith, ground arith)
    | inr e ↦
        let (i, a, ia, pa, qa, ba) = count_overlap p q bad xs (ground arith) in
        (suc i, a, ia, pa, qa, ba)
  ]

-- In a cluster that has a node, the faulty nodes allowed for are as many as there can be with less
-- than a third of the nodes; two quorums share more than these; the other nodes alone are a quorum; and
-- the accuse quorum is one more than the faulty nodes, and no more than a quorum.
pub update_quorums_sizes :
    (c : Cluster)
    → 1 ≤ c.cluster_size
    → let q = update_quorums c in
      (q.max_faulty_n * 3 < q.cluster_size)
      × (q.cluster_size ≤ q.max_faulty_n * 3 + 3)
      × (q.cluster_size + q.max_faulty_n < q.quorum_n + q.quorum_n)
      × (q.quorum_n + q.max_faulty_n ≡ q.cluster_size)
      × (q.accuse_quorum_n ≡ q.max_faulty_n + 1)
      × (q.accuse_quorum_n ≤ q.quorum_n)
unfolding update_quorums
update_quorums_sizes c h =
    (omega arith, omega arith, omega arith, omega arith, omega arith, omega arith)

-- Any two quorums of the nodes of a cluster, of which at most `MaxFaultyN` are bad, share a node
-- that is not bad. `voted` and `voted'` say who is in each quorum.
pub quorums_meet :
    {A : Type 0} (c : Cluster) (nodes : List A) (voted voted' bad : A → Bool)
    → 1 ≤ c.cluster_size
    → length nodes ≡ c.cluster_size
    → (update_quorums c).quorum_n ≤ count voted nodes
    → (update_quorums c).quorum_n ≤ count voted' nodes
    → count bad nodes ≤ (update_quorums c).max_faulty_n
    → (i : ℕ) × (a : A) × (get_elem? nodes i ≡ some a)
      × (voted a ≡ true)
      × (voted' a ≡ true)
      × (bad a ≡ false)
unfolding update_quorums
quorums_meet c nodes voted voted' bad h n v v' b =
    count_overlap voted voted' bad nodes (omega arith)

-- `AddNodeInfo` asks for one vote less than the other functions at a size that 3 divides, and for
-- as many at every other size.
pub add_node_info-quorum :
    (c : Cluster) (node : NodeInfo)
    → let d = add_node_info c node in
      (d.quorum_n + (if d.cluster_size % 3 == 0 then 1 else 0) ≡ (update_quorums d).quorum_n)
      × (d.max_faulty_n ≡ (update_quorums d).max_faulty_n)
      × (d.accuse_quorum_n ≡ (update_quorums d).accuse_quorum_n)
unfolding add_node_info update_quorums
add_node_info-quorum c node = (ground arith, omega arith, omega arith)
