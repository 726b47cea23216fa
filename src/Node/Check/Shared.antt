-- ===== src/Node/Check/Shared.antt =====
-- node/msg_validation.go with cluster/params.go: any two blocks that voties prove share an honest signer.
use ofgp_core.Base.{
  ℕ_eq, length, UniqueKeys, ℕ, zero, suc, ◌≤◌, ◌<◌, ◌≡◌, refl, sym, ap, ◌∙◌, Bool, false, List,
  arith,
}
use ofgp_core.Proto.Types.{Digest, Votie}
use ofgp_core.Cluster.Defs.{Cluster, update_quorums}
use ofgp_core.Cluster.Quorum.{count, quorums_meet}
use ofgp_core.Cluster.Invariant.{IsValid}
use ofgp_core.Node.Check.Result.{accepted}
use ofgp_core.Node.Check.Votes.{check_votie}
use ofgp_core.Node.Check.Certificates.{
  below, signed, SignedBy, check_votie-IsCertified, signed-SignedBy, signed-quorum,
}

length-below : (n : ℕ) → length (below n) ≡ n
length-below zero = refl
length-below (suc n) = ap suc (length-below n)

module _ (sha256 : List ℕ → Digest) (verify : List ℕ → Digest → List ℕ → Bool) where
  -- In a cluster with valid counts and no node gone, of which at most `MaxFaultyN` nodes are bad, any
  -- two voties above the genesis that `checkVotie` accepts, whatever their term, height and block, hold
  -- signed messages of one and the same node that is not bad: a prepare or a commit for the block of each.
  pub check_votie-shared :
      (c : Cluster) (v v' w w' : Votie) (bad : ℕ → Bool)
      → IsValid c
      → 1 ≤ c.cluster_size
      → c.cluster_size ≡ length c.node_list
      → count bad (below (length c.node_list)) ≤ c.max_faulty_n
      → UniqueKeys v'.prepares × UniqueKeys v'.commits × (0 < v'.height)
      → UniqueKeys w'.prepares × UniqueKeys w'.commits × (0 < w'.height)
      → check_votie sha256 verify c v ≡ accepted v'
      → check_votie sha256 verify c w ≡ accepted w'
      → (i : ℕ) × (bad i ≡ false) × SignedBy sha256 verify c v' i × SignedBy sha256 verify c w' i
  unfolding update_quorums
  check_votie-shared c v v' w w' bad valid size all few (pv, cv, hv) (pw, cw, hw) e f =
      let kv = check_votie-IsCertified sha256 verify c v v' e in
      let kw = check_votie-IsCertified sha256 verify c w w' f in
      let (i, a, at, sv, sw, good) =
        quorums_meet c (below (length c.node_list)) (signed v') (signed w') bad size
          (length-below (length c.node_list) ∙ sym all)
          (enough (signed-quorum sha256 verify c v' kv pv cv hv))
          (enough (signed-quorum sha256 verify c w' kw pw cw hw)) (ground (arith, valid.faulty)) in
      (
        a,
        good,
        signed-SignedBy sha256 verify c v' a kv sv,
        signed-SignedBy sha256 verify c w' a kw sw,
      )
    where
      enough : {n : ℕ} → c.quorum_n ≤ n → (update_quorums c).quorum_n ≤ n
      enough h = ground (arith, valid.quorum, valid.faulty)
