-- ===== src/Cluster/Restored.antt =====
-- cluster/params.go: `DeleteNode` and `RecoverNode` one after the other.
use ofgp_core.Base.{
  sym, ap, ◌∙◌, ℕ_eq, get_elem?, set, ℕ, zero, suc, ◌+◌, ◌-◌, ◌≡◌, false, some, List, [], ◌∷◌,
  arith, refl, ◌<◌, true,
}
use ofgp_core.Cluster.Defs.{Cluster, NodeInfo, update_quorums, delete_node, recover_node}
use ofgp_core.Cluster.Invariant.{
  normal_count, with_normal, normal_count-set, deleted, delete_node_inside, recovered,
  recover_node_inside,
}

-- What a deletion and a recovery leave as it was, and the quorum sizes of that cluster.
pub record Restores (c d : Cluster) : Type 0 where
  pub node_list : d.node_list ≡ c.node_list
  pub cluster_size : d.cluster_size ≡ c.cluster_size
  pub total_node_count : d.total_node_count ≡ c.total_node_count
  pub max_faulty_n : d.max_faulty_n ≡ (update_quorums c).max_faulty_n
  pub quorum_n : d.quorum_n ≡ (update_quorums c).quorum_n
  pub accuse_quorum_n : d.accuse_quorum_n ≡ (update_quorums c).accuse_quorum_n

set_back :
    (k : ℕ) (nodes : List NodeInfo) (node : NodeInfo)
    → get_elem? nodes k ≡ some node
    → node.is_normal ≡ true
    → (get_elem? (set nodes k (with_normal false node)) k ≡ some (with_normal false node))
      × (set (set nodes k (with_normal false node)) k (with_normal true node) ≡ nodes)
set_back k [] node e n = absurd (ground (arith, e))
set_back zero (m ∷ nodes) node e n = (refl, ap (λ x. x ∷ nodes) (whole (some_eq e)))
  where
    some_eq : some m ≡ some node → m ≡ node
    some_eq h = cc h

    whole : m ≡ node → with_normal true node ≡ m
    whole h = ap (λ b. record node { is_normal = b }) (sym n) ∙ sym h
set_back (suc k) (m ∷ nodes) node e n =
    let (at, back) = set_back k nodes node e n in (at, ap (λ xs. m ∷ xs) back)

-- Deleting a normal node takes it out of those that count, and recovering it afterwards gives the node list
-- and the sizes of before, with the quorums that belong to them.
pub recover_node-delete_node :
    (c : Cluster) (node_id : ℕ) (node : NodeInfo)
    → node_id < c.total_node_count
    → 0 < c.cluster_size
    → get_elem? c.node_list node_id ≡ some node
    → node.is_normal ≡ true
    → (b : Cluster) × (d : Cluster) × (delete_node c node_id ≡ some b)
      × (normal_count b.node_list + 1 ≡ normal_count c.node_list)
      × (b.cluster_size + 1 ≡ c.cluster_size)
      × (recover_node b node_id ≡ some d)
      × Restores c d
unfolding update_quorums
recover_node-delete_node c k node inside size at normal =
    let (gone, back) = set_back k c.node_list node at normal in
    (
      without,
      recovered without k (with_normal false node),
      delete_node_inside c k node inside at ∙ ap some is_without,
      ground (arith, normal, normal_count-set k c.node_list false node at),
      omega (arith, size),
      recover_node_inside without k (with_normal false node) inside gone,
      record {
        node_list = back;
        cluster_size = ground (arith, size);
        total_node_count = refl;
        max_faulty_n = ground (arith, size);
        quorum_n = ground (arith, size);
        accuse_quorum_n = ground (arith, size);
      },
    )
  where
    without : Cluster
    without = update_quorums (record c {
      node_list = set c.node_list k (with_normal false node);
      cluster_size = c.cluster_size - 1;
    })

    is_without : deleted c k node ≡ without
    is_without = rw normal refl
