-- ===== src/Cluster/Start.antt =====
-- How `Init` and `InitWithNodeList` set up the variables of cluster/params.go.
use ofgp_core.Base.{
  ℕ_eq, length, length-append, Map, Holds, Holds->>=, Holds-map, ℕ, ◌+◌, ◌≡◌, Bool, not, List, [],
  ◌∷◌, ◌++◌, arith, Holds-some, ◌↔◌, some, if◌then◌else◌, ◌==◌, assert_true, refl,
}
use ofgp_core.Cluster.Defs.{NodeInfo, SecureSigner, new_secure_signer, Cluster, update_quorums}
use ofgp_core.Cluster.Init.{
  Config, NodeConfig, init_nodes, config_node, init, PbNode, pb_node, init_pb_nodes,
  init_with_node_list,
}
use ofgp_core.Cluster.Invariant.{
  normal_count, NumberedFrom, append-NumberedFrom, is_normal_node, IsValid, count-append,
  update_quorums-IsValid,
}
use ofgp_core.Cluster.Quorum.{count}

abbrev is_down : NodeConfig → Bool
is_down n = not n.status

-- What the loop of `Init` makes of the nodes that it has and of those that it has still to add.
abbrev Added : List NodeInfo → List NodeConfig → Map ℕ SecureSigner × List NodeInfo → Type 0
Added nodes ns r =
    (length r.1 ≡ length nodes + length ns)
    × (normal_count r.1 + count is_down ns ≡ normal_count nodes + length ns)
    × NumberedFrom 0 r.1

Added-step :
    (i : ℕ) (c : NodeConfig) (signer : SecureSigner) (ns : List NodeConfig) (nodes : List NodeInfo)
    (r : Map ℕ SecureSigner × List NodeInfo)
    → Added (nodes ++ config_node i c signer ∷ []) ns r
    → Added nodes (c ∷ ns) r
Added-step i c signer ns nodes r a =
    let node = config_node i c signer in
    (
      omega (arith, a.0, length-append nodes (node ∷ [])),
      ground (arith, a.1, count-append is_normal_node nodes (node ∷ [])),
      a.2,
    )

init_nodes-Added :
    (cfg : Config) (i : ℕ) (ns : List NodeConfig) (signers : Map ℕ SecureSigner)
    (nodes : List NodeInfo)
    → i ≡ length nodes
    → NumberedFrom 0 nodes
    → Holds (Added nodes ns) (init_nodes cfg i ns signers nodes)
unfolding init_nodes
init_nodes-Added cfg i [] signers nodes e n = (omega arith, omega arith, n)
init_nodes-Added cfg i (c ∷ ns) signers nodes e n =
    Holds->>= (Added nodes (c ∷ ns)) (new_secure_signer c.key _) _ λ signer _.
      let more = nodes ++ config_node i c signer ∷ [] in
      Holds-map _ (Added-step i c signer ns nodes) (
        init_nodes-Added cfg (i + 1) ns _ more
          (omega (arith, length-append nodes (config_node i c signer ∷ [])))
          (append-NumberedFrom 0 nodes (config_node i c signer) n (omega arith)))

-- The variables that a start leaves, with `down` nodes that are not normal among those counted.
abbrev Counts : ℕ → Cluster → Type 0
Counts down d =
    (d.cluster_size ≡ normal_count d.node_list + down)
    × (d.total_node_count ≡ length d.node_list)
    × (IsValid d ↔ (down ≡ 0))

update_quorums-Counts :
    (c : Cluster) (down : ℕ)
    → c.cluster_size ≡ normal_count c.node_list + down
    → c.total_node_count ≡ length c.node_list
    → NumberedFrom 0 c.node_list
    → Counts down (update_quorums c)
unfolding update_quorums
update_quorums-Counts c down h k n =
    (h, k, (λ v. omega (arith, v.counted), λ z. update_quorums-IsValid c (omega arith) k n))

init-Counts : (c : Cluster) (cfg : Config) → Holds (Counts (count is_down cfg.nodes)) (init c cfg)
unfolding init
init-Counts c cfg =
    Holds->>= (Counts (count is_down cfg.nodes)) (init_nodes cfg 0 cfg.nodes [] []) _ λ r e.
      let a =
        Holds-some (Added [] cfg.nodes) _ (init_nodes-Added cfg 0 cfg.nodes [] [] refl tt) e in
      update_quorums-Counts _ (count is_down cfg.nodes) (omega (arith, a.1)) (omega (arith, a.0))
        a.2

-- `Init` sets the count of the cluster to the number of nodes in the configuration: it counts
-- those whose status is false beside the normal ones. So the variables are consistent exactly when
-- no status is false.
pub init_counts_down_nodes :
    (c d : Cluster) (cfg : Config)
    → init c cfg ≡ some d
    → (d.cluster_size ≡ normal_count d.node_list + count is_down cfg.nodes)
      × (d.total_node_count ≡ length d.node_list)
      × (IsValid d ↔ (count is_down cfg.nodes ≡ 0))
init_counts_down_nodes c d cfg e =
    Holds-some (Counts (count is_down cfg.nodes)) (init c cfg) (init-Counts c cfg) e

-- What the loop of `InitWithNodeList` makes of the nodes and the count that it has.
abbrev AddedPb : List NodeInfo → ℕ → List PbNode → Map ℕ SecureSigner × List NodeInfo × ℕ → Type 0
AddedPb nodes size ns r =
    (length r.1 ≡ length nodes + length ns)
    × (r.2 + normal_count nodes ≡ size + normal_count r.1)
    × (NumberedFrom 0 nodes → NumberedFrom 0 r.1)

AddedPb-step :
    (n : PbNode) (signer : SecureSigner) (ns : List PbNode) (nodes : List NodeInfo) (size : ℕ)
    (r : Map ℕ SecureSigner × List NodeInfo × ℕ)
    → n.node_id ≡ length nodes
    → AddedPb (nodes ++ pb_node n signer ∷ []) (if n.is_normal then size + 1 else size) ns r
    → AddedPb nodes size (n ∷ ns) r
AddedPb-step n signer ns nodes size r e a =
    let node = pb_node n signer in
    (
      omega (arith, a.0, length-append nodes (node ∷ [])),
      ground (arith, a.1, count-append is_normal_node nodes (node ∷ [])),
      λ v. a.2 (append-NumberedFrom 0 nodes node v (omega arith)),
    )

init_pb_nodes-AddedPb :
    (i : ℕ) (ns : List PbNode) (signers : Map ℕ SecureSigner) (nodes : List NodeInfo) (size : ℕ)
    → i ≡ length nodes
    → Holds (AddedPb nodes size ns) (init_pb_nodes i ns signers nodes size)
unfolding init_pb_nodes
init_pb_nodes-AddedPb i [] signers nodes size e = (omega arith, omega arith, λ v. v)
init_pb_nodes-AddedPb i (n ∷ ns) signers nodes size e =
    Holds->>= (AddedPb nodes size (n ∷ ns)) (assert_true (i == n.node_id)) _ λ _ same.
      Holds->>= (AddedPb nodes size (n ∷ ns)) (new_secure_signer n.pubkey "") _ λ signer _.
        let more = nodes ++ pb_node n signer ∷ [] in
        Holds-map _ (λ r. AddedPb-step n signer ns nodes size r (ground arith))
          (init_pb_nodes-AddedPb (i + 1) ns _ more _
            (omega (arith, length-append nodes (pb_node n signer ∷ []))))

init_with_node_list-IsValid-Holds :
    (c : Cluster) (ns : List PbNode)
    → c.node_list ≡ []
    → c.cluster_size ≡ 0
    → Holds IsValid (init_with_node_list c ns)
unfolding init_with_node_list
init_with_node_list-IsValid-Holds c ns empty zeroed =
    Holds->>= IsValid (init_pb_nodes 0 ns [] c.node_list c.cluster_size) _ λ r e.
      let a =
        Holds-some (AddedPb c.node_list c.cluster_size ns) _
          (init_pb_nodes-AddedPb 0 ns [] c.node_list c.cluster_size (rw empty refl)) e in
      update_quorums-IsValid _ (ground (arith, a.1)) (ground (arith, a.0)) (a.2 (rw empty tt))

-- `InitWithNodeList`, over variables that are not set yet, leaves them consistent, unless it panics:
-- unlike `Init` it counts the normal nodes alone.
pub init_with_node_list-IsValid :
    (c d : Cluster) (ns : List PbNode)
    → c.node_list ≡ []
    → c.cluster_size ≡ 0
    → init_with_node_list c ns ≡ some d
    → IsValid d
init_with_node_list-IsValid c d ns empty zeroed =
    Holds-some IsValid (init_with_node_list c ns)
      (init_with_node_list-IsValid-Holds c ns empty zeroed)
