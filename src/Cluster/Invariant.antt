-- ===== src/Cluster/Invariant.antt =====
-- What the functions of cluster/params.go keep of the package's variables.
use ofgp_core.Base.{
  ℕ_eq, if◌then◌else◌, length, get_elem?, set, ℕ, zero, suc, ◌+◌, ◌-◌, ◌/◌, String, ◌≡◌, Bool,
  false, some, List, [], ◌∷◌, ◌++◌, arith, leb, Bool-cases, ◌==◌, length-append, get_elem?_inside,
  Holds-some, Holds->>=, Holds-if, refl, inl, inr, length-set, lt_of_get_elem?, ◌<◌, true, none,
}
use ofgp_core.Cluster.Defs.{
  Cluster, NodeInfo, update_quorums, add_node, set_normal, delete_node, new_secure_signer,
  recover_node,
}
use ofgp_core.Cluster.Quorum.{count}

abbrev pub is_normal_node : NodeInfo → Bool
is_normal_node node = node.is_normal

-- How many nodes are normal.
abbrev pub normal_count : List NodeInfo → ℕ
normal_count = count is_normal_node

-- The nodes are numbered from `i` on, in the order of the list.
abbrev pub NumberedFrom : ℕ → List NodeInfo → Type 0
NumberedFrom i [] = Unit {0}
NumberedFrom i (node ∷ nodes) = (node.id ≡ i) × NumberedFrom (suc i) nodes

-- The sizes are those of the node list, and the quorums those of the sizes.
pub record IsValid (c : Cluster) : Type 0 where
  pub counted : c.cluster_size ≡ normal_count c.node_list
  pub total : c.total_node_count ≡ length c.node_list
  pub numbered : NumberedFrom 0 c.node_list
  pub faulty : c.max_faulty_n ≡ (c.cluster_size - 1) / 3
  pub quorum : c.quorum_n ≡ c.cluster_size - c.max_faulty_n
  pub accuse_quorum : c.accuse_quorum_n ≡ c.max_faulty_n + 1

pub count-append {ℓ} :
    {A : Type ℓ} (p : A → Bool) (xs ys : List A) → count p (xs ++ ys) ≡ count p xs + count p ys
count-append p [] ys = omega arith
count-append p (x ∷ xs) ys = ground (arith, count-append p xs ys)

pub append-NumberedFrom :
    (i : ℕ) (nodes : List NodeInfo) (node : NodeInfo)
    → NumberedFrom i nodes
    → node.id ≡ i + length nodes
    → NumberedFrom i (nodes ++ node ∷ [])
append-NumberedFrom i [] node n e = (omega arith, tt)
append-NumberedFrom i (m ∷ nodes) node n e =
    (n.0, append-NumberedFrom (suc i) nodes node n.1 (omega arith))

-- A change of one node's status, which keeps its identifier.
abbrev pub with_normal : Bool → NodeInfo → NodeInfo
with_normal b node = record node { is_normal = b }

set-NumberedFrom :
    (i k : ℕ) (nodes : List NodeInfo) (b : Bool) (node : NodeInfo)
    → get_elem? nodes k ≡ some node
    → NumberedFrom i nodes
    → NumberedFrom i (set nodes k (with_normal b node))
set-NumberedFrom i k [] b node e n = tt
set-NumberedFrom i zero (m ∷ nodes) b node e n = (ground arith, n.1)
set-NumberedFrom i (suc k) (m ∷ nodes) b node e n =
    (n.0, set-NumberedFrom (suc i) k nodes b node e n.1)

-- Marking a normal node as gone takes one from the count, and the other way round.
pub normal_count-set :
    (k : ℕ) (nodes : List NodeInfo) (b : Bool) (node : NodeInfo)
    → get_elem? nodes k ≡ some node
    → normal_count (set nodes k (with_normal b node)) + (if node.is_normal then 1 else 0)
      ≡ normal_count nodes + (if b then 1 else 0)
normal_count-set k [] b node e = cc
normal_count-set zero (m ∷ nodes) b node e = ground arith
normal_count-set (suc k) (m ∷ nodes) b node e = ground (arith, normal_count-set k nodes b node e)

pub update_quorums-IsValid :
    (c : Cluster)
    → c.cluster_size ≡ normal_count c.node_list
    → c.total_node_count ≡ length c.node_list
    → NumberedFrom 0 c.node_list
    → IsValid (update_quorums c)
unfolding update_quorums
update_quorums-IsValid c h k n = record {
  counted = h;
  total = k;
  numbered = n;
  faulty = refl;
  quorum = refl;
  accuse_quorum = refl;
}

-- Adding a node keeps the variables consistent, unless its key is no hexadecimal text.
pub add_node-IsValid :
    (c d : Cluster) (host : String) (node_id : ℕ) (pubkey pubkey_hash : String)
    → IsValid c
    → add_node c host node_id pubkey pubkey_hash ≡ some d
    → IsValid d
unfolding add_node
add_node-IsValid c d host node_id pubkey pubkey_hash v e =
    Holds-some IsValid _
      (Holds-if IsValid (node_id == c.total_node_count) _ _
        (λ next. Holds->>= IsValid (new_secure_signer pubkey pubkey_hash) _ λ signer _.
          update_quorums-IsValid _ (rw count-append (omega (arith, v.counted)))
            (rw (length-append {0}) (omega (arith, v.total)))
            (append-NumberedFrom 0 c.node_list _ v.numbered (ground arith)))
        (λ _. v))
      e

-- The variables after a deletion of the node `node` at the place `k`.
abbrev pub deleted : Cluster → ℕ → NodeInfo → Cluster
deleted c k node =
    if node.is_normal
    then update_quorums (record c {
      node_list = set c.node_list k (with_normal false node);
      cluster_size = c.cluster_size - 1;
    })
    else c

pub delete_node_inside :
    (c : Cluster) (k : ℕ) (node : NodeInfo)
    → k < c.total_node_count
    → get_elem? c.node_list k ≡ some node
    → delete_node c k ≡ some (deleted c k node)
unfolding delete_node set_normal
delete_node_inside c k node h at = ground arith

deleted-IsValid :
    (c : Cluster) (k : ℕ) (node : NodeInfo)
    → IsValid c
    → get_elem? c.node_list k ≡ some node
    → IsValid (deleted c k node)
deleted-IsValid c k node v at = elim (Bool-cases node.is_normal) [
  | inl n ↦ rw n (
      update_quorums-IsValid _ (ground (arith, normal_count-set k c.node_list false node at))
        (omega (arith, v.total, length-set c.node_list k (with_normal false node)))
        (set-NumberedFrom 0 k c.node_list false node at v.numbered))
  | inr n ↦ rw n v
]

-- Deleting a node does not fail, whatever the number, and keeps the variables consistent.
pub delete_node-IsValid :
    (c : Cluster) (node_id : ℕ)
    → IsValid c
    → (d : Cluster) × (delete_node c node_id ≡ some d) × IsValid d
delete_node-IsValid c node_id v = elim (Bool-cases (leb c.total_node_count node_id)) [
  | inl e ↦ (c, outside e, v)
  | inr e ↦
      let (node, at) = get_elem?_inside c.node_list node_id (inside e) in
      (
        deleted c node_id node,
        delete_node_inside c node_id node (ground arith) at,
        deleted-IsValid c node_id node v at,
      )
]
  where
    outside : leb c.total_node_count node_id ≡ true → delete_node c node_id ≡ some c
    outside e = unfold delete_node in rw e

    inside : leb c.total_node_count node_id ≡ false → node_id < length c.node_list
    inside e = ground arith

-- The variables after a recovery of the node `node` at the place `k`.
abbrev pub recovered : Cluster → ℕ → NodeInfo → Cluster
recovered c k node = update_quorums (record c {
  node_list = set c.node_list k (with_normal true node);
  cluster_size = c.cluster_size + 1;
  cluster_snapshot = none;
})

pub recover_node_inside :
    (c : Cluster) (k : ℕ) (node : NodeInfo)
    → k < c.total_node_count
    → get_elem? c.node_list k ≡ some node
    → recover_node c k ≡ some (recovered c k node)
unfolding recover_node set_normal
recover_node_inside c k node h at = ground arith

-- Recovering a node that was deleted keeps the variables consistent.
pub recover_node-IsValid :
    (c : Cluster) (node_id : ℕ) (node : NodeInfo)
    → IsValid c
    → get_elem? c.node_list node_id ≡ some node
    → node.is_normal ≡ false
    → (d : Cluster) × (recover_node c node_id ≡ some d) × IsValid d
recover_node-IsValid c k node v at gone = (
  recovered c k node,
  recover_node_inside c k node (omega (arith, v.total, lt_of_get_elem? c.node_list k node at)) at,
  update_quorums-IsValid _ (ground (arith, normal_count-set k c.node_list true node at))
      (omega (arith, v.total, length-set c.node_list k (with_normal true node)))
      (set-NumberedFrom 0 k c.node_list true node at v.numbered),
)

-- Recovering a node that is normal counts it a second time: the size is then one more than the
-- number of normal nodes, whatever the node and the cluster.
pub recover_node_normal :
    (c : Cluster) (node_id : ℕ) (node : NodeInfo)
    → IsValid c
    → get_elem? c.node_list node_id ≡ some node
    → node.is_normal ≡ true
    → (d : Cluster) × (recover_node c node_id ≡ some d)
      × (d.cluster_size ≡ normal_count d.node_list + 1)
      × (¬ IsValid d)
recover_node_normal c k node v at normal = (
  recovered c k node,
  recover_node_inside c k node (omega (arith, v.total, lt_of_get_elem? c.node_list k node at)) at,
  over,
  λ w. absurd (omega (arith, over, w.counted)),
)
  where
    over : (recovered c k node).cluster_size ≡ normal_count (recovered c k node).node_list + 1
    over = unfold update_quorums in ground (arith, normal_count-set k c.node_list true node at)
