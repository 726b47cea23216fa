-- ===== src/Cluster/Init.antt =====
-- cluster/params.go: `Init` and `InitWithNodeList`.
use ofgp_core.Base.{
  ℕ_eq, String_eq, ◌>>◌, if◌then◌else◌, ◌==◌, length, Map, insert, ◌>>=◌, assert_true, ℕ, ◌+◌,
  String, Bool, Option, some, List, [], ◌∷◌, ◌++◌,
}
use ofgp_core.Cluster.Defs.{
  Cluster, NodeInfo, SecureSigner, new_secure_signer, update_quorums, server_name,
}

-- What `Init` reads from the configuration for the node `i`.
pub record NodeConfig : Type 0 where
  pub key : String
  pub host : String
  pub status : Bool

pub record Config : Type 0 where
  pub nodes : List NodeConfig
  pub local_pubkey_hash : String
  pub local_id : ℕ

-- The entry of the node list that `Init` makes for the node `i`.
abbrev pub config_node : ℕ → NodeConfig → SecureSigner → NodeInfo
config_node i n signer = record {
  id = i;
  name = server_name i;
  url = n.host;
  public_key = signer.pubkey;
  is_normal = n.status;
}

-- The loop of `Init`, from the node `i` on.
unfoldable pub init_nodes :
    Config
    → ℕ
    → List NodeConfig
    → Map ℕ SecureSigner
    → List NodeInfo
    → Option (Map ℕ SecureSigner × List NodeInfo)
init_nodes cfg i [] signers nodes = some (signers, nodes)
init_nodes cfg i (n ∷ ns) signers nodes = do
  signer ← new_secure_signer n.key (if i == cfg.local_id then cfg.local_pubkey_hash else "")
  init_nodes cfg (i + 1) ns (insert i signer signers) (nodes ++ config_node i n signer ∷ [])

-- The count of nodes is that of the configuration, whatever their status.
unfoldable pub init : Cluster → Config → Option Cluster
unfolding init_nodes
init c cfg = do
  (signers, nodes) ← init_nodes cfg 0 cfg.nodes [] []
  some (
      update_quorums (record c {
        node_signers = signers;
        node_list = nodes;
        cluster_size = length cfg.nodes;
        total_node_count = length cfg.nodes;
      }))

-- A node of `pb.NodeList`.
pub record PbNode : Type 0 where
  pub node_id : ℕ
  pub name : List ℕ
  pub host : String
  pub pubkey : String
  pub is_normal : Bool

-- The entry of the node list that `InitWithNodeList` makes.
abbrev pub pb_node : PbNode → SecureSigner → NodeInfo
pb_node n signer = record {
  id = n.node_id;
  name = n.name;
  url = n.host;
  public_key = signer.pubkey;
  is_normal = n.is_normal;
}

-- The loop of `InitWithNodeList`: it adds to the node list and the size that are there.
unfoldable pub init_pb_nodes :
    ℕ
    → List PbNode
    → Map ℕ SecureSigner
    → List NodeInfo
    → ℕ
    → Option (Map ℕ SecureSigner × List NodeInfo × ℕ)
init_pb_nodes i [] signers nodes size = some (signers, nodes, size)
init_pb_nodes i (n ∷ ns) signers nodes size = do
  assert_true (i == n.node_id)
  signer ← new_secure_signer n.pubkey ""
  init_pb_nodes (i + 1) ns (insert i signer signers) (nodes ++ pb_node n signer ∷ [])
      (if n.is_normal then size + 1 else size)

unfoldable pub init_with_node_list : Cluster → List PbNode → Option Cluster
unfolding init_pb_nodes
init_with_node_list c pb_nodes = do
  (signers, nodes, size) ← init_pb_nodes 0 pb_nodes [] c.node_list c.cluster_size
  some (
      update_quorums (record c {
        node_signers = signers;
        node_list = nodes;
        cluster_size = size;
        total_node_count = length pb_nodes;
      }))
