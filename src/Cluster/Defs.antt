-- ===== src/Cluster/Defs.antt =====
-- cluster/cluster.go, and the functions of cluster/params.go that change the node list.
use ofgp_core.Base.{
  ℕ_eq, String_eq, bytes_Eq, ℕ, ◌+◌, ◌-◌, ◌/◌, String, Bool, true, false, ◌&&◌, ◌||◌, List, [], ◌∷◌,
  ◌++◌, Option, none, some, Map, insert, get_elem?, set, leb, ◌==◌, if◌then◌else◌, codes,
  format_int, hex_decode, hex_encode, ◌>>=◌,
}

pub record NodeInfo : Type 0 where
  pub id : ℕ
  pub name : List ℕ
  pub url : String
  pub public_key : List ℕ
  pub is_normal : Bool

pub record MultiSigInfo : Type 0 where
  pub btc_address : String
  pub btc_redeem_script : List ℕ
  pub bch_address : String
  pub bch_redeem_script : List ℕ

-- `MultiSigInfo.Equal`.
unfoldable pub equal : MultiSigInfo → MultiSigInfo → Bool
equal ms other =
    ms.bch_address == other.bch_address
    && ms.bch_redeem_script == other.bch_redeem_script
    && ms.btc_address == other.btc_address
    && ms.btc_redeem_script == other.btc_redeem_script

pub record Snapshot : Type 0 where
  pub node_list : List NodeInfo
  pub cluster_size : ℕ
  pub total_node_count : ℕ
  pub quorum_n : ℕ
  pub accuse_quorum_n : ℕ

-- The part of crypto.SecureSigner that the package reads.
pub record SecureSigner : Type 0 where
  pub pubkey : List ℕ
  pub pub_key_hex : String
  pub pubkey_hash : String

-- `crypto.NewSecureSigner`: a text that is not hexadecimal is a panic.
unfoldable pub new_secure_signer : String → String → Option SecureSigner
new_secure_signer pubkey_hex pubkey_hash = do
  bytes ← hex_decode (codes pubkey_hex)
  some (record { pubkey = bytes; pub_key_hex = pubkey_hex; pubkey_hash = pubkey_hash })

pub record Cluster : Type 0 where
  pub cluster_size : ℕ
  pub total_node_count : ℕ
  pub quorum_n : ℕ
  pub accuse_quorum_n : ℕ
  pub max_faulty_n : ℕ
  pub node_list : List NodeInfo
  pub cluster_snapshot : Option Snapshot
  pub node_signers : Map ℕ SecureSigner
  pub multi_sig_snapshot : List MultiSigInfo
  pub curr_multi_sig : MultiSigInfo
  pub init_node_height : ℕ

-- The three assignments that end `Init`, `InitWithNodeList`, `AddNode`, `DeleteNode` and
-- `RecoverNode`. Go's division truncates, so that it is 0 at an empty cluster, as here.
unfoldable pub update_quorums : Cluster → Cluster
update_quorums c =
    let f = (c.cluster_size - 1) / 3 in
    record c { max_faulty_n = f; quorum_n = c.cluster_size - f; accuse_quorum_n = f + 1 }

-- `fmt.Sprintf("server%d", id)`.
unfoldable pub server_name : ℕ → List ℕ
server_name id = codes "server" ++ format_int id

unfoldable pub add_node : Cluster → String → ℕ → String → String → Option Cluster
add_node c host node_id pubkey pubkey_hash =
    if node_id == c.total_node_count
    then (do
      signer ← new_secure_signer pubkey pubkey_hash
      some (
          update_quorums (record c {
            node_list =
                c.node_list
                ++ record {
                  id = node_id;
                  name = server_name node_id;
                  url = host;
                  public_key = signer.pubkey;
                  is_normal = true;
                }
                  ∷ [];
            node_signers = insert node_id signer c.node_signers;
            cluster_size = c.cluster_size + 1;
            total_node_count = c.total_node_count + 1;
          })))
    else some c

-- `AddNodeInfo` sets the quorum by another formula than the other functions.
unfoldable pub add_node_info : Cluster → NodeInfo → Cluster
add_node_info c node_info =
    let size = c.cluster_size + 1 in
    let f = (size - 1) / 3 in
    record c {
      node_list = c.node_list ++ node_info ∷ [];
      cluster_size = size;
      total_node_count = c.total_node_count + 1;
      max_faulty_n = f;
      quorum_n = (size + f) / 2 + 1;
      accuse_quorum_n = f + 1;
    }

-- `IsNodeExist`, the loop over the node list.
unfoldable pub is_node_exist : List NodeInfo → ℕ → Bool
is_node_exist [] node_id = false
is_node_exist (node ∷ nodes) node_id = node.id == node_id || is_node_exist nodes node_id

-- `node_list[i].IsNormal = b`.
unfoldable pub set_normal : List NodeInfo → ℕ → Bool → Option (List NodeInfo)
set_normal nodes i b = do
  node ← get_elem? nodes i
  some (set nodes i (record node { is_normal = b }))

-- An index out of the node list, which `TotalNodeCount` should rule out, is a panic.
unfoldable pub delete_node : Cluster → ℕ → Option Cluster
delete_node c node_id = if leb c.total_node_count node_id then some c else do
  node ← get_elem? c.node_list node_id
  nodes ← set_normal c.node_list node_id false
  some (
      if node.is_normal
      then update_quorums (record c { node_list = nodes; cluster_size = c.cluster_size - 1 })
      else c)

unfoldable pub recover_node : Cluster → ℕ → Option Cluster
recover_node c node_id = if leb c.total_node_count node_id then some c else do
  nodes ← set_normal c.node_list node_id true
  some (
      update_quorums (record c {
        node_list = nodes;
        cluster_size = c.cluster_size + 1;
        cluster_snapshot = none;
      }))

-- `GetPubkeyList`.
unfoldable pub get_pubkey_list : List NodeInfo → List (List ℕ)
get_pubkey_list [] = []
get_pubkey_list (node ∷ nodes) =
    let rest = get_pubkey_list nodes in
    if node.is_normal then hex_encode node.public_key ∷ rest else rest

-- `GetLatestSigInfo`, with `none` for its error on an empty list.
unfoldable pub get_latest_sig_info : List MultiSigInfo → Option MultiSigInfo
get_latest_sig_info [] = none
get_latest_sig_info (m ∷ []) = some m
get_latest_sig_info (m ∷ n ∷ ms) = get_latest_sig_info (n ∷ ms)

unfoldable pub add_multi_sig_info : Cluster → MultiSigInfo → Cluster
add_multi_sig_info c multi_sig = elim (get_latest_sig_info c.multi_sig_snapshot) [
  | none ↦ record c { multi_sig_snapshot = c.multi_sig_snapshot ++ multi_sig ∷ [] }
  | some last ↦
      if equal last multi_sig
      then c
      else record c { multi_sig_snapshot = c.multi_sig_snapshot ++ multi_sig ∷ [] }
]

unfoldable pub get_snapshot : Cluster → Snapshot
get_snapshot c = record {
  node_list = c.node_list;
  cluster_size = c.cluster_size;
  total_node_count = c.total_node_count;
  quorum_n = c.quorum_n;
  accuse_quorum_n = c.accuse_quorum_n;
}

-- `CreateSnapShot`, which keeps the snapshot too.
unfoldable pub create_snap_shot : Cluster → Cluster
create_snap_shot c = record c { cluster_snapshot = some (get_snapshot c) }

-- `SetMultiSigSnapshot`, `SetCurrMultiSig`, `DelSnapShot` and `SetInitNodeHeight`.
abbrev pub set_multi_sig_snapshot : Cluster → List MultiSigInfo → Cluster
set_multi_sig_snapshot c snapshot = record c { multi_sig_snapshot = snapshot }

abbrev pub set_curr_multi_sig : Cluster → MultiSigInfo → Cluster
set_curr_multi_sig c multi_sig = record c { curr_multi_sig = multi_sig }

abbrev pub del_snap_shot : Cluster → Cluster
del_snap_shot c = record c { cluster_snapshot = none }

abbrev pub set_init_node_height : Cluster → ℕ → Cluster
set_init_node_height c height = record c { init_node_height = height }
