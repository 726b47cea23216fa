-- ===== src/Node/Sync/Defs.antt =====
-- node/sync_daemon.go: the two ways to apply a response. The federation's address is a parameter. The
-- events of the handlers come in the order in which they are raised; `none` is a panic.
use ofgp_core.Base.{
  ◌>>=◌, ℕ_eq, String_eq, bytes_Eq, ltb, if◌then◌else◌, Map, or_nil, codes, hex_decode, ℕ, ◌+◌,
  Bool, true, false, not, ◌&&◌, Option, none, some, List, [], ◌∷◌, ◌++◌,
}
use ofgp_core.Proto.Types.{
  Digest, Transaction, ReconfigType, Reconfig, BlockPack, StrongAccuse, SyncUpResponse, join, leave,
}
use ofgp_core.Proto.Blocks.{is_reconfig_block}
use ofgp_core.Cluster.Defs.{
  NodeInfo, MultiSigInfo, Cluster, server_name, add_node_info, is_node_exist, delete_node,
  set_curr_multi_sig,
}
use ofgp_core.Db.Defs.{
  Db, set_node_term, just_commit_it, get_commit_height, set_tx_lookup_entry, set_tx_id_map,
}
use ofgp_core.TxStore.Defs.{TxStore}
use ofgp_core.TxStore.Validate.{Watchers}
use ofgp_core.BlockStore.Defs.{BlockStore, Event, Outcome, new_committed}
use ofgp_core.BlockStore.Votes.{handle_prepare_msg, handle_commit_msg}
use ofgp_core.BlockStore.Init.{handle_init_msg}
use ofgp_core.BlockStore.Accuse.{handle_strong_accuse}
use ofgp_core.Node.Check.Result.{panics, rejected, accepted}
use ofgp_core.Node.Sync.Check.{check_block_pack}

-- The calls of a handler for each message, one after the other.
unfoldable pub each : {M : Type 0} → (BlockStore → M → Outcome) → List M → BlockStore → Outcome
each handle [] bs = some (bs, [])
each handle (msg ∷ msgs) bs = do
  (bs', events) ← handle bs msg
  (bs'', more) ← each handle msgs bs'
  some (bs'', events ++ more)

abbrev pub map_values : {M : Type 0} → Map ℕ M → List M
map_values [] = []
map_values ((k, v) ∷ m) = v ∷ map_values m

-- Without a block the height is -1.
abbrev above_height : Option ℕ → ℕ → Bool
above_height none height = true
above_height (some h) height = ltb h height

-- `SetTxLookupEntry` and `SetTxIdMap` for the transactions of a block from the index on.
unfoldable pub index_txs : ℕ → ℕ → List Transaction → Db → Db
unfolding set_tx_lookup_entry set_tx_id_map
index_txs height idx [] db = db
index_txs height idx (tx ∷ txs) db = index_txs height (idx + 1) txs (
    set_tx_id_map
      (set_tx_id_map (set_tx_lookup_entry db tx.id (record { height = height; index = idx }))
        tx.watched_tx.txid tx.id)
      tx.newly_tx_id tx.id)

-- The node of a reconfiguration block that joins. A key that is not hexadecimal is empty: the error
-- is ignored.
unfoldable pub joined_node : Reconfig → NodeInfo
unfolding server_name
joined_node r = record {
  id = r.node_id;
  name = server_name r.node_id;
  url = r.host;
  public_key = or_nil (hex_decode (codes r.pubkey));
  is_normal = true;
}

abbrev pub is_join_type : ReconfigType → Bool
is_join_type join = true
is_join_type leave = false

-- Every reconfiguration that is not the join of a new node deletes its node.
unfoldable pub apply_reconfig : (Cluster → MultiSigInfo) → Cluster → Reconfig → Option Cluster
unfolding joined_node is_node_exist
apply_reconfig federation_address c r = do
  c' ←
      if is_join_type r.type && not (is_node_exist c.node_list r.node_id)
      then some (add_node_info c (joined_node r))
      else delete_node c r.node_id
  some (set_curr_multi_sig c' (federation_address c'))

unfoldable pub simple_reconfig : (Cluster → MultiSigInfo) → Cluster → BlockPack → Option Cluster
unfolding apply_reconfig
simple_reconfig federation_address c bp =
    if is_reconfig_block bp && ltb c.init_node_height bp.init.height
    then (do r ← bp.init.block.reconfig; apply_reconfig federation_address c r)
    else some c

module _ (sha256 : List ℕ → Digest) (verify : List ℕ → Digest → List ℕ → Bool)
    (committed_cnt : Digest → ℕ) where
  -- The loop over the blocks of `processSyncUpResponse`, which ends at the first that is refused.
  unfoldable pub sync_commits : Cluster → ℕ → List BlockPack → Db → Option (Db × List Event)
  unfolding check_block_pack
  sync_commits c accuse_quorum_n [] db = some (db, [])
  sync_commits c accuse_quorum_n (bp ∷ bps) db =
      elim (check_block_pack sha256 verify committed_cnt c db accuse_quorum_n bp) [
        | panics ↦ none
        | rejected ↦ some (db, [])
        | accepted bp' ↦ do
          (db', events) ← sync_commits c accuse_quorum_n bps (just_commit_it db bp')
          some (db', new_committed bp' ∷ events)
      ]

  unfoldable pub sync_fresh : Cluster → TxStore → Watchers → Option BlockPack → BlockStore → Outcome
  unfolding each
  sync_fresh c ts w none bs = some (bs, [])
  sync_fresh c ts w (some fresh) bs =
      if above_height (get_commit_height bs.db) fresh.init.height
      then (do
        (bs₁, events₁) ← handle_init_msg sha256 c ts w bs fresh.init
        (bs₂, events₂) ← each (handle_prepare_msg c) (map_values fresh.prepares) bs₁
        (bs₃, events₃) ← each (handle_commit_msg c) (map_values fresh.commits) bs₂
        some (bs₃, events₁ ++ events₂ ++ events₃))
      else some (bs, [])

  unfoldable pub sync_accuse : Option StrongAccuse → BlockStore → Outcome
  sync_accuse none bs = some (bs, [])
  sync_accuse (some accuse) bs = handle_strong_accuse bs accuse

  unfoldable pub process_sync_up_response :
      Cluster → TxStore → Watchers → ℕ → BlockStore → SyncUpResponse → Outcome
  unfolding sync_commits sync_fresh sync_accuse
  process_sync_up_response c ts w accuse_quorum_n bs rsp = do
    (db, events) ← sync_commits c accuse_quorum_n rsp.commits bs.db
    (bs₁, events₁) ← sync_fresh c ts w rsp.fresh (record bs { db = db })
    (bs₂, events₂) ← sync_accuse rsp.strong_accuse bs₁
    some (bs₂, events ++ events₁ ++ events₂)

  -- A node that does not take part in the consensus also follows the reconfigurations, the terms and
  -- the transactions.
  unfoldable pub process_simple_sync_up_response :
      (Cluster → MultiSigInfo) → ℕ → List BlockPack → Cluster × Db → Option (Cluster × Db)
  unfolding check_block_pack simple_reconfig index_txs
  process_simple_sync_up_response federation_address accuse_quorum_n [] s = some s
  process_simple_sync_up_response federation_address accuse_quorum_n (bp ∷ bps) (c, db) =
      elim (check_block_pack sha256 verify committed_cnt c db accuse_quorum_n bp) [
        | panics ↦ none
        | rejected ↦ some (c, db)
        | accepted bp' ↦ do
          c' ← simple_reconfig federation_address c bp'
          db' ← set_node_term (just_commit_it db bp') bp'.init.term
          process_simple_sync_up_response federation_address accuse_quorum_n bps
              (c', index_txs bp'.init.height 0 bp'.init.block.txs db')
      ]
