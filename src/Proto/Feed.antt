-- ===== src/Proto/Feed.antt =====
-- util/hash_utils.go and the `feed…Fields` functions of proto/pbtypes_ext.go. A hasher that is fed
-- is the list of the bytes fed to it: each function gives those that it adds.
use ofgp_core.Base.{
  if◌then◌else◌, bytes_eq, ◌>>=◌, codes, format_int, hex_encode, ℕ, String, Bool, Option, none,
  some, List, [], ◌∷◌, ◌++◌,
}
use ofgp_core.Proto.Types.{
  Block, Digest, AddressInfo, WatchedTxInfo, Transaction, BchBlockHeader, ReconfigType, Reconfig,
  BlockType, PrepareMsg, CommitMsg, WeakAccuse, join, leave, unknown, genesis, bch,
}
use ofgp_core.Proto.Blocks.{is_genesis}

-- `FeedField`, which `FeedTextField` and `FeedBinField` repeat: `<name body>`.
unfoldable pub feed_field : String → List ℕ → List ℕ
feed_field name body = (codes "<" ++ codes name ++ codes " ") ++ body ++ codes ">"

abbrev pub feed_text_field : String → String → List ℕ
feed_text_field name s = feed_field name (codes s)

abbrev pub feed_bin_field : String → List ℕ → List ℕ
feed_bin_field name bytes = feed_field name (hex_encode bytes)

-- `FeedInt32Field`, `FeedInt64Field` and `FeedTimestampField`.
abbrev pub feed_int_field : String → ℕ → List ℕ
feed_int_field name n = feed_field name (format_int n)

abbrev pub feed_digest_field : String → Digest → List ℕ
feed_digest_field name digest = feed_bin_field name digest

unfoldable pub feed_recharges : List AddressInfo → List ℕ
feed_recharges [] = []
feed_recharges (recharge ∷ rs) =
    feed_text_field "Address" recharge.address
    ++ feed_int_field "Amount" recharge.amount
    ++ feed_recharges rs

-- The list is fed only if it has an entry.
unfoldable pub feed_recharge_list : List AddressInfo → List ℕ
unfolding feed_recharges
feed_recharge_list [] = []
feed_recharge_list (recharge ∷ rs) = feed_field "Recharge" (feed_recharges (recharge ∷ rs))

unfoldable pub feed_tx_fields : String → Transaction → List ℕ
unfolding feed_recharge_list
feed_tx_fields name msg = feed_field name (
    feed_field "WatchedTx" (
      feed_text_field "Txid" tx.txid
      ++ feed_int_field "Amount" tx.amount
      ++ feed_text_field "From" tx.from
      ++ feed_text_field "To" tx.to
      ++ feed_recharge_list tx.recharge_list)
    ++ feed_text_field "NewlyTxId" msg.newly_tx_id)
  where
    tx : WatchedTxInfo
    tx = msg.watched_tx

unfoldable pub feed_bch_block_header_fields : String → BchBlockHeader → List ℕ
feed_bch_block_header_fields name header = feed_field name (
    feed_int_field "Height" header.height
    ++ feed_digest_field "BlockId" header.block_id
    ++ feed_digest_field "PrevId" header.prev_id)

abbrev pub reconfig_type_code : ReconfigType → ℕ
reconfig_type_code join = 0
reconfig_type_code leave = 1

-- Neither the public key nor the vote is fed.
unfoldable pub feed_reconfig_fields : String → Reconfig → List ℕ
feed_reconfig_fields name msg = feed_field name (
    feed_int_field "Type" (reconfig_type_code msg.type)
    ++ feed_text_field "Host" msg.host
    ++ feed_int_field "NodeId" msg.node_id)

unfoldable pub feed_prepare_msg_fields : String → PrepareMsg → List ℕ
feed_prepare_msg_fields name msg = feed_field name (
    feed_int_field "Term" msg.term
    ++ feed_int_field "Height" msg.height
    ++ feed_digest_field "BlockId" msg.block_id
    ++ feed_int_field "NodeId" msg.node_id)

unfoldable pub feed_commit_msg_fields : String → CommitMsg → List ℕ
feed_commit_msg_fields name msg = feed_field name (
    feed_int_field "Term" msg.term
    ++ feed_int_field "Height" msg.height
    ++ feed_digest_field "BlockId" msg.block_id
    ++ feed_int_field "NodeId" msg.node_id)

-- The time of the accuse is not fed.
unfoldable pub feed_weak_accuse_fields : String → WeakAccuse → List ℕ
feed_weak_accuse_fields name msg =
    feed_field name (feed_int_field "Term" msg.term ++ feed_int_field "NodeId" msg.node_id)

abbrev pub type_name : BlockType → String
type_name unknown = "UNKNOWN"
type_name genesis = "GENESIS"
type_name BlockType.txs = "TXS"
type_name bch = "BCH"
type_name BlockType.reconfig = "RECONFIG"

unfoldable pub feed_tx_ids : List Transaction → List ℕ
feed_tx_ids [] = []
feed_tx_ids (tx ∷ rest) = feed_digest_field "TxId" tx.id ++ feed_tx_ids rest

-- The identifiers, each the SHA-256 digest of a feed; the hash function is a parameter.
module _ (sha256 : List ℕ → Digest) where
  unfoldable pub tx_id : Transaction → Digest
  tx_id tx = sha256 (feed_tx_fields "Tx" tx)

  unfoldable pub header_id : BchBlockHeader → Digest
  header_id header = sha256 (feed_bch_block_header_fields "BchBlockHeader" header)

  unfoldable pub reconfig_id : Reconfig → Digest
  reconfig_id r = sha256 (feed_reconfig_fields "Reconfig" r)

  unfoldable pub prepare_msg_id : PrepareMsg → Digest
  prepare_msg_id msg = sha256 (feed_prepare_msg_fields "PrepareMsg" msg)

  unfoldable pub commit_msg_id : CommitMsg → Digest
  commit_msg_id msg = sha256 (feed_commit_msg_fields "CommitMsg" msg)

  unfoldable pub weak_accuse_id : WeakAccuse → Digest
  weak_accuse_id wa = sha256 (feed_weak_accuse_fields "WeakAccuse" wa)

  -- The part of `feedBlockFields` that depends on the type. A missing header or reconfiguration, which
  -- Go dereferences, and an unknown type are panics.
  unfoldable pub feed_block_body : BlockType → Block → Option (List ℕ)
  feed_block_body unknown block = none
  feed_block_body genesis block = some []
  feed_block_body BlockType.txs block = some (feed_field "TxIds" (feed_tx_ids block.txs))
  feed_block_body bch block = do
    header ← block.bch_block_header
    some (
        feed_field "TxIds" (feed_tx_ids block.txs)
        ++ feed_digest_field "BchBlockHeader" (header_id header))
  feed_block_body BlockType.reconfig block = do
    r ← block.reconfig
    some (feed_digest_field "ReconfigId" (reconfig_id r))

  unfoldable pub feed_block_fields : String → Block → Option (List ℕ)
  unfolding feed_block_body
  feed_block_fields name block = do
    body ← feed_block_body block.type block
    some (
        feed_field name (
          feed_int_field "TimestampMs" block.timestamp_ms
          ++ (if is_genesis block
              then []
              else feed_digest_field "PreviousBlockId" block.prev_block_id)
          ++ feed_text_field "Type" (type_name block.type)
          ++ body))

  -- `Transaction.UpdateId`.
  unfoldable pub update_id : Transaction → Transaction
  update_id tx = record tx { id = tx_id tx }

  -- What `Transaction.EqualTo` returns; it also gives both transactions their identifiers anew.
  unfoldable pub tx_equal_to : Transaction → Transaction → Bool
  tx_equal_to tx other = bytes_eq (tx_id tx) (tx_id other)

  unfoldable pub update_block_id : Block → Option Block
  update_block_id block = do
    feed ← feed_block_fields "Block" block
    some (record block { id = sha256 feed })
