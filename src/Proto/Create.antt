-- ===== src/Proto/Create.antt =====
-- proto/pbtypes_ext.go: the functions that make blocks. A joining node's vote goes into the block in the
-- encoding that protobuf gives it.
use ofgp_core.Base.{ℕ, String, Option, none, some, List, []}
use ofgp_core.Proto.Types.{Digest, Transaction, Reconfig, BlockType, Block, join, leave}
use ofgp_core.Proto.Feed.{update_block_id}

module _ (sha256 : List ℕ → Digest) where
  unfoldable pub create_txs_block : ℕ → Digest → List Transaction → Option Block
  create_txs_block timestamp_ms prev_block_id txs = update_block_id sha256 (record {
    timestamp_ms = timestamp_ms;
    prev_block_id = prev_block_id;
    type = BlockType.txs;
    txs = txs;
    bch_block_header = none;
    reconfig = none;
    id = [];
  })

  unfoldable pub create_reconfig_block : ℕ → Digest → Reconfig → Option Block
  create_reconfig_block timestamp_ms prev_block_id r = update_block_id sha256 (record {
    timestamp_ms = timestamp_ms;
    prev_block_id = prev_block_id;
    type = BlockType.reconfig;
    txs = [];
    bch_block_header = none;
    reconfig = some r;
    id = [];
  })

  unfoldable pub create_join_reconfig_block :
      ℕ → Digest → String → ℕ → String → List ℕ → Option Block
  unfolding create_reconfig_block
  create_join_reconfig_block timestamp_ms prev_block_id host node_id pubkey vote =
      create_reconfig_block timestamp_ms prev_block_id
        (record { type = join; host = host; node_id = node_id; pubkey = pubkey; vote = vote })

  -- The host and the key are left at their zero values.
  unfoldable pub create_leave_reconfig_block : ℕ → Digest → ℕ → Option Block
  unfolding create_reconfig_block
  create_leave_reconfig_block timestamp_ms prev_block_id node_id =
      create_reconfig_block timestamp_ms prev_block_id
        (record { type = leave; host = ""; node_id = node_id; pubkey = ""; vote = [] })
