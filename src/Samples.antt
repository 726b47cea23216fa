-- ===== src/Samples.antt =====
-- The values that the tests of the modules share: a cluster of three nodes, a chain of a genesis block,
-- and blocks, messages and transactions above it.
use ofgp_core.Base.{ℕ_eq, ℕ, String, true, false, none, some, List, [], ◌∷◌}
use ofgp_core.Proto.Types.{
  Digest, WatchedTxInfo, Transaction, BlockType, Block, PrepareMsg, CommitMsg, InitMsg, BlockPack,
}
use ofgp_core.Proto.Blocks.{new_block_pack, block_id, to_votie}
use ofgp_core.Cluster.Defs.{Cluster}
use ofgp_core.Db.Defs.{Db}
use ofgp_core.BlockStore.Defs.{BlockStore}
use ofgp_core.TxStore.Defs.{TxStore, new_watched}
use ofgp_core.TxStore.Validate.{Watchers}

-- Any hash function will do: the first bytes of the input.
abbrev pub a_hash : List ℕ → Digest
a_hash (a ∷ b ∷ rest) = a ∷ b ∷ []
a_hash bs = bs

abbrev pub cluster : Cluster
cluster = record {
  cluster_size = 3;
  total_node_count = 3;
  quorum_n = 2;
  accuse_quorum_n = 1;
  max_faulty_n = 0;
  node_list = [];
  cluster_snapshot = none;
  node_signers = [];
  multi_sig_snapshot = [];
  curr_multi_sig = record {
    btc_address = "";
    btc_redeem_script = [];
    bch_address = "";
    bch_redeem_script = [];
  };
  init_node_height = 0;
}

abbrev pub block : BlockType → Digest → Digest → Block
block type prev id = record {
  timestamp_ms = 0;
  prev_block_id = prev;
  type = type;
  txs = [];
  bch_block_header = none;
  reconfig = none;
  id = id;
}

abbrev pub init_of : ℕ → ℕ → Block → InitMsg
init_of term height b = record {
  term = term;
  height = height;
  block = b;
  node_id = 0;
  votes = [];
  sig = [];
}

abbrev pub genesis_block : BlockPack
genesis_block = new_block_pack (init_of 0 0 (block BlockType.genesis [] (1 ∷ [])))

abbrev pub second_block : BlockPack
second_block = new_block_pack (init_of 0 1 (block BlockType.txs (1 ∷ []) (2 ∷ [])))

abbrev pub bch_block : BlockPack
bch_block = new_block_pack (init_of 0 1 (block BlockType.bch (1 ∷ []) (3 ∷ [])))

abbrev pub empty_db : Db
empty_db = record {
  term = none;
  last_term_accuse = none;
  weak_accuses = none;
  fresh = none;
  votie = none;
  commit_chain = [];
  commit_hs_by_ids = [];
  txs = [];
  tx_map = [];
  sign_msgs = [];
  sign_failed = [];
  join_node_info = none;
  leave_node_info = none;
}

-- What `InitDB` makes of it.
abbrev pub db : Db
db = record empty_db {
  term = some 0;
  votie = some (to_votie genesis_block);
  commit_chain = (0, genesis_block) ∷ [];
  commit_hs_by_ids = (1 ∷ [], 0) ∷ [];
}

abbrev pub prepare_by : ℕ → Digest → PrepareMsg
prepare_by n id = record { term = 0; height = 1; block_id = id; node_id = n; sig = [] }

abbrev pub commit_by : ℕ → Digest → CommitMsg
commit_by n id = record { term = 0; height = 1; block_id = id; node_id = n; sig = [] }

-- A block with the commit of the node 0, of the two that it needs, and with both.
abbrev pub one_commit : BlockPack → BlockPack
one_commit bp = record bp { commits = (0, commit_by 0 (block_id bp)) ∷ [] }

abbrev pub two_commits : BlockPack → BlockPack
two_commits bp = record bp {
  commits = (0, commit_by 0 (block_id bp)) ∷ (1, commit_by 1 (block_id bp)) ∷ [];
}

abbrev pub store : Db → BlockStore
store d = record { db = d; prepare_cache = []; commit_cache = [] }

abbrev pub in_round : BlockStore
in_round = store (record db { fresh = some (one_commit second_block) })

abbrev pub watched : String → WatchedTxInfo
watched id = record {
  txid = id;
  amount = 5;
  recharge_list = record { address = "a"; amount = 5 } ∷ [];
  from = "bch";
  to = "btc";
  fee = 1;
  token_from = 1;
  token_to = 2;
}

abbrev pub transaction : String → Transaction
transaction id = record {
  id = 7 ∷ [];
  watched_tx = watched id;
  newly_tx_id = "n";
  time = 0;
  amount = 5;
}

abbrev pub pool : TxStore
pool = record {
  tx_info_by_id = [];
  watched_tx_info = ("w", new_watched (watched "w") 0) ∷ [];
  fresh_watched_tx_info = ("w", new_watched (watched "w") 0) ∷ [];
  curr_term = 0;
}

abbrev pub watchers : Watchers
watchers = record {
  bch_tx = λ id. false;
  btc_tx = λ id. true;
  eth_event = λ id. none;
  xin_event = λ id. false;
  eos_event = λ id. false;
}
