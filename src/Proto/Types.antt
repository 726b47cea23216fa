-- ===== src/Proto/Types.antt =====
-- The messages of proto/braft.proto, in the Go types that are generated from them.
-- An int32 or int64 is a natural number: terms, heights and node identifiers are refused below 0 by
-- node/msg_validation.go, amounts by the conversions from the chains. `[]byte` and a digest are
-- the list of their bytes; the digest that is nil is the empty one, which only the genesis block
-- has, as the identifier before its own.
use ofgp_core.Base.{Map, ℕ, String, Bool, Option, List}

-- `crypto.Digest256`, compared by `EqualTo`.
abbrev pub Digest : Type 0
Digest = List ℕ

pub record AddressInfo : Type 0 where
  pub address : String
  pub amount : ℕ

pub record WatchedTxInfo : Type 0 where
  pub txid : String
  pub amount : ℕ
  pub recharge_list : List AddressInfo
  pub from : String
  pub to : String
  pub fee : ℕ
  pub token_from : ℕ
  pub token_to : ℕ

pub record Transaction : Type 0 where
  pub id : Digest
  pub watched_tx : WatchedTxInfo
  pub newly_tx_id : String
  pub time : ℕ
  pub amount : ℕ

pub record TxLookupEntry : Type 0 where
  pub height : ℕ
  pub index : ℕ

pub record BchBlockHeader : Type 0 where
  pub height : ℕ
  pub block_id : Digest
  pub prev_id : Digest

pub data ReconfigType : Type 0 where
  join leave : ReconfigType

-- The vote of a joining node is passed on unread: its encoding stands for it.
pub record Reconfig : Type 0 where
  pub type : ReconfigType
  pub host : String
  pub node_id : ℕ
  pub pubkey : String
  pub vote : List ℕ

pub data BlockType : Type 0 where
  unknown genesis txs bch reconfig : BlockType

pub record Block : Type 0 where
  pub timestamp_ms : ℕ
  pub prev_block_id : Digest
  pub type : BlockType
  pub txs : List Transaction
  pub bch_block_header : Option BchBlockHeader
  pub reconfig : Option Reconfig
  pub id : Digest

pub record PrepareMsg : Type 0 where
  pub term : ℕ
  pub height : ℕ
  pub block_id : Digest
  pub node_id : ℕ
  pub sig : List ℕ

pub record CommitMsg : Type 0 where
  pub term : ℕ
  pub height : ℕ
  pub block_id : Digest
  pub node_id : ℕ
  pub sig : List ℕ

pub record Votie : Type 0 where
  pub term : ℕ
  pub height : ℕ
  pub block : Block
  pub prepares : Map ℕ PrepareMsg
  pub commits : Map ℕ CommitMsg

pub record Vote : Type 0 where
  pub term : ℕ
  pub votie : Votie
  pub node_id : ℕ
  pub sig : List ℕ

pub record InitMsg : Type 0 where
  pub term : ℕ
  pub height : ℕ
  pub block : Block
  pub node_id : ℕ
  pub votes : Map ℕ Vote
  pub sig : List ℕ

pub record BlockPack : Type 0 where
  pub init : InitMsg
  pub prepares : Map ℕ PrepareMsg
  pub commits : Map ℕ CommitMsg

pub record WeakAccuse : Type 0 where
  pub term : ℕ
  pub node_id : ℕ
  pub time : ℕ
  pub sig : List ℕ

pub record StrongAccuse : Type 0 where
  pub weak_accuses : Map ℕ WeakAccuse

pub record JoinRequest : Type 0 where
  pub host : String
  pub pubkey : String
  pub vote : Option Vote
  pub sig : List ℕ

pub record LeaveRequest : Type 0 where
  pub node_id : ℕ
  pub msg : String
  pub sig : List ℕ

pub record NewlyTx : Type 0 where
  pub payload : List ℕ
  pub amount : ℕ
  pub timestamp : ℕ

pub record SignTxRequest : Type 0 where
  pub term : ℕ
  pub node_id : ℕ
  pub multisig_address : String
  pub watched_tx : WatchedTxInfo
  pub newly_tx : NewlyTx
  pub sig : List ℕ
  pub time : ℕ

pub data CodeType : Type 0 where
  signed need_sync reject : CodeType

-- `data` holds a signature for each input of the transaction.
pub record SignedResult : Type 0 where
  pub code : CodeType
  pub node_id : ℕ
  pub tx_id : String
  pub to : String
  pub term : ℕ
  pub signatures : List (List ℕ)
  pub sig : List ℕ

pub record SyncUpResponse : Type 0 where
  pub commits : List BlockPack
  pub more : Bool
  pub fresh : Option BlockPack
  pub strong_accuse : Option StrongAccuse
