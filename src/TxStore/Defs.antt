-- ===== src/TxStore/Defs.antt =====
-- primitives/txstore.go: the state of the pool, and the validation of transactions against it.
-- Times and durations are in nanoseconds. `AddWatchedTx` puts one object into two maps; only the
-- times of the copy in the fresh map are ever read or reset, so two copies serve.
use ofgp_core.Base.{String_eq, if◌then◌else◌, Map, lookup, ℕ, ◌*◌, String, none, some, List}
use ofgp_core.Proto.Types.{Digest, WatchedTxInfo, Transaction}
use ofgp_core.Proto.Blocks.{watched_equal_to}
use ofgp_core.Proto.Feed.{tx_equal_to, update_id}

-- `txWithTimeMs`.
pub record TxWithTimeMs : Type 0 where
  pub tx : Transaction
  pub gen_ts : ℕ
  pub calc_overdue_ts : ℕ
  pub tx_waiting_tolerance : ℕ

-- The `WatchedTxInfo` of package primitives.
pub record WatchedTx : Type 0 where
  pub tx : WatchedTxInfo
  pub gen_ts : ℕ
  pub calc_overdue_ts : ℕ
  pub tx_waiting_tolerance : ℕ

pub record TxStore : Type 0 where
  pub tx_info_by_id : Map String TxWithTimeMs
  pub watched_tx_info : Map String WatchedTx
  pub fresh_watched_tx_info : Map String WatchedTx
  pub curr_term : ℕ

pub data Validity : Type 0 where
  not_exist valid invalid check_chain : Validity

abbrev pub second : ℕ
second = 1000000000

abbrev pub tx_waiting_tolerance_default : ℕ
tx_waiting_tolerance_default = 60 * second

abbrev pub max_tx_waiting_tolerance : ℕ
max_tx_waiting_tolerance = 300 * second

-- The constant `txWaitingTolerance`.
abbrev pub tx_waiting_tolerance_const : ℕ
tx_waiting_tolerance_const = 60 * 3 * second

abbrev pub new_watched : WatchedTxInfo → ℕ → WatchedTx
new_watched tx now = record {
  tx = tx;
  gen_ts = now;
  calc_overdue_ts = now;
  tx_waiting_tolerance = tx_waiting_tolerance_default;
}

-- `ValidateWatchedTx`.
unfoldable pub validate_watched_tx : TxStore → WatchedTxInfo → Validity
validate_watched_tx ts tx = elim (lookup tx.txid ts.watched_tx_info) [
  | none ↦ not_exist
  | some mem ↦ if watched_equal_to tx mem.tx then valid else invalid
]

module _ (sha256 : List ℕ → Digest) where
  -- `ValidateTx`, with the transaction, which the comparison with one of the pool gives its
  -- identifier anew. The pool's own has its identifier from `CreateInnerTx`.
  unfoldable pub validate_tx : TxStore → Transaction → Validity × Transaction
  validate_tx ts tx = elim (lookup tx.watched_tx.txid ts.tx_info_by_id) [
    | some mem ↦ (if tx_equal_to sha256 mem.tx tx then valid else invalid, update_id sha256 tx)
    | none ↦ (
      elim (lookup tx.watched_tx.txid ts.watched_tx_info) [
        | none ↦ not_exist
        | some watched ↦ if watched_equal_to watched.tx tx.watched_tx then check_chain else invalid
      ],
      tx,
    )
  ]
