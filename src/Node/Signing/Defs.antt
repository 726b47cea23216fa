-- ===== src/Node/Signing/Defs.antt =====
-- node/node_sign.go: the results that are collected for each transaction, what a failure undoes, and the
-- timeouts. Each message is handled as a whole, where Go starts a goroutine for it.
use Prim.Native.String.{slice, len}
use ofgp_core.Base.{
  ℕ_eq, String_eq, ltb, if◌then◌else◌, Map, is_some, lookup, insert, delete, ℕ, ◌+◌, ◌*◌, ◌/◌,
  String, Bool, false, not, ◌&&◌, none, some, [], ◌∷◌,
}
use ofgp_core.Proto.Types.{WatchedTxInfo, TxLookupEntry, SignTxRequest, SignedResult}
use ofgp_core.Proto.Blocks.{is_transfer_tx, is_distribution_tx}
use ofgp_core.Db.Defs.{Db, get_sign_msg, delete_sign_msg, mark_failed_sign_record}
use ofgp_core.TxStore.Defs.{TxStore, second}
use ofgp_core.TxStore.Pool.{add_fresh_watched_tx, delete_watched_tx}
use ofgp_core.Distribution.Defs.{ProposalManager, set_status, failed}

-- `done_time` is in nanoseconds, `init_time` in seconds.
pub record SignedResultCache : Type 0 where
  pub cache : Map ℕ SignedResult
  pub total_count : ℕ
  pub signed_count : ℕ
  pub err_cnt : ℕ
  pub done_time : ℕ
  pub init_time : ℕ
  pub done_flag : Bool

-- The parts of the node that signing changes. The pool is that of the proposals.
pub record Signing : Type 0 where
  pub db : Db
  pub caches : Map String SignedResultCache
  pub waiting_confirm_txs : Map String TxLookupEntry
  pub proposals : ProposalManager

abbrev pub with_ts : Signing → TxStore → Signing
with_ts s ts = record s { proposals = record s.proposals { ts = ts } }

unfoldable pub new_cache : ℕ → SignedResultCache
new_cache now = record {
  cache = [];
  total_count = 0;
  signed_count = 0;
  err_cnt = 0;
  done_time = 0;
  init_time = now / second;
  done_flag = false;
}

abbrev pub add_total_count : SignedResultCache → SignedResultCache
add_total_count c = record c { total_count = c.total_count + 1 }

abbrev pub add_signed : SignedResult → SignedResultCache → SignedResultCache
add_signed msg c = record c {
  cache = insert msg.node_id msg c.cache;
  signed_count = c.signed_count + 1;
}

abbrev pub add_err_cnt : SignedResultCache → SignedResultCache
add_err_cnt c = record c { err_cnt = c.err_cnt + 1 }

unfoldable pub has_tx_in_waitting : Signing → String → Bool
has_tx_in_waitting s sc_tx_id = is_some (lookup sc_tx_id s.waiting_confirm_txs)

-- `Txid[14:]`, behind "DistributionTx".
abbrev pub proposal_id_of : String → String
proposal_id_of txid = slice txid 14 (len txid)

unfoldable pub clear_on_fail : ℕ → Signing → SignTxRequest → Signing
unfolding is_transfer_tx is_distribution_tx has_tx_in_waitting
clear_on_fail now s req =
    let marked = record s {
      db = mark_failed_sign_record s.db tx.txid req.term;
      caches = delete tx.txid s.caches;
    } in
    if not (is_transfer_tx tx) && not (has_tx_in_waitting s tx.txid)
    then (let freed = record marked { db = delete_sign_msg marked.db tx.txid } in
        if is_distribution_tx tx
        then record freed { proposals = set_status freed.proposals (proposal_id_of tx.txid) failed }
        else with_ts freed (add_fresh_watched_tx now freed.proposals.ts freed.db tx))
    else with_ts marked (delete_watched_tx marked.proposals.ts tx.txid)
  where
    tx : WatchedTxInfo
    tx = req.watched_tx

-- The signing timeout in seconds, `defaultSignSucTimeout`, and the age at which a cache that is done goes.
abbrev pub sign_timeout : ℕ
sign_timeout = 15

abbrev pub cache_timeout : ℕ
cache_timeout = 15 * second

-- The ticker of `saveSignedResult`.
unfoldable pub clear_done : ℕ → Map String SignedResultCache → Map String SignedResultCache
clear_done now [] = []
clear_done now ((tx_id, cache) ∷ caches) =
    let rest = clear_done now caches in
    if cache.done_flag && ltb (cache.done_time + cache_timeout) now
    then rest
    else (tx_id, cache) ∷ rest

-- What `checkSignTimeout` does with the transaction of a cache that is not done in time.
unfoldable pub time_out : ℕ → Signing → String → Signing
unfolding is_transfer_tx has_tx_in_waitting
time_out now s sc_tx_id =
    let dropped = record s { caches = delete sc_tx_id s.caches } in
    elim (get_sign_msg s.db sc_tx_id) [
      | none ↦ dropped
      | some req ↦
          let freed = record dropped { db = delete_sign_msg s.db sc_tx_id } in
          if not (is_transfer_tx req.watched_tx)
          then if not (has_tx_in_waitting s sc_tx_id)
            then with_ts freed (add_fresh_watched_tx now freed.proposals.ts freed.db req.watched_tx)
            else dropped
          else with_ts freed (delete_watched_tx freed.proposals.ts sc_tx_id)
    ]

-- The loop of `checkSignTimeout` over the caches of its start.
unfoldable pub time_out_all : ℕ → Map String SignedResultCache → Signing → Signing
unfolding time_out
time_out_all now [] s = s
time_out_all now ((sc_tx_id, cache) ∷ caches) s = time_out_all now caches (
    if ltb (cache.init_time + sign_timeout) (now / second) && not cache.done_flag
    then time_out now s sc_tx_id
    else s)

unfoldable pub check_sign_timeout : ℕ → Signing → Signing
unfolding time_out_all
check_sign_timeout now s = time_out_all now s.caches s
