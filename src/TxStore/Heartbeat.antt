-- ===== src/TxStore/Heartbeat.antt =====
-- primitives/txstore.go: the timeouts of the pool and `doHeartbeat`, which raises the event that makes
-- a node accuse its leader. The time is an argument.
use ofgp_core.Base.{
  ℕ_eq, String_eq, ltb, nat_eq, if◌then◌else◌, Map, is_some, lookup, delete, ℕ, ◌+◌, ◌*◌, String,
  Bool, true, false, not, ◌||◌, List, [], ◌∷◌,
}
use ofgp_core.Db.Defs.{Db, get_tx_id_by_sidechain_tx_id}
use ofgp_core.TxStore.Defs.{
  TxWithTimeMs, WatchedTx, TxStore, second, tx_waiting_tolerance_default, max_tx_waiting_tolerance,
  tx_waiting_tolerance_const,
}

abbrev pub tx_ttl : ℕ
tx_ttl = 10 * 60 * second

abbrev min_tolerance : ℕ → ℕ
min_tolerance t = if ltb max_tx_waiting_tolerance t then max_tx_waiting_tolerance else t

-- `txWithTimeMs.IsOverdue`, which reads the constant of the package, not the field.
unfoldable pub tx_is_overdue : ℕ → TxWithTimeMs → Bool
tx_is_overdue now t = ltb (t.calc_overdue_ts + tx_waiting_tolerance_const) now

unfoldable pub tx_reset_waiting_tolerance : ℕ → TxWithTimeMs → TxWithTimeMs
tx_reset_waiting_tolerance now t = record t {
  tx_waiting_tolerance = min_tolerance (2 * t.tx_waiting_tolerance);
  calc_overdue_ts = now;
}

unfoldable pub tx_is_outdate : ℕ → TxWithTimeMs → Bool
tx_is_outdate now t = ltb (t.gen_ts + tx_ttl) now

-- `WatchedTxInfo.isOverdue`; a tolerance of 0, which no code stores, is the default.
unfoldable pub watched_is_overdue : ℕ → WatchedTx → Bool
watched_is_overdue now t =
    ltb
      (t.calc_overdue_ts
        + (if nat_eq t.tx_waiting_tolerance 0
            then tx_waiting_tolerance_default
            else t.tx_waiting_tolerance))
      now

unfoldable pub watched_reset_waiting_tolerance : ℕ → WatchedTx → WatchedTx
watched_reset_waiting_tolerance now t = record t {
  tx_waiting_tolerance = min_tolerance (2 * t.tx_waiting_tolerance);
  calc_overdue_ts = now;
}

-- The first loop of `doHeartbeat`: the fresh transactions after it, the identifiers to delete from the
-- watched ones, and whether one is overdue.
unfoldable pub beat_fresh :
    ℕ
    → Db
    → Map String TxWithTimeMs
    → Map String WatchedTx
    → Map String WatchedTx × List String × Bool
unfolding watched_is_overdue watched_reset_waiting_tolerance get_tx_id_by_sidechain_tx_id
beat_fresh now db txs [] = ([], [], false)
beat_fresh now db txs ((id, t) ∷ m) =
    let rest = beat_fresh now db txs m in
    if not (watched_is_overdue now t)
    then ((id, t) ∷ rest.0, rest.1, rest.2)
    else if is_some (lookup id txs)
    then ((id, t) ∷ rest.0, rest.1, rest.2)
    else if is_some (get_tx_id_by_sidechain_tx_id db id)
    then (rest.0, id ∷ rest.1, rest.2)
    else ((id, watched_reset_waiting_tolerance now t) ∷ rest.0, rest.1, true)

-- The second loop.
unfoldable pub beat_txs : ℕ → Db → Map String TxWithTimeMs → Map String TxWithTimeMs × Bool
unfolding tx_is_overdue tx_reset_waiting_tolerance get_tx_id_by_sidechain_tx_id
beat_txs now db [] = ([], false)
beat_txs now db ((id, t) ∷ m) =
    let rest = beat_txs now db m in
    if not (tx_is_overdue now t)
    then ((id, t) ∷ rest.0, rest.1)
    else if is_some (get_tx_id_by_sidechain_tx_id db id)
    then rest
    else ((id, tx_reset_waiting_tolerance now t) ∷ rest.0, true)

unfoldable pub delete_all : List String → Map String WatchedTx → Map String WatchedTx
delete_all [] m = m
delete_all (id ∷ ids) m = delete_all ids (delete id m)

-- The new pool, and whether `TxOverdueEvent` is emitted.
unfoldable pub do_heartbeat : ℕ → Db → TxStore → TxStore × Bool
unfolding beat_fresh beat_txs delete_all
do_heartbeat now db ts =
    let fresh = beat_fresh now db ts.tx_info_by_id ts.fresh_watched_tx_info in
    let txs = beat_txs now db ts.tx_info_by_id in
    (
      record ts {
        tx_info_by_id = txs.0;
        watched_tx_info = delete_all fresh.1 ts.watched_tx_info;
        fresh_watched_tx_info = fresh.0;
      },
      txs.1 || fresh.2,
    )
