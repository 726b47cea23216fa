-- ===== src/TxStore/Timeouts.antt =====
-- primitives/txstore.go: when the timeouts of the pool fire again.
use ofgp_core.Base.{ℕ_eq, ltb, if◌then◌else◌, ℕ, ◌+◌, ◌*◌, ◌<◌, ◌≡◌, refl, arith}
use ofgp_core.TxStore.Defs.{
  TxWithTimeMs, WatchedTx, max_tx_waiting_tolerance, tx_waiting_tolerance_const,
}
use ofgp_core.TxStore.Heartbeat.{
  tx_is_overdue, tx_reset_waiting_tolerance, watched_is_overdue, watched_reset_waiting_tolerance,
}

-- After a reset at `then_`, a watched transaction with a waiting time is overdue again once twice
-- that time has passed, five minutes at most; one of the gateway's own after three minutes,
-- whatever its waiting time, which `IsOverdue` does not read.
pub reset-is_overdue :
    (then_ now : ℕ) (w : WatchedTx) (t : TxWithTimeMs)
    → 0 < w.tx_waiting_tolerance
    → (watched_is_overdue now (watched_reset_waiting_tolerance then_ w) ≡ (
        if ltb (max_tx_waiting_tolerance) (2 * w.tx_waiting_tolerance)
        then ltb (then_ + max_tx_waiting_tolerance) now
        else ltb (then_ + 2 * w.tx_waiting_tolerance) now))
      × (tx_is_overdue now (tx_reset_waiting_tolerance then_ t)
          ≡ ltb (then_ + tx_waiting_tolerance_const) now)
unfolding watched_is_overdue watched_reset_waiting_tolerance tx_is_overdue
    tx_reset_waiting_tolerance
reset-is_overdue then_ now w t pos = (ground arith, refl)
