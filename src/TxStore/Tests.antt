-- ===== src/TxStore/Tests.antt =====
-- The theorems about primitives/txstore.go and `validateTxs` at concrete inputs.
use ofgp_core.Samples.{
  a_hash, db, watched, transaction, pool, watchers, block, init_of, genesis_block,
}
use ofgp_core.Proto.Types.{BlockType, BlockPack}
use ofgp_core.Base.{
  ℕ_eq, String_eq, bytes_Eq, All, lookup, ◌≡◌, refl, ◌↔◌, ◌⊎◌, ◌≢◌, some, [], ◌∷◌, arith,
}
use ofgp_core.Proto.MsgIds.{block_pack_id}
use ofgp_core.Proto.Blocks.{watched_equal_to, is_distribution_tx, new_block_pack}
use ofgp_core.Db.Defs.{
  Db, get_tx_id_by_sidechain_tx_id, is_sign_failed, get_commit_height, get_commit_by_height,
}
use ofgp_core.TxStore.Pool.{
  has_tx_in_mem_pool, has_tx_in_db, add_watched_tx, sort_fresh, get_fresh_watched_txs,
  clean_up_on_new_committed, query_committed,
}
use ofgp_core.TxStore.Queries.{query_committed-clean_up}
use ofgp_core.TxStore.Validate.{
  check_on_chain, check_all_on_chain, after_verdict, finish, validate_in_pool, validate_txs, InPool,
  OnChain,
}
use ofgp_core.TxStore.Accepted.{verdict, validate_txs-valid}
use ofgp_core.TxStore.Committed.{
  IsDone, clean_up_on_new_committed-IsDone, clean_up_on_new_committed-never_again, IsToProcess,
  Failed, get_fresh_watched_txs-IsToProcess,
}
use ofgp_core.TxStore.Defs.{
  TxWithTimeMs, TxStore, tx_waiting_tolerance_default, new_watched, validate_tx, valid,
}

validate_txs-valid_example :
    (verdict (validate_txs a_hash pool watchers (transaction "w" ∷ [])) ≡ some valid)
    ↔ All (λ tx. InPool a_hash pool tx ⊎ OnChain pool watchers tx) (transaction "w" ∷ [])
validate_txs-valid_example = validate_txs-valid a_hash pool watchers (transaction "w" ∷ [])

validates : verdict (validate_txs a_hash pool watchers (transaction "w" ∷ [])) ≡ some valid
unfolding validate_txs validate_in_pool after_verdict finish check_all_on_chain check_on_chain
    validate_tx lookup watched_equal_to
validates = refl

abbrev cleaned : TxStore × Db
cleaned = clean_up_on_new_committed 1 0 (transaction "w" ∷ []) (pool, db)

clean_up_on_new_committed-IsDone_example :
    All (λ tx. IsDone cleaned.0 cleaned.1 tx.watched_tx.txid) (transaction "w" ∷ [])
clean_up_on_new_committed-IsDone_example =
    clean_up_on_new_committed-IsDone 1 0 (transaction "w" ∷ []) pool db

-- `AddWatchedTx` takes the transaction in again.
abbrev again : TxStore
again = add_watched_tx 9 cleaned.0 (watched "w")

clean_up_on_new_committed-never_again_example :
    All
      (λ tx. All (λ v. v.tx.txid ≢ tx.watched_tx.txid) (get_fresh_watched_txs again cleaned.1).0)
      (transaction "w" ∷ [])
clean_up_on_new_committed-never_again_example =
    clean_up_on_new_committed-never_again 1 (transaction "w" ∷ []) pool again db

get_fresh_watched_txs-IsToProcess_example :
    All (IsToProcess pool db) (get_fresh_watched_txs pool db).0
    × All (Failed pool db) (get_fresh_watched_txs pool db).1.fresh_watched_tx_info
get_fresh_watched_txs-IsToProcess_example = get_fresh_watched_txs-IsToProcess pool db

hands_out : (get_fresh_watched_txs pool db).0 ≡ new_watched (watched "w") 0 ∷ []
unfolding get_fresh_watched_txs sort_fresh is_sign_failed has_tx_in_db has_tx_in_mem_pool
    get_tx_id_by_sidechain_tx_id lookup is_distribution_tx
hands_out = refl

abbrev own : TxWithTimeMs
own = record {
  tx = transaction "w";
  gen_ts = 0;
  calc_overdue_ts = 0;
  tx_waiting_tolerance = tx_waiting_tolerance_default;
}

-- A chain whose second block holds the transaction.
abbrev paid : BlockPack
paid =
    new_block_pack
      (init_of 0 1 (record (block BlockType.txs (1 ∷ []) (2 ∷ [])) { txs = transaction "w" ∷ [] }))

abbrev paid_db : Db
paid_db = record db { commit_chain = (1, paid) ∷ (0, genesis_block) ∷ [] }

query_committed-clean_up_example :
    query_committed a_hash
      (clean_up_on_new_committed 1 0 (transaction "w" ∷ []) (pool, paid_db)).1
      (7 ∷ [])
    ≡ some (some (record { tx = transaction "w"; at = some (1, block_pack_id a_hash paid) }))
query_committed-clean_up_example =
    query_committed-clean_up a_hash 1 1 0 paid (transaction "w") pool paid_db (tt, tt)
      (unfold get_commit_by_height lookup in refl) (unfold get_commit_height in refl) (omega arith)
      refl
