-- ===== src/TxStore/Pool.antt =====
-- primitives/txstore.go: the operations of the pool. The database is an argument, the time too, and a
-- lock has no state of its own; what `Run` does with a channel's message is the operation of the sender.
use ofgp_core.Base.{
  ℕ_eq, String_eq, bytes_Eq, ◌>>◌, leb, nat_eq, if◌then◌else◌, ◌==◌, get_elem?, Map, is_some,
  lookup, insert, delete, ◌>>=◌, assert_true, codes, hex_decode, ℕ, ◌+◌, ◌/◌, String, Bool, false,
  not, ◌&&◌, ◌||◌, Option, none, some, List, [], ◌∷◌,
}
use ofgp_core.Proto.Types.{Digest, WatchedTxInfo, Transaction, BlockPack}
use ofgp_core.Proto.Blocks.{is_distribution_tx, is_txs_block}
use ofgp_core.Proto.MsgIds.{block_pack_id, sign_msg_id}
use ofgp_core.Proto.Feed.{tx_id, update_id}
use ofgp_core.Db.Defs.{
  Db, get_commit_height, get_commit_by_height, set_tx_lookup_entry, get_tx_lookup_entry,
  set_tx_id_map, get_tx_id_by_sidechain_tx_id, get_sign_msg, is_sign_failed,
}
use ofgp_core.TxStore.Defs.{WatchedTx, TxStore, second, tx_waiting_tolerance_default, new_watched}

unfoldable pub has_tx_in_mem_pool : TxStore → String → Bool
has_tx_in_mem_pool ts sc_tx_id = is_some (lookup sc_tx_id ts.tx_info_by_id)

unfoldable pub has_tx_in_db : Db → String → Bool
unfolding get_tx_id_by_sidechain_tx_id
has_tx_in_db db sc_tx_id = is_some (get_tx_id_by_sidechain_tx_id db sc_tx_id)

unfoldable pub has_watched_tx : TxStore → Db → WatchedTxInfo → Bool
unfolding has_tx_in_db
has_watched_tx ts db tx =
    if not (tx.txid == "")
    then is_some (lookup tx.txid ts.watched_tx_info) && has_tx_in_db db tx.txid
    else false

-- `AddWatchedTx`.
unfoldable pub add_watched_tx : ℕ → TxStore → WatchedTxInfo → TxStore
unfolding is_distribution_tx
add_watched_tx now ts tx = if is_some (lookup tx.txid ts.watched_tx_info) then ts else record ts {
  watched_tx_info = insert tx.txid (new_watched tx now) ts.watched_tx_info;
  fresh_watched_tx_info =
      if is_distribution_tx tx
      then ts.fresh_watched_tx_info
      else insert tx.txid (new_watched tx now) ts.fresh_watched_tx_info;
}

-- What the message of `addFreshChan` does.
unfoldable pub add_fresh : ℕ → TxStore → WatchedTxInfo → TxStore
add_fresh now ts tx = record ts {
  fresh_watched_tx_info = insert tx.txid (new_watched tx now) ts.fresh_watched_tx_info;
}

-- `AddWatchedInfo`, with `none` for its errors.
unfoldable pub add_watched_info : ℕ → TxStore → Db → WatchedTxInfo → Option TxStore
unfolding has_tx_in_db
add_watched_info now ts db tx =
    if is_some (lookup tx.txid ts.watched_tx_info) || has_tx_in_db db tx.txid
    then none
    else some
        (record ts { watched_tx_info = insert tx.txid (new_watched tx now) ts.watched_tx_info })

unfoldable pub add_fresh_watched_tx : ℕ → TxStore → Db → WatchedTxInfo → TxStore
unfolding add_fresh has_tx_in_db has_tx_in_mem_pool
add_fresh_watched_tx now ts db tx =
    if has_tx_in_db db tx.txid || has_tx_in_mem_pool ts tx.txid then ts else add_fresh now ts tx

unfoldable pub watched_tx_to_fresh : ℕ → TxStore → String → TxStore
unfolding add_fresh
watched_tx_to_fresh now ts tx_id = elim (lookup tx_id ts.watched_tx_info) [
  | none ↦ ts
  | some watched ↦ add_fresh now ts watched.tx
]

-- The loop of `GetFreshWatchedTxs`: the transactions to process, and those to keep for the next term.
unfoldable pub sort_fresh :
    TxStore → Db → Map String WatchedTx → List WatchedTx × Map String WatchedTx
unfolding is_sign_failed is_distribution_tx has_tx_in_db has_tx_in_mem_pool
sort_fresh ts db [] = ([], [])
sort_fresh ts db ((k, v) ∷ m) =
    let rest = sort_fresh ts db m in
    if is_sign_failed db v.tx.txid ts.curr_term && not (is_distribution_tx v.tx)
    then (rest.0, insert v.tx.txid v rest.1)
    else if has_tx_in_db db v.tx.txid || has_tx_in_mem_pool ts v.tx.txid
    then rest
    else (v ∷ rest.0, rest.1)

unfoldable pub get_fresh_watched_txs : TxStore → Db → List WatchedTx × TxStore
unfolding sort_fresh
get_fresh_watched_txs ts db =
    let sorted = sort_fresh ts db ts.fresh_watched_tx_info in
    (sorted.0, record ts { fresh_watched_tx_info = sorted.1 })

unfoldable pub delete_fresh : TxStore → String → TxStore
delete_fresh ts tx_id = record ts { fresh_watched_tx_info = delete tx_id ts.fresh_watched_tx_info }

unfoldable pub delete_watched_tx : TxStore → String → TxStore
delete_watched_tx ts tx_id = record ts { watched_tx_info = delete tx_id ts.watched_tx_info }

-- The loop of `addTxs` from the index `idx`, with the indices that are not added.
unfoldable pub add_txs : ℕ → Db → ℕ → List Transaction → TxStore → TxStore × List ℕ
unfolding get_tx_lookup_entry has_tx_in_mem_pool
add_txs now db idx [] ts = (ts, [])
add_txs now db idx (tx ∷ txs) ts =
    if not (has_tx_in_mem_pool ts tx.watched_tx.txid)
      && not (is_some (get_tx_lookup_entry db tx.id))
    then add_txs now db (idx + 1) txs (record ts {
      tx_info_by_id =
          insert tx.watched_tx.txid
            (record {
              tx = tx;
              gen_ts = now;
              calc_overdue_ts = now;
              tx_waiting_tolerance = tx_waiting_tolerance_default;
            })
            ts.tx_info_by_id;
    })
    else (let rest = add_txs now db (idx + 1) txs ts in (rest.0, idx ∷ rest.1))

module _ (sha256 : List ℕ → Digest) where
  -- `now` is in nanoseconds, `Unix` in seconds.
  unfoldable pub create_inner_tx : ℕ → TxStore → Db → String → String → ℕ → TxStore
  unfolding get_sign_msg add_txs
  create_inner_tx now ts db newly_tx_id sign_msg_id amount = elim (get_sign_msg db sign_msg_id) [
    | none ↦ ts
    | some msg ↦
        (add_txs now db 0
          (update_id sha256 (record {
            id = [];
            watched_tx = msg.watched_tx;
            newly_tx_id = newly_tx_id;
            time = now / second;
            amount = if nat_eq amount 0 then msg.watched_tx.amount else amount;
          })
            ∷ [])
          (record ts {
            watched_tx_info = delete msg.watched_tx.txid ts.watched_tx_info;
            fresh_watched_tx_info = delete msg.watched_tx.txid ts.fresh_watched_tx_info;
          })).0
  ]

-- The loop of `cleanUpOnNewCommitted` from the index `idx`.
unfoldable pub clean_up_on_new_committed : ℕ → ℕ → List Transaction → TxStore × Db → TxStore × Db
unfolding set_tx_lookup_entry set_tx_id_map
clean_up_on_new_committed height idx [] s = s
clean_up_on_new_committed height idx (tx ∷ txs) (ts, db) =
    clean_up_on_new_committed height (idx + 1) txs (
      record ts {
        tx_info_by_id = delete tx.watched_tx.txid ts.tx_info_by_id;
        watched_tx_info = delete tx.watched_tx.txid ts.watched_tx_info;
        fresh_watched_tx_info = delete tx.watched_tx.txid ts.fresh_watched_tx_info;
      },
      set_tx_id_map
          (set_tx_id_map (set_tx_lookup_entry db tx.id (record { height = height; index = idx }))
            tx.watched_tx.txid tx.id)
          tx.newly_tx_id tx.id,
    )

-- `TxQueryResult`, without a block for a transaction of the pool, whose height is -1 in the code. The
-- `BlockID` is the identifier of the block pack.
pub record TxQueryResult : Type 0 where
  pub tx : Transaction
  pub at : Option (ℕ × Digest)

module _ (sha256 : List ℕ → Digest) where
  -- The lookup of a committed transaction, which `queryTxsInfo` and `GetTx` share. `none` is a panic,
  -- `some none` a nil result.
  unfoldable pub query_committed : Db → Digest → Option (Option TxQueryResult)
  unfolding get_tx_lookup_entry get_commit_height get_commit_by_height
  query_committed db tx_id = elim (get_tx_lookup_entry db tx_id) [
    | none ↦ some none
    | some entry ↦ do
      assert_true (elim (get_commit_height db) [ none ↦ false | some top ↦ leb entry.height top ])
      elim (get_commit_by_height db entry.height) [
        | none ↦ some none
        | some bp ↦ do
          tx ← get_elem? bp.init.block.txs entry.index
          some (some (record { tx = tx; at = some (entry.height, block_pack_id sha256 bp) }))
      ]
  ]

  -- `queryTxsInfo` at one identifier.
  unfoldable pub query_tx_info : TxStore → Db → String → Option (Option TxQueryResult)
  unfolding query_committed get_tx_id_by_sidechain_tx_id
  query_tx_info ts db sc_tx_id = elim (lookup sc_tx_id ts.tx_info_by_id) [
    | some value ↦ some (some (record { tx = value.tx; at = none }))
    | none ↦ elim (get_tx_id_by_sidechain_tx_id db sc_tx_id) [
      | none ↦ some none
      | some tx_id ↦ query_committed db tx_id
    ]
  ]

  unfoldable pub get_tx : Db → String → Option (Option TxQueryResult)
  unfolding query_committed get_tx_id_by_sidechain_tx_id
  get_tx db txid = elim (get_tx_id_by_sidechain_tx_id db txid) [
    | some tx_id ↦ query_committed db tx_id
    | none ↦ elim (hex_decode (codes txid)) [
      | none ↦ some none
      | some data_bytes ↦ query_committed db data_bytes
    ]
  ]

abbrev pub on_term_changed : TxStore → ℕ → TxStore
on_term_changed ts term = record ts { curr_term = term }

-- `OnNewBlockCommitted`, with what `Run` does with its message.
unfoldable pub on_new_block_committed : BlockPack → TxStore × Db → TxStore × Db
unfolding clean_up_on_new_committed
on_new_block_committed bp s =
    if is_txs_block bp then clean_up_on_new_committed bp.init.height 0 bp.init.block.txs s else s
