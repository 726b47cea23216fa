-- ===== src/TxStore/Committed.antt =====
-- primitives/txstore.go: what the commit of a block leaves of its transactions in the pool.
use ofgp_core.Base.{
  subst, sym, ◌≢◌, ℕ_eq, String_eq, bytes_Eq, beq_refl, All, Map, is_some, lookup, insert, delete,
  lookup-insert, lookup-insert_self, lookup-delete, ℕ, ◌+◌, String, ◌≡◌, refl, true, false, not,
  ◌&&◌, none, List, [], ◌∷◌, arith, if◌then◌else◌, Bool-cases, ◌==◌, inl, inr, Bool, ◌||◌,
}
use ofgp_core.Proto.Types.{Digest, Transaction}
use ofgp_core.Proto.Blocks.{is_distribution_tx}
use ofgp_core.Db.Defs.{
  Db, set_tx_lookup_entry, set_tx_id_map, get_tx_id_by_sidechain_tx_id, is_sign_failed,
}
use ofgp_core.TxStore.Defs.{WatchedTx, TxStore}
use ofgp_core.TxStore.Pool.{
  has_tx_in_mem_pool, has_tx_in_db, sort_fresh, get_fresh_watched_txs, clean_up_on_new_committed,
}

-- The identifier is in none of the three maps of the pool, and the database has it.
pub record IsDone (ts : TxStore) (db : Db) (txid : String) : Type 0 where
  pub tx : lookup txid ts.tx_info_by_id ≡ none
  pub watched : lookup txid ts.watched_tx_info ≡ none
  pub fresh : lookup txid ts.fresh_watched_tx_info ≡ none
  pub stored : is_some (lookup txid db.tx_map) ≡ true

delete_stays {ℓ} :
    {V : Type ℓ} (j k : String) (m : Map String V)
    → lookup k m ≡ none
    → lookup k (delete j m) ≡ none
delete_stays j k m e = rw (lookup-delete j k m) (ground (arith, e))

delete_gone {ℓ} : {V : Type ℓ} (k : String) (m : Map String V) → lookup k (delete k m) ≡ none
delete_gone k m = rw (lookup-delete k k m, beq_refl k) refl

insert_stays :
    (j k : String) (id : Digest) (m : Map String Digest)
    → is_some (lookup k m) ≡ true
    → is_some (lookup k (insert j id m)) ≡ true
insert_stays j k id m e = rw (lookup-insert j k id m) (ground (arith, e))

insert_there :
    (k : String) (id : Digest) (m : Map String Digest) → is_some (lookup k (insert k id m)) ≡ true
insert_there k id m = rw (lookup-insert_self k id m) refl

clean_up-IsDone :
    (height idx : ℕ) (txs : List Transaction) (ts : TxStore) (db : Db) (txid : String)
    → IsDone ts db txid
    → IsDone
        (clean_up_on_new_committed height idx txs (ts, db)).0
        (clean_up_on_new_committed height idx txs (ts, db)).1
        txid
unfolding clean_up_on_new_committed set_tx_lookup_entry set_tx_id_map
clean_up-IsDone height idx [] ts db txid d = d
clean_up-IsDone height idx (tx ∷ txs) ts db txid d =
    clean_up-IsDone height (idx + 1) txs _ _ txid record {
      tx = delete_stays tx.watched_tx.txid txid ts.tx_info_by_id d.tx;
      watched = delete_stays tx.watched_tx.txid txid ts.watched_tx_info d.watched;
      fresh = delete_stays tx.watched_tx.txid txid ts.fresh_watched_tx_info d.fresh;
      stored =
          insert_stays tx.newly_tx_id txid tx.id (insert tx.watched_tx.txid tx.id db.tx_map)
            (insert_stays tx.watched_tx.txid txid tx.id db.tx_map d.stored);
    }

-- After `cleanUpOnNewCommitted` every transaction of the block is out of the pool, watched, fresh and its
-- own, and the database knows its identifier.
pub clean_up_on_new_committed-IsDone :
    (height idx : ℕ) (txs : List Transaction) (ts : TxStore) (db : Db)
    → All
        (λ tx.
          IsDone
            (clean_up_on_new_committed height idx txs (ts, db)).0
            (clean_up_on_new_committed height idx txs (ts, db)).1
            tx.watched_tx.txid)
        txs
unfolding clean_up_on_new_committed set_tx_lookup_entry set_tx_id_map
clean_up_on_new_committed-IsDone height idx [] ts db = tt
clean_up_on_new_committed-IsDone height idx (tx ∷ txs) ts db = (
  clean_up-IsDone height (idx + 1) txs _ _ tx.watched_tx.txid record {
    tx = delete_gone tx.watched_tx.txid ts.tx_info_by_id;
    watched = delete_gone tx.watched_tx.txid ts.watched_tx_info;
    fresh = delete_gone tx.watched_tx.txid ts.fresh_watched_tx_info;
    stored =
        insert_stays tx.newly_tx_id tx.watched_tx.txid tx.id
          (insert tx.watched_tx.txid tx.id db.tx_map)
          (insert_there tx.watched_tx.txid tx.id db.tx_map);
  },
  clean_up_on_new_committed-IsDone height (idx + 1) txs _ _,
)

-- What `GetFreshWatchedTxs` hands out is neither in the database nor in the pool, and has not failed to be
-- signed in the term, unless it is a distribution.
abbrev pub IsToProcess : TxStore → Db → WatchedTx → Type 0
IsToProcess ts db v =
    (has_tx_in_db db v.tx.txid ≡ false)
    × (has_tx_in_mem_pool ts v.tx.txid ≡ false)
    × ((is_sign_failed db v.tx.txid ts.curr_term && not (is_distribution_tx v.tx)) ≡ false)

abbrev pub Failed : TxStore → Db → String × WatchedTx → Type 0
Failed ts db entry =
    (is_sign_failed db entry.1.tx.txid ts.curr_term && not (is_distribution_tx entry.1.tx)) ≡ true

insert-Failed :
    (ts : TxStore) (db : Db) (v : WatchedTx) (k : String) (m : Map String WatchedTx)
    → Failed ts db (k, v)
    → All (Failed ts db) m
    → All (Failed ts db) (insert k v m)
unfolding insert
insert-Failed ts db v k [] f a = (f, tt)
insert-Failed ts db v k ((j, w) ∷ m) f a = elim (Bool-cases (j == k)) [
  | inl e ↦ rw e (f, a.1)
  | inr n ↦ rw n (a.0, insert-Failed ts db v k m f a.1)
]

sort_fresh-IsToProcess :
    (ts : TxStore) (db : Db) (m : Map String WatchedTx)
    → All (IsToProcess ts db) (sort_fresh ts db m).0 × All (Failed ts db) (sort_fresh ts db m).1
unfolding sort_fresh
sort_fresh-IsToProcess ts db [] = (tt, tt)
sort_fresh-IsToProcess ts db ((k, v) ∷ m) =
    by_cases (is_sign_failed db v.tx.txid ts.curr_term && not (is_distribution_tx v.tx)) refl
      (has_tx_in_db db v.tx.txid) refl (has_tx_in_mem_pool ts v.tx.txid) refl (sort_fresh ts db m)
      (sort_fresh-IsToProcess ts db m)
  where
    by_cases :
        (failed : Bool)
        → (is_sign_failed db v.tx.txid ts.curr_term && not (is_distribution_tx v.tx)) ≡ failed
        → (in_db : Bool) → has_tx_in_db db v.tx.txid ≡ in_db
        → (in_pool : Bool) → has_tx_in_mem_pool ts v.tx.txid ≡ in_pool
        → (rest : List WatchedTx × Map String WatchedTx)
        → (All (IsToProcess ts db) rest.0 × All (Failed ts db) rest.1)
        → (All
              (IsToProcess ts db)
              (if failed
                then (rest.0, insert v.tx.txid v rest.1)
                else if in_db || in_pool
                then rest
                else (v ∷ rest.0, rest.1)).0
            × All
                (Failed ts db)
                (if failed
                  then (rest.0, insert v.tx.txid v rest.1)
                  else if in_db || in_pool
                  then rest
                  else (v ∷ rest.0, rest.1)).1)
    by_cases true f in_db d in_pool p rest ih =
        (ih.0, insert-Failed ts db v v.tx.txid rest.1 f ih.1)
    by_cases false f true d in_pool p rest ih = ih
    by_cases false f false d true p rest ih = ih
    by_cases false f false d false p rest ih = (((d, p, f), ih.0), ih.1)

-- `GetFreshWatchedTxs` hands out transactions that still are to be processed, once: it keeps only those
-- whose signature failed in the term.
pub get_fresh_watched_txs-IsToProcess :
    (ts : TxStore) (db : Db)
    → All (IsToProcess ts db) (get_fresh_watched_txs ts db).0
      × All (Failed ts db) (get_fresh_watched_txs ts db).1.fresh_watched_tx_info
unfolding get_fresh_watched_txs
get_fresh_watched_txs-IsToProcess ts db = sort_fresh-IsToProcess ts db ts.fresh_watched_tx_info

-- The database knows the identifier.
abbrev IsStored : Db → String → Type 0
IsStored db txid = is_some (lookup txid db.tx_map) ≡ true

not_among :
    (ts : TxStore) (db : Db) (txid : String) (vs : List WatchedTx)
    → IsStored db txid
    → All (IsToProcess ts db) vs
    → All (λ v. v.tx.txid ≢ txid) vs
not_among ts db txid [] d p = tt
not_among ts db txid (v ∷ vs) d p = (differs v p.0, not_among ts db txid vs d p.1)
  where
    differs : (v : WatchedTx) → IsToProcess ts db v → v.tx.txid ≢ txid
    differs v q e =
        unfold has_tx_in_db get_tx_id_by_sidechain_tx_id in
        ground (arith, subst (λ (x : String). is_some (lookup x db.tx_map) ≡ true) (sym e) d, q.0)

-- Once a block has been cleaned up after, no transaction of it is handed out again to be processed from
-- that database, whatever has come into the pool since, by `AddWatchedTx` for instance, which takes a
-- transaction in without asking the database.
pub clean_up_on_new_committed-never_again :
    (height : ℕ) (txs : List Transaction) (ts later : TxStore) (db : Db)
    → All
        (λ tx.
          All
            (λ v. v.tx.txid ≢ tx.watched_tx.txid)
            (get_fresh_watched_txs later (clean_up_on_new_committed height 0 txs (ts, db)).1).0)
        txs
clean_up_on_new_committed-never_again height txs ts later db =
    each txs (clean_up_on_new_committed-IsDone height 0 txs ts db)
  where
    pool' : TxStore
    pool' = (clean_up_on_new_committed height 0 txs (ts, db)).0

    db' : Db
    db' = (clean_up_on_new_committed height 0 txs (ts, db)).1

    each :
        (those : List Transaction)
        → All (λ tx. IsDone pool' db' tx.watched_tx.txid) those
        → All
            (λ tx. All (λ v. v.tx.txid ≢ tx.watched_tx.txid) (get_fresh_watched_txs later db').0)
            those
    each [] d = tt
    each (tx ∷ those) d = (
      not_among later db' tx.watched_tx.txid (get_fresh_watched_txs later db').0 d.0.stored
          (get_fresh_watched_txs-IsToProcess later db').0,
      each those d.1,
    )
