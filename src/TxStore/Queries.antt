-- ===== src/TxStore/Queries.antt =====
-- primitives/txstore.go: a transaction of a committed block is found.
use ofgp_core.Base.{
  ℕ_eq, String_eq, bytes_Eq, bytes_eq_iff, get_elem?, All, Map, lookup, insert, lookup-insert, ℕ,
  zero, suc, ◌+◌, ◌≤◌, ◌≡◌, refl, ap, ◌∙◌, ◌≢◌, some, List, [], ◌∷◌, arith, le→leb,
  lookup-insert_self, subst,
}
use ofgp_core.Proto.Types.{Digest, Transaction, TxLookupEntry, BlockPack}
use ofgp_core.Proto.MsgIds.{block_pack_id}
use ofgp_core.Db.Defs.{
  Db, get_commit_height, get_commit_by_height, set_tx_lookup_entry, get_tx_lookup_entry,
  set_tx_id_map,
}
use ofgp_core.TxStore.Defs.{TxStore}
use ofgp_core.TxStore.Pool.{clean_up_on_new_committed, query_committed}

-- No transaction of the list has the identifier.
abbrev pub NotAmong : Digest → List Transaction → Type 0
NotAmong id = All (λ tx. tx.id ≢ id)

abbrev pub UniqueIds : List Transaction → Type 0
UniqueIds [] = Unit
UniqueIds (tx ∷ txs) = NotAmong tx.id txs × UniqueIds txs

other_key :
    (id other : Digest) (entry : TxLookupEntry) (m : Map Digest TxLookupEntry)
    → other ≢ id
    → lookup id (insert other entry m) ≡ lookup id m
other_key id other entry m n =
    rw (lookup-insert other id entry m) (ground (arith, bytes_eq_iff other id, n))

-- The block's other transactions do not touch the entry of one.
clean_up_keeps :
    (height idx : ℕ) (id : Digest) (txs : List Transaction) (ts : TxStore) (db : Db)
    → NotAmong id txs
    → lookup id (clean_up_on_new_committed height idx txs (ts, db)).1.txs ≡ lookup id db.txs
unfolding clean_up_on_new_committed set_tx_lookup_entry set_tx_id_map
clean_up_keeps height idx id [] ts db n = refl
clean_up_keeps height idx id (tx ∷ txs) ts db n =
    clean_up_keeps height (idx + 1) id txs _ _ n.1
    ∙ other_key id tx.id (record { height = height; index = idx }) db.txs n.0

clean_up_enters :
    (height idx i : ℕ) (tx : Transaction) (txs : List Transaction) (ts : TxStore) (db : Db)
    → UniqueIds txs
    → get_elem? txs i ≡ some tx
    → lookup tx.id (clean_up_on_new_committed height idx txs (ts, db)).1.txs
      ≡ some (record { height = height; index = idx + i })
unfolding clean_up_on_new_committed set_tx_lookup_entry set_tx_id_map
clean_up_enters height idx i tx [] ts db u e = ground arith
clean_up_enters height idx zero tx (t ∷ txs) ts db u e =
    subst
      (λ (z : Transaction).
        lookup z.id (clean_up_on_new_committed height idx (t ∷ txs) (ts, db)).1.txs
        ≡ some (record { height = height; index = idx + zero }))
      same
      (clean_up_keeps height (idx + 1) t.id txs _ _ u.0
        ∙ lookup-insert_self t.id (record { height = height; index = idx }) db.txs
        ∙ ap (λ n. some (record { height = height; index = n })) (omega arith))
  where
    same : t ≡ tx
    same = cc e
clean_up_enters height idx (suc i) tx (t ∷ txs) ts db u e =
    clean_up_enters height (idx + 1) i tx txs _ _ u.1 e
    ∙ ap (λ n. some (record { height = height; index = n })) (omega arith)

clean_up_same_chain :
    (height idx : ℕ) (txs : List Transaction) (ts : TxStore) (db : Db)
    → (clean_up_on_new_committed height idx txs (ts, db)).1.commit_chain ≡ db.commit_chain
unfolding clean_up_on_new_committed set_tx_lookup_entry set_tx_id_map
clean_up_same_chain height idx [] ts db = refl
clean_up_same_chain height idx (tx ∷ txs) ts db = clean_up_same_chain height (idx + 1) txs _ _

-- Where a block stands on the chain at a height, its transactions have different identifiers, and
-- `cleanUpOnNewCommitted` has been told of it, a query by the identifier of any of them finds that
-- transaction, with the height and the identifier of the whole block pack, and does not panic.
pub query_committed-clean_up :
    (sha256 : List ℕ → Digest) (height top i : ℕ) (bp : BlockPack) (tx : Transaction) (ts : TxStore)
    (db : Db)
    → UniqueIds bp.init.block.txs
    → get_commit_by_height db height ≡ some bp
    → get_commit_height db ≡ some top
    → height ≤ top
    → get_elem? bp.init.block.txs i ≡ some tx
    → query_committed sha256 (clean_up_on_new_committed height 0 bp.init.block.txs (ts, db)).1 tx.id
      ≡ some (some (record { tx = tx; at = some (height, block_pack_id sha256 bp) }))
unfolding query_committed get_tx_lookup_entry
query_committed-clean_up sha256 height top i bp tx ts db u found at_top below e =
    in_db (clean_up_on_new_committed height 0 bp.init.block.txs (ts, db)).1
      (clean_up_enters height 0 i tx bp.init.block.txs ts db u e
        ∙ ap (λ n. some (record { height = height; index = n })) (omega arith))
      (clean_up_same_chain height 0 bp.init.block.txs ts db)
  where
    in_db :
        (db' : Db)
        → lookup tx.id db'.txs ≡ some (record { height = height; index = i })
        → db'.commit_chain ≡ db.commit_chain
        → query_committed sha256 db' tx.id
          ≡ some (some (record { tx = tx; at = some (height, block_pack_id sha256 bp) }))
    in_db db' entry same =
        let h₁ : get_commit_height db' ≡ some top =
          unfold get_commit_height in rw same (unfold get_commit_height in at_top) in
        let h₂ : get_commit_by_height db' height ≡ some bp =
          unfold get_commit_by_height in rw same (unfold get_commit_by_height in found) in
        let inside = le→leb height top below in ground (arith, entry, h₁, h₂, e, inside)
