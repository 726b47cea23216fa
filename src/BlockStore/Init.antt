-- ===== src/BlockStore/Init.antt =====
-- primitives/blockstore.go: `handleInitMsg`, which starts the consensus on a block.
use ofgp_core.Base.{
  ℕ_eq, String_eq, bytes_Eq, ltb, leb, nat_eq, if◌then◌else◌, length, Map, lookup, insert, delete,
  ◌>>=◌, ℕ, Bool, true, false, not, ◌&&◌, Option, none, some, List, [], ◌∷◌, ◌++◌, or_nil,
}
use ofgp_core.Proto.Types.{Block, Digest, PrepareMsg, CommitMsg, InitMsg, BlockPack}
use ofgp_core.Proto.Blocks.{new_block_pack, block_id}
use ofgp_core.Cluster.Defs.{Cluster}
use ofgp_core.Db.Defs.{
  Db, set_node_term, get_node_term, set_last_term_accuse, set_weak_accuses, set_fresh,
  get_commit_top, next_height, is_committed, is_connecting_top,
}
use ofgp_core.TxStore.Defs.{TxStore, Validity, not_exist, valid}
use ofgp_core.TxStore.Validate.{Watchers, validate_txs}
use ofgp_core.BlockStore.Defs.{
  BlockStore, Event, Outcome, handle_wrong_height_progress_msg, is_init_supported_by_votes,
  check_reconfig_block, init_msg, need_sync_up, new_inited, new_term, new_weak_accuse,
}

-- `updateNodeTermWithInit`.
unfoldable pub update_node_term_with_init :
    Cluster → Db → List Event → InitMsg → Option (Bool × Db × List Event)
update_node_term_with_init c db tasks init = do
  term ← get_node_term db
  if leb init.term term
      then some (false, db, tasks)
      else if ltb (length init.votes) c.quorum_n
      then some (false, db, tasks)
      else (do
        db' ← set_node_term db init.term
        some (
          true,
          set_fresh (set_weak_accuses (set_last_term_accuse db' none) none) none,
          tasks ++ new_term init.term ∷ [],
        ))

-- The messages that wait in a cache for a block of the term and height.
unfoldable pub cached {ℓ} : {M : Type ℓ} → ℕ → ℕ → Map ℕ (Map ℕ (List M)) → List M
cached term height cache = or_nil (lookup height (or_nil (lookup term cache)))

-- `delete(cache[term], height)`, where the map has both.
unfoldable pub drop_cached {ℓ} :
    {M : Type ℓ} → ℕ → ℕ → Map ℕ (Map ℕ (List M)) → Map ℕ (Map ℕ (List M))
drop_cached term height cache = elim (lookup term cache) [
  | none ↦ cache
  | some heights ↦ elim (lookup height heights) [
    | none ↦ cache
    | some msgs ↦ insert term (delete height heights) cache
  ]
]

-- The waiting messages are entered under their nodes, whatever block they are for.
unfoldable pub add_prepares : List PrepareMsg → Map ℕ PrepareMsg → Map ℕ PrepareMsg
add_prepares [] prepares = prepares
add_prepares (msg ∷ msgs) prepares = add_prepares msgs (insert msg.node_id msg prepares)

unfoldable pub add_commits : List CommitMsg → Map ℕ CommitMsg → Map ℕ CommitMsg
add_commits [] commits = commits
add_commits (msg ∷ msgs) commits = add_commits msgs (insert msg.node_id msg commits)

-- The new block with the messages that wait for its term and height.
unfoldable pub with_cached : BlockStore → BlockPack → BlockPack
unfolding cached add_prepares add_commits
with_cached bs fresh = record fresh {
  prepares = add_prepares (cached init.term init.height bs.prepare_cache) fresh.prepares;
  commits = add_commits (cached init.term init.height bs.commit_cache) fresh.commits;
}
  where
    init : InitMsg
    init = fresh.init

-- The block becomes the one to agree on.
unfoldable pub adopt : BlockStore → List Event → BlockPack → BlockStore × List Event
unfolding with_cached drop_cached
adopt bs tasks fresh =
    let fresh' = with_cached bs fresh in
    (
      record bs {
        db = set_fresh bs.db (some fresh');
        prepare_cache = drop_cached fresh.init.term fresh.init.height bs.prepare_cache;
        commit_cache = drop_cached fresh.init.term fresh.init.height bs.commit_cache;
      },
      tasks ++ new_inited fresh' ∷ [],
    )

abbrev is_valid : Validity → Bool
is_valid valid = true
is_valid _ = false

abbrev is_not_exist : Validity → Bool
is_not_exist not_exist = true
is_not_exist _ = false

-- `!IsCommitted && IsConnectingTop && allTxValid == Valid && reconfigValid`.
unfoldable pub accepts : Cluster → Db → BlockPack → Validity → Option Bool
accepts c db fresh validity = if is_committed db (block_id fresh) then some false else do
  connecting ← is_connecting_top db fresh
  some (connecting && is_valid validity && check_reconfig_block c db fresh)

-- Only an init of a term above that of the top has to prove its leader by votes.
unfoldable pub is_supported : Cluster → Db → InitMsg → Option Bool
is_supported c db init = do
  top ← get_commit_top db
  if ltb top.init.term init.term then is_init_supported_by_votes c db init else some true

module _ (sha256 : List ℕ → Digest) where
  -- The second case of `handleInitMsg`, for an init of the node's term; the first case falls through
  -- to it with the events so far.
  unfoldable pub handle_current_init :
      Cluster → TxStore → Watchers → BlockStore → List Event → InitMsg → Outcome
  unfolding accepts is_supported
  handle_current_init c ts w bs tasks init =
      if not (nat_eq init.height (next_height bs.db))
      then handle_wrong_height_progress_msg bs tasks (init_msg init)
      else do
        (validity, txs') ← validate_txs sha256 ts w init.block.txs
        let fresh = new_block_pack (record init { block = record block { txs = txs' } })
        accepted ← accepts c bs.db fresh validity
        if accepted
            then (do
              supported ← is_supported c bs.db init
              some (
                  if supported
                  then adopt bs tasks fresh
                  else (bs, tasks ++ new_weak_accuse init.term ∷ [])))
            else some (
                if is_not_exist validity
                then (bs, tasks)
                else (bs, tasks ++ new_weak_accuse init.term ∷ []))
    where
      block : Block
      block = init.block

  unfoldable pub handle_init_msg : Cluster → TxStore → Watchers → BlockStore → InitMsg → Outcome
  unfolding handle_current_init update_node_term_with_init
  handle_init_msg c ts w bs init = do
    term ← get_node_term bs.db
    if ltb term init.term
        then (if ltb (next_height bs.db) init.height
            then some (bs, need_sync_up init.node_id ∷ [])
            else do
              (updated, db', tasks) ← update_node_term_with_init c bs.db [] init
              if updated
                  then handle_current_init c ts w (record bs { db = db' }) tasks init
                  else some (bs, tasks))
        else if nat_eq init.term term
        then handle_current_init c ts w bs [] init
        else some (bs, [])
