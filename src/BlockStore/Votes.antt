-- ===== src/BlockStore/Votes.antt =====
-- primitives/blockstore.go: `handlePrepareMsg` and `handleCommitMsg`.
use ofgp_core.Base.{
  ℕ_eq, String_eq, bytes_Eq, ltb, leb, nat_eq, if◌then◌else◌, ◌==◌, length, Map, is_some, lookup,
  insert, ◌>>=◌, ℕ, not, ◌||◌, none, some, List, [], ◌∷◌, ◌++◌, or_nil,
}
use ofgp_core.Proto.Types.{PrepareMsg, CommitMsg, BlockPack}
use ofgp_core.Proto.Blocks.{block_id}
use ofgp_core.Cluster.Defs.{Cluster}
use ofgp_core.Db.Defs.{get_node_term, set_fresh, next_height}
use ofgp_core.BlockStore.Defs.{
  BlockStore, Outcome, handle_wrong_height_progress_msg, update_votie, CommitResult,
  commit_block_with_check, prepare_msg, commit_msg, need_sync_up, new_prepared, committed, refused,
}

-- `cache[term][height] = append(cache[term][height], msg)`, with the maps made where they are missing.
unfoldable pub cache_msg {ℓ} :
    {M : Type ℓ} → ℕ → ℕ → M → Map ℕ (Map ℕ (List M)) → Map ℕ (Map ℕ (List M))
cache_msg term height msg cache =
    let heights = or_nil (lookup term cache) in
    insert term (insert height (or_nil (lookup height heights) ++ msg ∷ []) heights) cache

-- The part of `handlePrepareMsg` that has a block to prepare.
unfoldable pub prepare_fresh : Cluster → BlockStore → PrepareMsg → BlockPack → Outcome
prepare_fresh c bs msg fresh =
    if not (msg.block_id == block_id fresh)
    then some (bs, [])
    else if is_some (lookup msg.node_id fresh.prepares) || ltb c.quorum_n (length fresh.prepares)
    then some (bs, [])
    else (let fresh' = record fresh { prepares = insert msg.node_id msg fresh.prepares } in
        let db' = set_fresh bs.db (some fresh') in
        if leb c.quorum_n (length fresh'.prepares)
        then (do
          db'' ← update_votie c db' fresh'
          some (record bs { db = db'' }, new_prepared fresh' ∷ []))
        else some (record bs { db = db' }, []))

unfoldable pub handle_prepare_msg : Cluster → BlockStore → PrepareMsg → Outcome
unfolding prepare_fresh cache_msg
handle_prepare_msg c bs msg = do
  term ← get_node_term bs.db
  if ltb term msg.term
      then some (bs, need_sync_up msg.node_id ∷ [])
      else if not (nat_eq msg.term term)
      then some (bs, [])
      else if not (nat_eq msg.height (next_height bs.db))
      then handle_wrong_height_progress_msg bs [] (prepare_msg msg)
      else (elim bs.db.fresh [
        | none ↦
            some
              (record bs { prepare_cache = cache_msg msg.term msg.height msg bs.prepare_cache }, [])
        | some fresh ↦ prepare_fresh c bs msg fresh
      ])

-- `assert.ErrorIsNil`: an error of the commit is a panic.
unfoldable pub assert_committed : BlockStore → CommitResult → Outcome
assert_committed bs (committed db events) = some (record bs { db = db }, events)
assert_committed bs (refused e) = none

-- The part of `handleCommitMsg` that has a block to commit.
unfoldable pub commit_fresh : Cluster → BlockStore → CommitMsg → BlockPack → Outcome
unfolding assert_committed
commit_fresh c bs msg fresh =
    if not (msg.block_id == block_id fresh)
    then some (bs, [])
    else if is_some (lookup msg.node_id fresh.commits)
    then some (bs, [])
    else (let fresh' = record fresh { commits = insert msg.node_id msg fresh.commits } in
        let db' = set_fresh bs.db (some fresh') in
        if leb c.quorum_n (length fresh'.commits)
        then (do result ← commit_block_with_check c db' [] fresh'; assert_committed bs result)
        else some (record bs { db = db' }, []))

unfoldable pub handle_commit_msg : Cluster → BlockStore → CommitMsg → Outcome
unfolding commit_fresh cache_msg
handle_commit_msg c bs msg = do
  term ← get_node_term bs.db
  if ltb term msg.term
      then some (bs, need_sync_up msg.node_id ∷ [])
      else if not (nat_eq msg.term term)
      then some (bs, [])
      else if not (nat_eq msg.height (next_height bs.db))
      then handle_wrong_height_progress_msg bs [] (commit_msg msg)
      else (elim bs.db.fresh [
        | none ↦
            some
              (record bs { commit_cache = cache_msg msg.term msg.height msg bs.commit_cache }, [])
        | some fresh ↦ commit_fresh c bs msg fresh
      ])
