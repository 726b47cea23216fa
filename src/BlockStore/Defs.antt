-- ===== src/BlockStore/Defs.antt =====
-- primitives/blockstore.go: the state of the consensus, the events that it emits, and what its handlers
-- share. A handler returns the new state and the events that it defers, in the order of the queue of
-- util/task; `none` is a panic, from an assertion or a nil pointer.
use ofgp_core.Base.{
  ℕ_eq, String_eq, bytes_Eq, ◌>>◌, ltb, leb, nat_eq, if◌then◌else◌, ◌==◌, length, Map, ◌>>=◌,
  assert_true, ℕ, ◌+◌, String, Bool, true, false, not, ◌&&◌, ◌||◌, Option, none, some, List, [],
  ◌∷◌, ◌++◌,
}
use ofgp_core.Proto.Types.{
  Digest, ReconfigType, PrepareMsg, CommitMsg, InitMsg, BlockPack, StrongAccuse, join, leave,
}
use ofgp_core.Proto.Blocks.{
  to_votie, is_txs_block, is_reconfig_block, block_id, init_block_id, has_less_term_height_than,
}
use ofgp_core.Proto.Votes.{get_max_votie}
use ofgp_core.Cluster.Defs.{Cluster}
use ofgp_core.Db.Defs.{
  Db, set_node_term, get_node_term, set_last_term_accuse, set_weak_accuses, set_fresh, set_votie,
  just_commit_it, get_commit_top, is_committed, is_connecting_top,
}

pub record BlockStore : Type 0 where
  pub db : Db
  pub prepare_cache : Map ℕ (Map ℕ (List PrepareMsg))
  pub commit_cache : Map ℕ (Map ℕ (List CommitMsg))

-- The messages that `handleWrongHeightProgressMsg` takes.
pub data ProgressMsg : Type 0 where
  init_msg : InitMsg → ProgressMsg
  prepare_msg : PrepareMsg → ProgressMsg
  commit_msg : CommitMsg → ProgressMsg

pub data Event : Type 0 where
  need_sync_up : ℕ → Event
  new_inited : BlockPack → Event
  new_prepared : BlockPack → Event
  new_committed : BlockPack → Event
  committed_in_lower_term : ProgressMsg → Event
  new_term : ℕ → Event
  new_weak_accuse : ℕ → Event
  new_strong_accuse : StrongAccuse → Event
  strong_accuse_processed : StrongAccuse → Event
  joined : String → ℕ → String → List ℕ → Event
  leaved : ℕ → Event

abbrev pub Outcome : Type 0
Outcome = Option (BlockStore × List Event)

abbrev pub msg_term : ProgressMsg → ℕ
msg_term (init_msg m) = m.term
msg_term (prepare_msg m) = m.term
msg_term (commit_msg m) = m.term

abbrev pub msg_height : ProgressMsg → ℕ
msg_height (init_msg m) = m.height
msg_height (prepare_msg m) = m.height
msg_height (commit_msg m) = m.height

abbrev pub msg_node_id : ProgressMsg → ℕ
msg_node_id (init_msg m) = m.node_id
msg_node_id (prepare_msg m) = m.node_id
msg_node_id (commit_msg m) = m.node_id

abbrev pub msg_block_id : ProgressMsg → Digest
msg_block_id (init_msg m) = init_block_id m
msg_block_id (prepare_msg m) = m.block_id
msg_block_id (commit_msg m) = m.block_id

unfoldable pub handle_wrong_height_progress_msg : BlockStore → List Event → ProgressMsg → Outcome
handle_wrong_height_progress_msg bs tasks msg = do
  term ← get_node_term bs.db
  assert_true (nat_eq (msg_term msg) term)
  top ← get_commit_top bs.db
  assert_true (not (nat_eq (msg_height msg) (top.init.height + 1)))
  some (
      if nat_eq (msg_height msg) top.init.height
      then (
        bs,
        (if ltb top.init.term (msg_term msg) && msg_block_id msg == block_id top
            then tasks ++ committed_in_lower_term msg ∷ []
            else tasks),
      )
      else if ltb (top.init.height + 1) (msg_height msg)
      then (bs, tasks ++ need_sync_up (msg_node_id msg) ∷ [])
      else (bs, tasks))

unfoldable pub update_votie : Cluster → Db → BlockPack → Option Db
update_votie c db candidate = do
  assert_true
      (leb c.quorum_n (length candidate.prepares) || leb c.quorum_n (length candidate.commits))
  current ← db.votie
  some (
      if has_less_term_height_than current (to_votie candidate)
      then set_votie db (to_votie candidate)
      else db)

-- Without a vote, which the count rules out unless the quorum is 0, the largest one is nil.
unfoldable pub is_init_supported_by_votes : Cluster → Db → InitMsg → Option Bool
is_init_supported_by_votes c db init = if ltb (length init.votes) c.quorum_n then some false else do
  max_votie ← get_max_votie init.votes
  top ← get_commit_top db
  some (
      has_less_term_height_than max_votie (to_votie top)
      || max_votie.block.id == block_id top
      || max_votie.block.id == init_block_id init)

abbrev is_join : ReconfigType → Bool
is_join join = true
is_join leave = false

unfoldable pub check_reconfig_block : Cluster → Db → BlockPack → Bool
check_reconfig_block c db bp =
    if is_reconfig_block bp
    then (elim bp.init.block.reconfig [
      | none ↦ false
      | some r ↦
          if is_join r.type
          then (elim db.join_node_info [
            | none ↦ false
            | some msg ↦ msg.host == r.host && nat_eq r.node_id c.total_node_count
          ])
          else (elim db.leave_node_info [ none ↦ false | some msg ↦ nat_eq msg.node_id r.node_id ])
    ])
    else true

-- How `commitBlockWithCheck` ends: with one of its errors, or with the new database and the events.
pub data CommitError : Type 0 where
  duplicated not_enough_commits not_connecting : CommitError

pub data CommitResult : Type 0 where
  committed : Db → List Event → CommitResult
  refused : CommitError → CommitResult

-- The events of the reconfiguration at the end of `commitBlockWithCheck`.
unfoldable pub reconfig_events : Db → BlockPack → Option (List Event)
reconfig_events db bp =
    if is_reconfig_block bp
    then (do
      r ← bp.init.block.reconfig
      some (
          if is_join r.type
          then (elim db.join_node_info [
            | none ↦ []
            | some msg ↦ joined r.host r.node_id r.pubkey r.vote ∷ []
          ])
          else leaved r.node_id ∷ []))
    else some []

-- The step of `commitBlockWithCheck` that enters the term of a block above the node's own.
unfoldable pub raise_term : Db → List Event → ℕ → ℕ → Option (Db × List Event)
raise_term db tasks term node_term =
    if ltb node_term term
    then (do
      db' ← set_node_term db term
      some (set_weak_accuses (set_last_term_accuse db' none) none, tasks ++ new_term term ∷ []))
    else some (db, tasks)

-- The rest of `commitBlockWithCheck`, after its checks.
unfoldable pub commit_block : Cluster → Db → List Event → BlockPack → Option CommitResult
unfolding raise_term reconfig_events
commit_block c db tasks bp =
    let new_top = record bp { prepares = [] } in
    let db₁ = just_commit_it db new_top in
    do
      assert_true (is_txs_block bp || is_reconfig_block bp)
      node_term ← get_node_term db₁
      (db₂, tasks₂) ← raise_term db₁ tasks new_top.init.term node_term
      db₃ ← update_votie c (set_fresh db₂ none) new_top
      events ← reconfig_events db₃ bp
      some (committed db₃ (tasks₂ ++ new_committed new_top ∷ events))

unfoldable pub commit_block_with_check : Cluster → Db → List Event → BlockPack → Option CommitResult
unfolding commit_block
commit_block_with_check c db tasks bp =
    if is_committed db (block_id bp)
    then some (refused duplicated)
    else if ltb (length bp.commits) c.quorum_n
    then some (refused not_enough_commits)
    else do
      connecting ← is_connecting_top db bp
      if connecting then commit_block c db tasks bp else some (refused not_connecting)

-- `CommitSyncBlock`, its database part; the transaction pool is told of the block beside.
unfoldable pub commit_sync_block : Db → BlockPack → Option CommitResult
commit_sync_block db bp = if is_committed db (block_id bp) then some (refused duplicated) else do
  connecting ← is_connecting_top db bp
  if connecting
      then (do
        assert_true (is_txs_block bp || is_reconfig_block bp)
        some (committed (just_commit_it db (record bp { prepares = [] })) []))
      else some (refused not_connecting)
