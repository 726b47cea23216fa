-- ===== src/BlockStore/Tests.antt =====
-- The handlers of primitives/blockstore.go at concrete inputs, and the theorems at inputs that meet their
-- hypotheses.
use ofgp_core.BlockStore.First.{Counts, handle_commit_msg-Counts}
use ofgp_core.Base.{
  ℕ_eq, bytes_Eq, lookup, insert, ◌≡◌, refl, some, [], ◌∷◌, All, is_some, ◌<◌, true, List, arith,
  ◌⊎◌, none,
}
use ofgp_core.BlockStore.Commit.{Extends, NotBelow, Explains, commit_block_with_check-Explains}
use ofgp_core.BlockStore.Advance.{
  Advances, handle_commit_msg-Advances, Steps, Grown, Steps-Grown, on_commit, stop, next, on_init,
}
use ofgp_core.BlockStore.Progress.{IsReady, handle_commit_msg-committed, handle_commit_msg_total}
use ofgp_core.BlockStore.Rounds.{PreparedByQuorum, handle_prepare_msg-quorum}
use ofgp_core.BlockStore.Accuses.{handle_weak_accuse-next_term}
use ofgp_core.BlockStore.Safety.{get_commit_by_height-Steps}
use ofgp_core.BlockStore.Init.{
  cached, with_cached, accepts, drop_cached, add_prepares, add_commits, adopt, is_supported,
  handle_current_init, handle_init_msg,
}
use ofgp_core.BlockStore.Accuse.{drop_expired, handle_weak_accuse, handle_strong_accuse}
use ofgp_core.BlockStore.Sound.{IsSound}
use ofgp_core.BlockStore.SoundInit.{Steps-IsSound}
use ofgp_core.TxStore.Validate.{check_all_on_chain, finish, validate_in_pool, validate_txs}
use ofgp_core.Samples.{
  cluster, second_block, db, commit_by, two_commits, store, in_round, a_hash, genesis_block,
  prepare_by, one_commit, pool, watchers,
}
use ofgp_core.Proto.Types.{CommitMsg, BlockPack, WeakAccuse, StrongAccuse}
use ofgp_core.Proto.Blocks.{to_votie}
use ofgp_core.Db.Defs.{
  Db, put_block, just_commit_it, get_commit_height, get_commit_top, next_height, is_committed,
  is_connecting_top, get_weak_accuses, get_commit_by_height,
}
use ofgp_core.Db.Chain.{IsLinked, IsLinked-same}
use ofgp_core.BlockStore.Votes.{
  assert_committed, commit_fresh, handle_commit_msg, prepare_fresh, handle_prepare_msg,
}
use ofgp_core.BlockStore.Defs.{
  update_votie, reconfig_events, raise_term, commit_block, commit_block_with_check, new_committed,
  BlockStore, Event, new_prepared, new_term, new_strong_accuse, strong_accuse_processed,
  not_enough_commits, refused, check_reconfig_block, new_inited,
}

db-IsLinked : IsLinked db
unfolding lookup
db-IsLinked = record { chain = (refl, refl); indexed = (refl, tt) }

-- The second commit message puts the block on the chain.
abbrev committed_db : Db
committed_db = record db {
  commit_chain = (1, two_commits second_block) ∷ (0, genesis_block) ∷ [];
  commit_hs_by_ids = (1 ∷ [], 0) ∷ (2 ∷ [], 1) ∷ [];
  votie = some (to_votie (two_commits second_block));
}

commits :
    handle_commit_msg cluster in_round (commit_by 1 (2 ∷ []))
    ≡ some (store committed_db, new_committed (two_commits second_block) ∷ [])
unfolding handle_commit_msg commit_fresh commit_block_with_check commit_block just_commit_it
    is_committed is_connecting_top get_commit_top next_height get_commit_height put_block lookup
    insert raise_term update_votie reconfig_events assert_committed
commits = refl

in_round-IsLinked : IsLinked in_round.db
in_round-IsLinked = IsLinked-same db in_round.db refl refl db-IsLinked

commit_block_with_check-Explains_example :
    Explains cluster db (one_commit second_block) (refused not_enough_commits)
commit_block_with_check-Explains_example =
    commit_block_with_check-Explains cluster db [] (one_commit second_block)
      (refused not_enough_commits) db-IsLinked
      (unfold commit_block_with_check is_committed lookup in refl)

handle_commit_msg-Advances_example : Advances cluster in_round.db committed_db
handle_commit_msg-Advances_example =
    handle_commit_msg-Advances cluster in_round (store committed_db) (commit_by 1 (2 ∷ []))
      (new_committed (two_commits second_block) ∷ []) in_round-IsLinked commits

run : Steps a_hash cluster in_round (store committed_db)
run =
    next (on_commit (commit_by 1 (2 ∷ [])) (new_committed (two_commits second_block) ∷ []) commits)
      stop

Steps-Grown_example :
    IsLinked committed_db
    × Grown cluster db.commit_chain committed_db.commit_chain
    × NotBelow (some 0) (some 0)
Steps-Grown_example = Steps-Grown a_hash cluster in_round (store committed_db) in_round-IsLinked run

get_commit_by_height-Steps_example :
    (get_commit_by_height committed_db 0 ≡ some genesis_block) × (0 < next_height committed_db)
get_commit_by_height-Steps_example =
    get_commit_by_height-Steps a_hash cluster in_round (store committed_db) 0 genesis_block
      in_round-IsLinked run (unfold get_commit_by_height lookup in refl)

in_round-IsReady : IsReady in_round.db
unfolding is_committed is_connecting_top get_commit_top lookup
in_round-IsReady = record {
  linked = in_round-IsLinked;
  node_term = refl;
  fresh = record {
    new = refl;
    connects = refl;
    txs = refl;
    term = refl;
    node_term = refl;
    votie = refl;
  };
}

handle_commit_msg_total_example :
    is_some (handle_commit_msg cluster in_round (commit_by 1 (9 ∷ []))) ≡ true
handle_commit_msg_total_example =
    handle_commit_msg_total cluster in_round (commit_by 1 (9 ∷ [])) in_round-IsReady

handle_commit_msg-committed_example :
    (bs' : BlockStore) × (events : List Event) × (handle_commit_msg cluster in_round
        (commit_by 1 (2 ∷ []))
      ≡ some (bs', events))
    × Extends cluster in_round.db bs'.db (two_commits second_block)
unfolding lookup insert
handle_commit_msg-committed_example =
    handle_commit_msg-committed cluster in_round (commit_by 1 (2 ∷ [])) (one_commit second_block)
      in_round-IsReady refl refl (unfold next_height get_commit_height in refl) refl refl
      (omega arith)

-- A second message of the node 0 changes nothing.
second_message : handle_commit_msg cluster in_round (commit_by 0 (2 ∷ [])) ≡ some (in_round, [])
unfolding handle_commit_msg commit_fresh next_height get_commit_height lookup
second_message = refl

handle_commit_msg-Counts_example :
    (in_round.db.fresh ≡ none)
    ⊎ ((fresh' : BlockPack) × (in_round.db.fresh ≡ some fresh')
        × Counts (commit_by 0 (2 ∷ [])) (one_commit second_block) fresh')
handle_commit_msg-Counts_example =
    handle_commit_msg-Counts cluster in_round in_round (commit_by 0 (2 ∷ []))
      (one_commit second_block) [] in_round-IsLinked refl second_message

abbrev prepared_once : BlockPack
prepared_once = record second_block { prepares = (0, prepare_by 0 (2 ∷ [])) ∷ [] }

abbrev prepared_twice : BlockPack
prepared_twice = record second_block {
  prepares = (0, prepare_by 0 (2 ∷ [])) ∷ (1, prepare_by 1 (2 ∷ [])) ∷ [];
}

handle_prepare_msg-quorum_example :
    All
      (PreparedByQuorum cluster
        (store (record db { fresh = some prepared_twice; votie = some (to_votie prepared_twice) })))
      (new_prepared prepared_twice ∷ [])
handle_prepare_msg-quorum_example =
    handle_prepare_msg-quorum cluster (store (record db { fresh = some prepared_once }))
      (store (record db { fresh = some prepared_twice; votie = some (to_votie prepared_twice) }))
      (prepare_by 1 (2 ∷ [])) (new_prepared prepared_twice ∷ [])
      (unfold handle_prepare_msg prepare_fresh next_height get_commit_height lookup insert
          update_votie in
        refl)

abbrev accuse : WeakAccuse
accuse = record { term = 0; node_id = 1; time = 0; sig = [] }

abbrev strong : StrongAccuse
strong = record { weak_accuses = (1, accuse) ∷ [] }

abbrev accused : BlockStore
accused = store (record db { weak_accuses = some ((1, accuse) ∷ []) })

accuses :
    handle_weak_accuse cluster 0 (store db) accuse ≡ some (accused, new_strong_accuse strong ∷ [])
unfolding handle_weak_accuse get_weak_accuses lookup insert drop_expired
accuses = refl

handle_weak_accuse-next_term_example :
    (bs'' : BlockStore) × (handle_strong_accuse accused strong
      ≡ some (bs'', new_term 1 ∷ strong_accuse_processed strong ∷ []))
    × (bs''.db.term ≡ some 1)
handle_weak_accuse-next_term_example =
    handle_weak_accuse-next_term cluster 0 0 (store db) accused accuse strong refl
      (unfold get_weak_accuses in tt) (omega arith) (omega arith) accuses

abbrev inited : BlockStore
inited = store (record db { fresh = some second_block })

inits :
    handle_init_msg a_hash cluster pool watchers (store db) second_block.init
    ≡ some (inited, new_inited second_block ∷ [])
unfolding handle_init_msg handle_current_init accepts is_supported adopt with_cached drop_cached
    cached add_prepares add_commits validate_txs validate_in_pool finish check_all_on_chain
    is_committed is_connecting_top get_commit_top next_height get_commit_height check_reconfig_block
    lookup
inits = refl

abbrev init_run : Steps a_hash cluster (store db) inited
init_run = next (on_init pool watchers second_block.init (new_inited second_block ∷ []) inits) stop

db-IsSound : IsSound db
db-IsSound = record {
  ready = record { linked = db-IsLinked; node_term = refl; fresh = tt };
  votie = refl;
}

Steps-IsSound_example :
    IsSound inited.db × ((msg : CommitMsg) → is_some (handle_commit_msg cluster inited msg) ≡ true)
Steps-IsSound_example =
    Steps-IsSound a_hash cluster (store db) inited init_run ((refl, refl), tt) db-IsSound
