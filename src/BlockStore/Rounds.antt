-- ===== src/BlockStore/Rounds.antt =====
-- primitives/blockstore.go: what a quorum of messages brings about, what the caches count, and what a
-- stale block of the round does.
use ofgp_core.Base.{
  ℕ_eq, bytes_Eq, nat_eq, if◌then◌else◌, Option-cases, ◌==◌, length, All, Map, lookup, insert,
  length-insert, ℕ, suc, ◌≤◌, ◌<◌, ◌≡◌, refl, ◌⊎◌, inl, inr, Bool, true, false, ◌&&◌, none, some,
  List, [], ◌∷◌, ◌++◌, arith, or_nil, lookup-insert, lookup-insert_self,
}
use ofgp_core.Proto.Types.{PrepareMsg, CommitMsg, InitMsg, BlockPack}
use ofgp_core.Proto.Blocks.{block_id}
use ofgp_core.Cluster.Defs.{Cluster}
use ofgp_core.Db.Defs.{Db, set_node_term, set_fresh, next_height, is_committed}
use ofgp_core.BlockStore.Commit.{update_votie_only_votie}
use ofgp_core.BlockStore.Init.{update_node_term_with_init, cached, add_prepares, with_cached}
use ofgp_core.BlockStore.Defs.{
  BlockStore, Event, update_votie, commit_block_with_check, new_prepared, new_term,
  handle_wrong_height_progress_msg, prepare_msg, need_sync_up, committed_in_lower_term,
}
use ofgp_core.BlockStore.Votes.{
  cache_msg, prepare_fresh, commit_fresh, handle_commit_msg, handle_prepare_msg,
}

-- The event of a prepared block has a quorum of prepares, and the block is the one of the round.
abbrev pub PreparedByQuorum : Cluster → BlockStore → Event → Type 0
PreparedByQuorum c bs (new_prepared bp) =
    (c.quorum_n ≤ length bp.prepares) × (bs.db.fresh ≡ some bp)
PreparedByQuorum c bs e = Unit

prepare_fresh-quorum :
    (c : Cluster) (bs bs' : BlockStore) (msg : PrepareMsg) (fresh : BlockPack) (events : List Event)
    → prepare_fresh c bs msg fresh ≡ some (bs', events)
    → All (PreparedByQuorum c bs') events
unfolding prepare_fresh
prepare_fresh-quorum c bs bs' msg fresh events e =
    elim (Option-cases (update_votie c (set_fresh bs.db (some fresh')) fresh')) [
      | inl n ↦ by_cases (ground arith)
      | inr (db₂, e₂) ↦
          let only = update_votie_only_votie c (set_fresh bs.db (some fresh')) db₂ fresh' e₂ in
          by_cases (ground (arith, only))
    ]
  where
    fresh' : BlockPack
    fresh' = record fresh { prepares = insert msg.node_id msg fresh.prepares }

    by_cases :
        (events ≡ [])
          ⊎ ((events ≡ new_prepared fresh' ∷ [])
              × (c.quorum_n ≤ length fresh'.prepares)
              × (bs'.db.fresh ≡ some fresh'))
        → All (PreparedByQuorum c bs') events
    by_cases (inl nothing) = rw nothing tt
    by_cases (inr (prepared, q, at)) = rw prepared ((q, at), tt)

wrong_height-quorum :
    (c : Cluster) (bs bs' : BlockStore) (msg : PrepareMsg) (events : List Event)
    → handle_wrong_height_progress_msg bs [] (prepare_msg msg) ≡ some (bs', events)
    → All (PreparedByQuorum c bs') events
unfolding handle_wrong_height_progress_msg
wrong_height-quorum c bs bs' msg events e = by_cases (ground arith)
  where
    by_cases :
        (events ≡ [])
          ⊎ (events ≡ need_sync_up msg.node_id ∷ [])
          ⊎ (events ≡ committed_in_lower_term (prepare_msg msg) ∷ [])
        → All (PreparedByQuorum c bs') events
    by_cases (inl nothing) = rw nothing tt
    by_cases (inr (inl sync)) = rw sync (tt, tt)
    by_cases (inr (inr lower)) = rw lower (tt, tt)

-- Where `handlePrepareMsg` does not panic, a block that it announces as prepared has the prepares
-- of a quorum, and is the block of the round that it has stored.
pub handle_prepare_msg-quorum :
    (c : Cluster) (bs bs' : BlockStore) (msg : PrepareMsg) (events : List Event)
    → handle_prepare_msg c bs msg ≡ some (bs', events)
    → All (PreparedByQuorum c bs') events
unfolding handle_prepare_msg
handle_prepare_msg-quorum c bs bs' msg events e = elim (Option-cases bs.db.fresh) [
  | inl n ↦ by_cases (ground arith)
  | inr (fresh, f) ↦ with_fresh fresh (ground arith)
]
  where
    by_cases :
        (events ≡ [])
          ⊎ (events ≡ need_sync_up msg.node_id ∷ [])
          ⊎ (handle_wrong_height_progress_msg bs [] (prepare_msg msg) ≡ some (bs', events))
        → All (PreparedByQuorum c bs') events
    by_cases (inl nothing) = rw nothing tt
    by_cases (inr (inl sync)) = rw sync (tt, tt)
    by_cases (inr (inr wrong)) = wrong_height-quorum c bs bs' msg events wrong

    with_fresh :
        (fresh : BlockPack)
        → (prepare_fresh c bs msg fresh ≡ some (bs', events))
          ⊎ (events ≡ [])
          ⊎ (events ≡ need_sync_up msg.node_id ∷ [])
          ⊎ (handle_wrong_height_progress_msg bs [] (prepare_msg msg) ≡ some (bs', events))
        → All (PreparedByQuorum c bs') events
    with_fresh fresh (inl run) = prepare_fresh-quorum c bs bs' msg fresh events run
    with_fresh fresh (inr other) = by_cases other

-- Where the database has a term, and `updateNodeTermWithInit` does not panic, it enters the term of
-- the message only if that is higher and has the votes of a quorum, and then drops the block of the
-- round and the accuses, and emits the new term; else the term is no higher or the votes are too
-- few, and nothing changes.
pub update_node_term_with_init-quorum :
    (c : Cluster) (db db' : Db) (updated : Bool) (tasks tasks' : List Event) (init : InitMsg)
    (t : ℕ)
    → db.term ≡ some t
    → update_node_term_with_init c db tasks init ≡ some (updated, db', tasks')
    → (updated ≡ true
        → (c.quorum_n ≤ length init.votes)
          × (t < init.term)
          × (db'.term ≡ some init.term)
          × (db'.fresh ≡ none)
          × (db'.weak_accuses ≡ none)
          × (tasks' ≡ tasks ++ new_term init.term ∷ []))
      × (updated ≡ false
          → (init.term ≤ t ⊎ length init.votes < c.quorum_n) × (db' ≡ db) × (tasks' ≡ tasks))
unfolding update_node_term_with_init set_node_term
update_node_term_with_init-quorum c db db' updated tasks tasks' init t e r = (
  λ u. (ground arith, ground arith, ground arith, ground arith, ground arith, ground arith),
  λ u. (ground arith, ground arith, ground arith),
)

module _ {ℓ} {M : Type ℓ} where
  -- A message that waits stands last among those for its term and height, and among no others.
  pub cached-cache_msg :
      (term height t h : ℕ) (msg : M) (cache : Map ℕ (Map ℕ (List M)))
      → cached t h (cache_msg term height msg cache) ≡ (
          if nat_eq term t && nat_eq height h
          then cached term height cache ++ msg ∷ []
          else cached t h cache)
  unfolding cached cache_msg
  cached-cache_msg term height t h msg cache = ground (
    arith,
    lookup-insert term t (insert height (or_nil (lookup height heights) ++ msg ∷ []) heights) cache,
    lookup-insert height h (or_nil (lookup height heights) ++ msg ∷ []) heights,
  )
    where
      heights : Map ℕ (List M)
      heights = or_nil (lookup term cache)

add_prepares-append :
    (msgs : List PrepareMsg) (msg : PrepareMsg) (m : Map ℕ PrepareMsg)
    → add_prepares (msgs ++ msg ∷ []) m ≡ insert msg.node_id msg (add_prepares msgs m)
unfolding add_prepares
add_prepares-append [] msg m = refl
add_prepares-append (x ∷ xs) msg m = add_prepares-append xs msg (insert x.node_id x m)

-- A prepare of the block's term and height, but for another block, is ignored by `handlePrepareMsg`
-- where the block of the round is there; if it waits in the cache, it is counted for the block.
pub with_cached_other_block :
    (c : Cluster) (bs : BlockStore) (msg : PrepareMsg) (bp : BlockPack)
    → (msg.block_id == block_id bp) ≡ false
    → msg.term ≡ bp.init.term
    → msg.height ≡ bp.init.height
    → (prepare_fresh c bs msg bp ≡ some (bs, []))
      × (lookup msg.node_id
            (with_cached
              (record bs { prepare_cache = cache_msg msg.term msg.height msg bs.prepare_cache })
              bp).prepares
          ≡ some msg)
unfolding prepare_fresh with_cached
with_cached_other_block c bs msg bp other t h = (rw other refl, counted)
  where
    waiting :
        cached bp.init.term bp.init.height (cache_msg msg.term msg.height msg bs.prepare_cache)
        ≡ cached msg.term msg.height bs.prepare_cache ++ msg ∷ []
    waiting = ground (
      arith,
      cached-cache_msg msg.term msg.height bp.init.term bp.init.height msg bs.prepare_cache,
    )

    counted :
        lookup msg.node_id (
          add_prepares
            (cached bp.init.term bp.init.height
              (cache_msg msg.term msg.height msg bs.prepare_cache))
            bp.prepares)
        ≡ some msg
    counted =
        rw
          (
            waiting,
            add_prepares-append (cached msg.term msg.height bs.prepare_cache) msg bp.prepares,
          )
          (lookup-insert_self msg.node_id msg
            (add_prepares (cached msg.term msg.height bs.prepare_cache) bp.prepares))

-- A node panics where the block of the round is committed already, as the synchronisation can leave
-- it, and a commit message of the node's term and the next height names it and completes its
-- quorum: the height is not compared with that of the block.
pub handle_commit_msg_stale :
    (c : Cluster) (bs : BlockStore) (msg : CommitMsg) (fresh : BlockPack)
    → bs.db.fresh ≡ some fresh
    → is_committed bs.db (block_id fresh) ≡ true
    → bs.db.term ≡ some msg.term
    → msg.height ≡ next_height bs.db
    → (msg.block_id == block_id fresh) ≡ true
    → lookup msg.node_id fresh.commits ≡ none
    → c.quorum_n ≤ suc (length fresh.commits)
    → handle_commit_msg c bs msg ≡ none
unfolding handle_commit_msg commit_fresh commit_block_with_check is_committed
handle_commit_msg_stale c bs msg fresh f done t at id new q =
    ground (arith, length-insert msg.node_id msg fresh.commits)
