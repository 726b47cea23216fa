-- ===== src/BlockStore/Accuse.antt =====
-- primitives/blockstore.go: `handleWeakAccuse`, `handleStrongAccuse`, and the requests to join and to
-- leave. The time is an argument.
use ofgp_core.Base.{
  ℕ_eq, ltb, leb, nat_eq, if◌then◌else◌, length, Map, is_some, lookup, insert, delete, ◌>>=◌, ℕ,
  ◌+◌, not, ◌||◌, none, some, [], ◌∷◌,
}
use ofgp_core.Proto.Types.{WeakAccuse, StrongAccuse}
use ofgp_core.Proto.Blocks.{accuse_term}
use ofgp_core.Cluster.Defs.{Cluster}
use ofgp_core.Db.Defs.{
  set_node_term, get_node_term, set_last_term_accuse, set_weak_accuses, get_weak_accuses, set_fresh,
}
use ofgp_core.BlockStore.Defs.{
  BlockStore, Outcome, need_sync_up, new_term, new_strong_accuse, strong_accuse_processed,
}

-- In seconds.
abbrev pub accuse_available_duration : ℕ
accuse_available_duration = 60

-- The accuses that are not too old. An accuse from the future, whose age is negative, is kept.
unfoldable pub drop_expired : ℕ → Map ℕ WeakAccuse → Map ℕ WeakAccuse
drop_expired now [] = []
drop_expired now ((node_id, accuse) ∷ m) =
    let rest = drop_expired now m in
    if ltb (accuse.time + accuse_available_duration) now then rest else (node_id, accuse) ∷ rest

unfoldable pub handle_weak_accuse : Cluster → ℕ → BlockStore → WeakAccuse → Outcome
handle_weak_accuse c now bs msg = do
  term ← get_node_term bs.db
  if ltb term msg.term
      then some (bs, need_sync_up msg.node_id ∷ [])
      else if not (nat_eq msg.term term)
      then some (bs, [])
      else (let accuses = get_weak_accuses bs.db in
          if leb c.accuse_quorum_n (length accuses) || is_some (lookup msg.node_id accuses)
          then some (bs, [])
          else (let accuses' = insert msg.node_id msg (drop_expired now accuses) in
              let bs' = record bs { db = set_weak_accuses bs.db (some accuses') } in
              some (
                bs',
                (if leb c.accuse_quorum_n (length accuses')
                    then new_strong_accuse (new_strong_accuse_of accuses') ∷ []
                    else []),
              )))
  where
    new_strong_accuse_of : Map ℕ WeakAccuse → StrongAccuse
    new_strong_accuse_of m = record { weak_accuses = m }

-- `msg.Term()` is read once, where Go iterates over the map again at each call.
unfoldable pub handle_strong_accuse : BlockStore → StrongAccuse → Outcome
handle_strong_accuse bs msg = do
  term ← accuse_term msg
  node_term ← get_node_term bs.db
  if leb node_term term
      then (do
        db' ← set_node_term bs.db (term + 1)
        some (
          record bs {
            db = set_fresh (set_weak_accuses (set_last_term_accuse db' (some msg)) none) none;
            prepare_cache = delete term bs.prepare_cache;
            commit_cache = delete term bs.commit_cache;
          },
          new_term (term + 1) ∷ strong_accuse_processed msg ∷ [],
        ))
      else some (bs, [])
