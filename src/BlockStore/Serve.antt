-- ===== src/BlockStore/Serve.antt =====
-- primitives/blockstore.go: `genSyncUpResponse`, which answers a node that has the blocks up to `base`. A
-- missing block, which goes into the response as nil, is `none`.
use ofgp_core.Base.{
  ℕ_eq, ◌>>=◌, ltb, if◌then◌else◌, ℕ, zero, suc, ◌+◌, Bool, false, not, ◌&&◌, Option, none, some,
  List, [], ◌∷◌,
}
use ofgp_core.Proto.Types.{BlockPack, SyncUpResponse}
use ofgp_core.Db.Defs.{Db, get_commit_height, next_height, get_commit_by_height}

-- The loop from the height `h`, for at most `n` rounds.
unfoldable pub commits_from : ℕ → ℕ → Db → Option (List BlockPack)
commits_from zero h db = some []
commits_from (suc n) h db =
    let rest = commits_from n (h + 1) db in
    if ltb h (next_height db)
    then (do bp ← get_commit_by_height db h; bps ← rest; some (bp ∷ bps))
    else some []

-- `commitHeight - base > maxBlockN`; without a block the height is -1.
abbrev pub has_more : Option ℕ → ℕ → ℕ → Bool
has_more none base max_block_n = false
has_more (some height) base max_block_n = ltb (base + max_block_n) height

unfoldable pub gen_sync_up_response : Db → ℕ → ℕ → Bool → Option SyncUpResponse
unfolding commits_from
gen_sync_up_response db base max_block_n need_fresh = do
  commits ← commits_from max_block_n (base + 1) db
  let more = has_more (get_commit_height db) base max_block_n
  some (record {
    commits = commits;
    more = more;
    fresh = if not more && need_fresh then db.fresh else none;
    strong_accuse = if not more && need_fresh then db.last_term_accuse else none;
  })
