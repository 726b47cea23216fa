-- ===== src/Node/Sync/Check.antt =====
-- node/sync_daemon.go: `checkBlockPack`. How many peers say that they have committed a block is a parameter.
use ofgp_core.Base.{ℕ_eq, ltb, nat_eq, bytes_eq, ℕ, ◌+◌, Bool, not, List}
use ofgp_core.Proto.Types.{Digest, BlockPack}
use ofgp_core.Proto.Feed.{update_block_id}
use ofgp_core.Cluster.Defs.{Cluster}
use ofgp_core.Db.Defs.{Db, is_committed, get_commit_by_id}
use ofgp_core.Node.Check.Result.{◌>>=◌, ◌>>◌, Check, require, must, accepted}
use ofgp_core.Node.Check.Basic.{check_commits}
use ofgp_core.Node.Check.Votes.{check_init_msg}

-- The identifier is computed again, though `checkInitMsg` has done so; a block that is committed under its
-- identifier but not found at its height is a nil pointer.
unfoldable pub check_block_pack :
    (List ℕ → Digest)
    → (List ℕ → Digest → List ℕ → Bool)
    → (Digest → ℕ)
    → Cluster
    → Db
    → ℕ
    → BlockPack
    → Check BlockPack
check_block_pack sha256 verify committed_cnt c db accuse_quorum_n bp = do
  init ← check_init_msg sha256 verify c bp.init
  block ← must (update_block_id sha256 init.block)
  require (bytes_eq init.block.id block.id)
  require (check_commits sha256 verify c init.term init.height init.block.id bp.commits)
  require (is_committed db init.block.prev_block_id)
  require (not (is_committed db init.block.id))
  pre_block ← must (get_commit_by_id db init.block.prev_block_id)
  require (nat_eq init.height (pre_block.init.height + 1))
  require (not (ltb (committed_cnt init.block.id) accuse_quorum_n))
  accepted (record bp { init = init })
