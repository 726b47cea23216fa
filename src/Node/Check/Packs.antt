-- ===== src/Node/Check/Packs.antt =====
-- node/msg_validation.go: the checks of the block packs of a sync response.
use ofgp_core.Base.{
  ℕ_eq, leb, nat_eq, bytes_eq, ℕ, ◌+◌, Bool, true, ◌&&◌, Option, none, some, List, [], ◌∷◌,
}
use ofgp_core.Proto.Types.{Digest, BlockPack, StrongAccuse, SyncUpResponse}
use ofgp_core.Proto.Blocks.{block_id, prev_block_id}
use ofgp_core.Cluster.Defs.{Cluster}
use ofgp_core.Node.Check.Result.{◌>>=◌, ◌>>◌, Check, require, accepted}
use ofgp_core.Node.Check.Basic.{prepares_match, commits_match, check_strong_accuse}
use ofgp_core.Node.Check.Votes.{CheckMode, check_init, check_full, check_lite}

-- The block follows the one before it, if there is one, which stands for the variables
-- `prevHeight`, `prevTerm` and `prevBlockId`.
abbrev pub follows : Option BlockPack → BlockPack → Bool
follows none bp = true
follows (some prev) bp =
    nat_eq bp.init.height (prev.init.height + 1)
    && bytes_eq (prev_block_id bp) (block_id prev)
    && leb prev.init.term bp.init.term

-- Only the last block is checked in full.
abbrev pub mode_before : List BlockPack → CheckMode
mode_before [] = check_full
mode_before (bp ∷ rest) = check_lite

module _ (sha256 : List ℕ → Digest) (verify : List ℕ → Digest → List ℕ → Bool) where
  abbrev pub pack_matches : Cluster → CheckMode → BlockPack → Bool
  pack_matches c check_lite bp = true
  pack_matches c check_full bp =
      prepares_match sha256 verify c bp.init.term bp.init.height bp.init.block.id bp.prepares
      && commits_match sha256 verify c bp.init.term bp.init.height bp.init.block.id bp.commits

  -- In the lite mode neither the prepares nor the commits are looked at.
  unfoldable pub check_inited_block_pack : Cluster → BlockPack → CheckMode → Check BlockPack
  check_inited_block_pack c bp mode = do
    init ← check_init sha256 verify c bp.init mode
    let bp' = record bp { init = init }
    require (pack_matches c mode bp')
    accepted bp'

  unfoldable pub check_commit_list :
      Cluster → Option BlockPack → List BlockPack → Check (List BlockPack)
  unfolding check_inited_block_pack
  check_commit_list c prev [] = accepted []
  check_commit_list c prev (bp ∷ rest) = do
    bp' ← check_inited_block_pack c bp (mode_before rest)
    require (follows prev bp')
    rest' ← check_commit_list c (some bp') rest
    accepted (bp' ∷ rest')

  abbrev pub check_fresh : Cluster → Option BlockPack → Check (Option BlockPack)
  check_fresh c none = accepted none
  check_fresh c (some bp) = check_inited_block_pack c bp check_full >>= λ bp'. accepted (some bp')

  abbrev pub check_accuse : Cluster → Option StrongAccuse → Bool
  check_accuse c none = true
  check_accuse c (some sa) = check_strong_accuse sha256 verify c sa

  unfoldable pub check_sync_up_response : Cluster → SyncUpResponse → Check SyncUpResponse
  unfolding check_commit_list
  check_sync_up_response c msg = do
    commits ← check_commit_list c none msg.commits
    fresh ← check_fresh c msg.fresh
    require (check_accuse c msg.strong_accuse)
    accepted (record msg { commits = commits; fresh = fresh })
