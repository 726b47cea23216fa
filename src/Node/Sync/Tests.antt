-- ===== src/Node/Sync/Tests.antt =====
-- The theorems about node/sync_daemon.go at concrete inputs.
use ofgp_core.Node.Sync.Served.{AllFollow, gen_sync_up_response-AllFollow}
use ofgp_core.Node.Sync.Vouched.{IsVouched, check_block_pack-IsVouched}
use ofgp_core.Node.Sync.Check.{check_block_pack}
use ofgp_core.Node.Check.Votes.{check_votes, check_init_msg}
use ofgp_core.Node.Check.Basic.{
  check_node_id, check_digest, check_block_fields, verify_node, check_block, check_commit,
  commits_match, check_commits,
}
use ofgp_core.Node.Check.Result.{accepted}
use ofgp_core.BlockStore.Serve.{gen_sync_up_response}
use ofgp_core.Db.Chain.{IsLinked}
use ofgp_core.Db.Defs.{Db, next_height, get_commit_by_height, is_committed, get_commit_by_id}
use ofgp_core.Proto.Feed.{feed_block_body, feed_block_fields, update_block_id}
use ofgp_core.Proto.Blocks.{new_block_pack}
use ofgp_core.Proto.Types.{Digest, BlockType, BlockPack, SyncUpResponse}
use ofgp_core.Base.{ltb, length, lookup, ℕ, ◌+◌, ◌≤◌, ◌≡◌, refl, true, some, [], ◌∷◌}
use ofgp_core.Samples.{block, init_of, db}
use ofgp_core.Node.Samples.{a_digest, one_hash, verify_key, nodes, commit_of}

abbrev sample_peers : Digest → ℕ
sample_peers id = 2

-- The genesis block has an identifier of 32 bytes here, another than that of the block above it.
abbrev base_id : Digest
base_id =
    9 ∷ 1 ∷ 2 ∷ 3 ∷ 4 ∷ 5 ∷ 6 ∷ 7 ∷ 8 ∷ 9 ∷ 10 ∷ 11 ∷ 12 ∷ 13 ∷ 14 ∷ 15 ∷ 16 ∷ 17 ∷ 18 ∷ 19 ∷ 20
    ∷ 21 ∷ 22 ∷ 23 ∷ 24 ∷ 25 ∷ 26 ∷ 27 ∷ 28 ∷ 29 ∷ 30 ∷ 31 ∷ []

abbrev base_block : BlockPack
base_block = new_block_pack (init_of 0 0 (block BlockType.genesis [] base_id))

abbrev linked_db : Db
linked_db = record db { commit_chain = (0, base_block) ∷ []; commit_hs_by_ids = (base_id, 0) ∷ [] }

linked_db-IsLinked : IsLinked linked_db
unfolding lookup
linked_db-IsLinked = record { chain = (refl, refl); indexed = (refl, tt) }

abbrev synced : BlockPack
synced = record {
  init = record (init_of 1 1 (block BlockType.txs base_id a_digest)) { sig = 0 ∷ [] };
  prepares = [];
  commits = (0, commit_of 1 0) ∷ (1, commit_of 1 1) ∷ (2, commit_of 1 2) ∷ [];
}

synced-accepted :
    check_block_pack one_hash verify_key sample_peers nodes linked_db 2 synced ≡ accepted synced
unfolding check_block_pack check_init_msg check_votes check_block check_block_fields check_digest
    check_node_id verify_node update_block_id feed_block_fields feed_block_body check_commits
    check_commit commits_match is_committed get_commit_by_id lookup
synced-accepted = refl

check_block_pack-IsVouched_example :
    IsVouched one_hash verify_key sample_peers nodes linked_db 2 synced
check_block_pack-IsVouched_example =
    check_block_pack-IsVouched one_hash verify_key sample_peers nodes linked_db 2 synced synced
      linked_db-IsLinked synced-accepted

gen_sync_up_response-AllFollow_example :
    (rsp : SyncUpResponse) × (gen_sync_up_response linked_db 0 5 true ≡ some rsp)
    × AllFollow (some base_block) rsp.commits
    × (length rsp.commits ≤ 5)
    × (rsp.more ≡ ltb (0 + length rsp.commits + 1) (next_height linked_db))
unfolding get_commit_by_height lookup
gen_sync_up_response-AllFollow_example =
    gen_sync_up_response-AllFollow linked_db 0 5 true base_block linked_db-IsLinked refl
