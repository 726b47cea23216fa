-- ===== src/Node/Check/Tests.antt =====
-- The theorems about node/msg_validation.go at concrete inputs.
use ofgp_core.Node.Samples.{
  one_hash, verify_key, nodes, nodes-IsValid, a_block, commit_of, prepare_of,
}
use ofgp_core.Distribution.Defs.{}
use ofgp_core.Base.{ℕ_eq, String_eq, bytes_Eq, lookup, ℕ, ◌≡◌, refl, false, [], ◌∷◌, arith, none}
use ofgp_core.Samples.{init_of}
use ofgp_core.Proto.Types.{Votie, BlockPack, SyncUpResponse}
use ofgp_core.Proto.Feed.{feed_block_body, feed_block_fields, update_block_id}
use ofgp_core.Node.Check.Result.{accepted}
use ofgp_core.Node.Check.Basic.{
  check_node_id, check_digest, check_block_fields, verify_node, check_block, check_prepare,
  check_commit, prepares_match, commits_match,
}
use ofgp_core.Node.Check.Votes.{has_support, check_votie}
use ofgp_core.Node.Check.Certificates.{SignedBy}
use ofgp_core.Node.Check.Shared.{check_votie-shared}

-- A block with the commits of all nodes, and one of a later term with their prepares.
abbrev committed_votie : Votie
committed_votie = record {
  term = 1;
  height = 1;
  block = a_block;
  prepares = [];
  commits = (0, commit_of 1 0) ∷ (1, commit_of 1 1) ∷ (2, commit_of 1 2) ∷ [];
}

abbrev prepared_votie : Votie
prepared_votie = record {
  term = 2;
  height = 1;
  block = a_block;
  prepares = (0, prepare_of 2 0) ∷ (1, prepare_of 2 1) ∷ (2, prepare_of 2 2) ∷ [];
  commits = [];
}

committed_votie-accepted :
    check_votie one_hash verify_key nodes committed_votie ≡ accepted committed_votie
unfolding check_votie check_block check_block_fields check_digest prepares_match commits_match
    check_commit check_node_id verify_node has_support update_block_id feed_block_fields
    feed_block_body
committed_votie-accepted = refl

prepared_votie-accepted :
    check_votie one_hash verify_key nodes prepared_votie ≡ accepted prepared_votie
unfolding check_votie check_block check_block_fields check_digest prepares_match commits_match
    check_prepare check_node_id verify_node has_support update_block_id feed_block_fields
    feed_block_body
prepared_votie-accepted = refl

check_votie-shared_example :
    (i : ℕ) × (false ≡ false)
    × SignedBy one_hash verify_key nodes committed_votie i
    × SignedBy one_hash verify_key nodes prepared_votie i
unfolding lookup
check_votie-shared_example =
    check_votie-shared one_hash verify_key nodes committed_votie committed_votie prepared_votie
      prepared_votie (λ i. false) nodes-IsValid (omega arith) refl (omega arith)
      (tt, (refl, (refl, (refl, tt))), omega arith) ((refl, (refl, (refl, tt))), tt, omega arith)
      committed_votie-accepted prepared_votie-accepted

-- A sync response of two blocks.
abbrev pack : ℕ → BlockPack
pack height = record {
  init = record (init_of 1 height a_block) { sig = 0 ∷ [] };
  prepares = [];
  commits = [];
}

abbrev response : SyncUpResponse
response = record {
  commits = pack 1 ∷ pack 2 ∷ [];
  more = false;
  fresh = none;
  strong_accuse = none;
}
