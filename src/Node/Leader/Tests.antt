-- ===== src/Node/Leader/Tests.antt =====
-- The theorems about node/leader.go at concrete inputs.
use ofgp_core.Node.Samples.{one_hash, nodes}
use ofgp_core.Cluster.Leader.{leader_node_of_term, leader_loop}
use ofgp_core.Db.Defs.{Db, get_commit_top}
use ofgp_core.BlockStore.Init.{is_supported}
use ofgp_core.Node.Leader.Defs.{
  Leader, is_in_charge, ready_to_init_new_block, drop_old, is_usable, gather_votes, after_gather,
  scan_vote_pool, pool_vote, add_vote, become_leader, new_init, heartbeat,
}
use ofgp_core.Node.Leader.Propose.{try_create_block}
use ofgp_core.Node.Leader.Loop.{leader_step, new_vote}
use ofgp_core.Node.Leader.Pool.{IsVoting, ByLeader}
use ofgp_core.Node.Leader.Safe.{leader_step-Kept}
use ofgp_core.Node.Leader.Supported.{try_create_block-is_supported}
use ofgp_core.Base.{
  ℕ_eq, String_eq, bytes_Eq, lookup, ℕ, ◌≡◌, refl, true, List, [], ◌∷◌, arith, All, insert, inl,
  inr, Option, none, some,
}
use ofgp_core.Samples.{genesis_block, db}
use ofgp_core.Proto.Types.{Digest, Vote, InitMsg}
use ofgp_core.Proto.Blocks.{block_id, to_votie}

-- A vote of the node for the top of the sample database, in the term 1, which the node 1 leads.
abbrev vote_of : ℕ → Vote
vote_of n = record { term = 1; votie = to_votie genesis_block; node_id = n; sig = [] }

abbrev two_votes : Leader
two_votes = record {
  node_id = 1;
  term = 1;
  votes = (0, vote_of 0) ∷ (1, vote_of 1) ∷ [];
  initing = none;
  vote_pool = [];
  new_node_host = "";
  leaving_node_id = none;
}

abbrev three_votes : Leader
three_votes = record two_votes { votes = (0, vote_of 0) ∷ (1, vote_of 1) ∷ (2, vote_of 2) ∷ [] }

abbrev signer : Digest → Option (List ℕ)
signer d = some (1 ∷ [])

abbrev no_encoding : Option Vote → List ℕ
no_encoding vote = []

two_votes-IsVoting : IsVoting nodes two_votes
unfolding lookup
two_votes-IsVoting = record {
  cast = ((refl, refl), ((refl, refl), tt));
  distinct = (refl, (refl, tt));
  pooled = tt;
  initing = tt;
}

elected :
    leader_step one_hash signer no_encoding nodes db two_votes (new_vote (vote_of 2))
    ≡ some (
      record three_votes { vote_pool = (1, (2, vote_of 2) ∷ []) ∷ [] },
      become_leader 1 ∷ heartbeat 1 three_votes.votes ∷ [],
    )
unfolding leader_step add_vote pool_vote scan_vote_pool drop_old gather_votes is_usable after_gather
    is_in_charge leader_node_of_term leader_loop get_commit_top lookup insert
elected = refl

leader_step-Kept_example :
    IsVoting nodes (record three_votes { vote_pool = (1, (2, vote_of 2) ∷ []) ∷ [] })
    × All
        (ByLeader nodes (record three_votes { vote_pool = (1, (2, vote_of 2) ∷ []) ∷ [] }))
        (become_leader 1 ∷ heartbeat 1 three_votes.votes ∷ [])
leader_step-Kept_example =
    leader_step-Kept one_hash signer no_encoding nodes db two_votes
      (record three_votes { vote_pool = (1, (2, vote_of 2) ∷ []) ∷ [] }) (new_vote (vote_of 2))
      (become_leader 1 ∷ heartbeat 1 three_votes.votes ∷ []) two_votes-IsVoting elected

abbrev leader_db : Db
leader_db = record db { term = some 1 }

ready : ready_to_init_new_block nodes three_votes ≡ some true
unfolding ready_to_init_new_block is_in_charge leader_node_of_term leader_loop
ready = refl

try_create_block-is_supported_example :
    (init : InitMsg) × (try_create_block one_hash signer no_encoding nodes leader_db three_votes 7
        []
      ≡ some (record three_votes { initing = some init }, new_init init ∷ []))
    × (init.term ≡ 1)
    × (init.height ≡ 1)
    × (init.block.prev_block_id ≡ block_id genesis_block)
    × (is_supported nodes db init ≡ some true)
unfolding get_commit_top
try_create_block-is_supported_example =
    try_create_block-is_supported one_hash signer no_encoding nodes leader_db db three_votes
      genesis_block 7 [] (λ d. (1 ∷ [], refl)) ready (omega arith) refl refl refl refl refl
      (inr (inl refl), (inr (inl refl), (inr (inl refl), tt)))
