-- ===== src/Node/Leader/Propose.antt =====
-- node/leader.go: `tryCreateBlock`, which proposes a block of the leader's term. The hash function, the
-- signer and the encoding of a joining node's vote are parameters; the signer may fail.
use ofgp_core.Base.{
  ℕ_eq, bytes_Eq, String_eq, ◌>>=◌, ◌>>◌, ltb, nat_eq, if◌then◌else◌, ◌==◌, length, Map, is_some,
  assert_true, ℕ, ◌+◌, String, Bool, not, ◌&&◌, ◌||◌, Option, none, some, List, [], ◌∷◌,
}
use ofgp_core.Proto.Types.{Digest, Transaction, Block, Votie, Vote, InitMsg, BlockPack}
use ofgp_core.Proto.Blocks.{block_id, to_votie, has_less_term_height_than}
use ofgp_core.Proto.Create.{
  create_txs_block, create_join_reconfig_block, create_leave_reconfig_block,
}
use ofgp_core.Proto.MsgIds.{init_msg_id}
use ofgp_core.Proto.Votes.{get_max_votie}
use ofgp_core.Cluster.Defs.{Cluster}
use ofgp_core.Db.Defs.{Db, get_node_term, get_commit_top}
use ofgp_core.Node.Leader.Defs.{Leader, LeaderEvent, ready_to_init_new_block, new_init}

abbrev no_host : String → Bool
no_host host = host == ""

-- `make(pb.VoteMap)` without a vote.
abbrev no_votes : Map ℕ Vote
no_votes = []

module _ (sha256 : List ℕ → Digest) (sign : Digest → Option (List ℕ))
    (encode_vote : Option Vote → List ℕ) where
  -- A new block: for the node that joins, else for the one that leaves, else of transactions. Without a
  -- request to join there is no block for the node that joins.
  unfoldable pub new_block : Cluster → Db → Leader → ℕ → List Transaction → Option (Option Block)
  new_block c db ld now txs = do
    top ← get_commit_top db
    if not (no_host ld.new_node_host)
        then (elim db.join_node_info [
          | none ↦ some none
          | some req ↦
              create_join_reconfig_block sha256 now (block_id top) ld.new_node_host
                (length c.node_list) req.pubkey (encode_vote req.vote)
              >>= λ block. some (some block)
        ])
        else (elim ld.leaving_node_id [
          | some node_id ↦
              create_leave_reconfig_block sha256 now (block_id top) node_id >>= λ block.
              some (some block)
          | none ↦ create_txs_block sha256 now (block_id top) txs >>= λ block. some (some block)
        ])

  -- The block to propose: the largest block voted for, where it is above the top, must follow the top and
  -- is proposed again.
  unfoldable pub block_to_init :
      Cluster → Db → Leader → BlockPack → Votie → ℕ → List Transaction → Option (Option Block)
  unfolding new_block
  block_to_init c db ld top max_votie now txs =
      if has_less_term_height_than (to_votie top) max_votie
        && not (max_votie.block.id == block_id top)
      then some
          (if max_votie.block.prev_block_id == block_id top then some max_votie.block else none)
      else new_block c db ld now txs

  -- The votes go with the first block of the term, or of the leader.
  unfoldable pub init_of_block : Leader → BlockPack → Votie → Block → InitMsg
  init_of_block ld top max_votie block = record {
    term = ld.term;
    height = top.init.height + 1;
    block = block;
    node_id = ld.node_id;
    votes =
        if ltb top.init.term ld.term || block.prev_block_id == max_votie.block.id
        then ld.votes
        else no_votes;
    sig = [];
  }

  -- `init.Sig = sig`, and the events of a signature that succeeds.
  unfoldable pub sign_init : Leader → InitMsg → Leader × List LeaderEvent
  sign_init ld init = elim (sign (init_msg_id sha256 init)) [
    | none ↦ (ld, [])
    | some sig ↦
        let init' = record init { sig = sig } in
        (record ld { initing = some init' }, new_init init' ∷ [])
  ]

  abbrev pub propose : Leader → BlockPack → Votie → Option Block → Leader × List LeaderEvent
  propose ld top max_votie none = (ld, [])
  propose ld top max_votie (some block) = sign_init ld (init_of_block ld top max_votie block)

  unfoldable pub try_create_block_impl :
      Cluster → Db → Leader → ℕ → List Transaction → Option (Leader × List LeaderEvent)
  unfolding block_to_init init_of_block sign_init
  try_create_block_impl c db ld now txs = do
    term ← get_node_term db
    if not (nat_eq term ld.term) || is_some db.fresh then some (ld, []) else (do
      top ← get_commit_top db
      max_votie ← get_max_votie ld.votes
      block ← block_to_init c db ld top max_votie now txs
      some (propose ld top max_votie block))

  unfoldable pub try_create_block :
      Cluster → Db → Leader → ℕ → List Transaction → Option (Leader × List LeaderEvent)
  unfolding try_create_block_impl
  try_create_block c db ld now txs = do
    ready ← ready_to_init_new_block c ld
    assert_true ready
    try_create_block_impl c db ld now txs
