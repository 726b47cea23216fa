-- ===== src/Node/Check/Votes.antt =====
-- node/msg_validation.go: the checks of votes and of init messages. A vote whose block is nil, which
-- `checkVote` dereferences, is not a value of its type.
use ofgp_core.Base.{
  ℕ_eq, leb, nat_eq, if◌then◌else◌, length, Map, ℕ, Bool, true, ◌&&◌, ◌||◌, List, [], ◌∷◌,
}
use ofgp_core.Proto.Types.{Digest, Votie, Vote, InitMsg}
use ofgp_core.Proto.MsgIds.{vote_id, init_msg_id}
use ofgp_core.Cluster.Defs.{Cluster}
use ofgp_core.Node.Check.Result.{◌>>=◌, ◌>>◌, Check, require, accepted}
use ofgp_core.Node.Check.Basic.{
  check_node_id, verify_node, check_block, prepares_match, commits_match,
}

pub data CheckMode : Type 0 where
  check_full check_lite : CheckMode

module _ (sha256 : List ℕ → Digest) (verify : List ℕ → Digest → List ℕ → Bool) where
  -- The end of `checkVotie`: the genesis block needs no support, any other a quorum of one kind.
  unfoldable pub has_support : Cluster → Votie → Bool
  has_support c v =
      if nat_eq v.height 0
      then nat_eq v.term 0 && nat_eq (length v.prepares) 0 && nat_eq (length v.commits) 0
      else leb c.quorum_n (length v.prepares) || leb c.quorum_n (length v.commits)

  unfoldable pub check_votie : Cluster → Votie → Check Votie
  unfolding has_support
  check_votie c v = do
    block ← check_block sha256 verify v.block
    require (prepares_match sha256 verify c v.term v.height block.id v.prepares)
    require (commits_match sha256 verify c v.term v.height block.id v.commits)
    require (has_support c v)
    accepted (record v { block = block })

  unfoldable pub check_vote : Cluster → Vote → Check Vote
  check_vote c vote = do
    require (check_node_id c vote.node_id && leb vote.votie.term vote.term)
    votie ← check_votie c vote.votie
    let vote' = record vote { votie = votie }
    require (verify_node verify c vote.node_id (vote_id sha256 vote') vote.sig)
    accepted vote'

  -- The loop over the votes of an init message of the term.
  unfoldable pub check_votes : Cluster → ℕ → Map ℕ Vote → Check (Map ℕ Vote)
  unfolding check_vote
  check_votes c term [] = accepted []
  check_votes c term ((node_id, vote) ∷ votes) = do
    require (check_node_id c node_id && nat_eq vote.term term && nat_eq vote.node_id node_id)
    vote' ← check_vote c vote
    votes' ← check_votes c term votes
    accepted ((node_id, vote') ∷ votes')

  abbrev signed_init : Cluster → InitMsg → Bool
  signed_init c msg = verify_node verify c msg.node_id (init_msg_id sha256 msg) msg.sig

  -- An init message from its leader, with the votes that it carries.
  unfoldable pub check_init_msg : Cluster → InitMsg → Check InitMsg
  check_init_msg c msg = do
    block ← check_block sha256 verify msg.block
    require (check_node_id c msg.node_id)
    votes ← check_votes c msg.term msg.votes
    let msg' = record msg { block = block; votes = votes }
    require (signed_init c msg')
    accepted msg'

  -- The votes that `checkInit` keeps: fewer than a quorum are dropped, and they are checked only in the
  -- full mode.
  unfoldable pub init_votes : Cluster → CheckMode → InitMsg → Check (Map ℕ Vote)
  init_votes c mode msg =
      if leb c.quorum_n (length msg.votes)
      then (elim mode [
        | check_full ↦ check_votes c msg.term msg.votes
        | check_lite ↦ accepted msg.votes
      ])
      else accepted []

  abbrev pub init_signature : Cluster → CheckMode → InitMsg → Bool
  init_signature c check_full msg = signed_init c msg
  init_signature c check_lite msg = true

  -- An init message that comes in a block pack of a sync.
  unfoldable pub check_init : Cluster → InitMsg → CheckMode → Check InitMsg
  unfolding init_votes
  check_init c msg mode = do
    block ← check_block sha256 verify msg.block
    require (check_node_id c msg.node_id)
    votes ← init_votes c mode msg
    let msg' = record msg { block = block; votes = votes }
    require (init_signature c mode msg')
    accepted msg'
