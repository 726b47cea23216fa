-- ===== src/Node/Check/Requests.antt =====
-- node/msg_validation.go: the checks of the requests to sign, to join and to leave, and of signed
-- results.
use ofgp_core.Base.{
  ℕ_eq, String_eq, leb, nat_eq, ◌==◌, length, codes, hex_decode, ℕ, String, Bool, not, ◌&&◌, none,
  some, List,
}
use ofgp_core.Proto.Types.{Digest, Vote, JoinRequest, LeaveRequest, SignTxRequest, SignedResult}
use ofgp_core.Proto.MsgIds.{
  vote_id, sign_msg_id, signed_result_id, join_request_id, leave_request_id,
}
use ofgp_core.Cluster.Defs.{Cluster}
use ofgp_core.Node.Check.Result.{◌>>=◌, ◌>>◌, Check, require, must, rejected, accepted}
use ofgp_core.Node.Check.Basic.{check_node_id, check_host, verify_node}
use ofgp_core.Node.Check.Votes.{check_votie}

abbrev is_empty_text : String → Bool
is_empty_text s = nat_eq (length (codes s)) 0

module _ (sha256 : List ℕ → Digest) (verify : List ℕ → Digest → List ℕ → Bool) where
  unfoldable pub check_sign_tx_request : Cluster → SignTxRequest → Bool
  check_sign_tx_request c req =
      check_node_id c req.node_id
      && verify_node verify c req.node_id (sign_msg_id sha256 req) req.sig

  unfoldable pub check_signed_result : Cluster → SignedResult → Bool
  check_signed_result c msg =
      check_node_id c msg.node_id
      && not (is_empty_text msg.tx_id)
      && not (is_empty_text msg.to)
      && verify_node verify c msg.node_id (signed_result_id sha256 msg) msg.sig

  -- The joining node votes under the number that it is to have.
  unfoldable pub check_join_vote : Cluster → Vote → List ℕ → Check Vote
  check_join_vote c vote pubkey = do
    require (nat_eq vote.node_id c.total_node_count && leb vote.votie.term vote.term)
    votie ← check_votie sha256 verify c vote.votie
    let vote' = record vote { votie = votie }
    require (verify pubkey (vote_id sha256 vote') vote.sig)
    accepted vote'

  -- `host` and `pubkey_hex` are what the node is configured to let join.
  unfoldable pub check_join_request : Cluster → JoinRequest → String → String → Check JoinRequest
  unfolding check_join_vote
  check_join_request c req host pubkey_hex = do
    require (check_host req.host && req.host == host && req.pubkey == pubkey_hex)
    vote ← elim req.vote [ none ↦ rejected | some vote ↦ accepted vote ]
    pubkey ← elim (hex_decode (codes req.pubkey)) [
      | none ↦ rejected
      | some pubkey ↦ accepted pubkey
    ]
    vote' ← check_join_vote c vote pubkey
    let req' = record req { vote = some vote' }
    id ← must (join_request_id sha256 req')
    require (verify pubkey id req.sig)
    accepted req'

  unfoldable pub check_leave_request : Cluster → LeaveRequest → Bool
  check_leave_request c req =
      check_node_id c req.node_id
      && verify_node verify c req.node_id (leave_request_id sha256 req) req.sig
