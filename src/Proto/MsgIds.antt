-- ===== src/Proto/MsgIds.antt =====
-- proto/pbtypes_ext.go: the identifiers of votes, init messages, signing requests and results, and of the
-- requests to join and to leave. Maps are fed in the order of their keys (util/sort).
use ofgp_core.Base.{
  ℕ_eq, ◌>>=◌, leb, if◌then◌else◌, Map, ℕ, String, Option, some, List, [], ◌∷◌, ◌++◌,
}
use ofgp_core.Proto.Types.{
  Digest, WatchedTxInfo, Votie, Vote, InitMsg, BlockPack, JoinRequest, LeaveRequest, SignTxRequest,
  CodeType, SignedResult, signed, need_sync, reject,
}
use ofgp_core.Proto.Blocks.{init_block_id}
use ofgp_core.Proto.Feed.{
  feed_field, feed_text_field, feed_bin_field, feed_int_field, feed_digest_field,
  feed_recharge_list, prepare_msg_id, commit_msg_id,
}

-- `sort.Int32s` of the keys, which moves the entries with them: no key stands in a map twice.
unfoldable pub insert_key {ℓ} : {A : Type ℓ} → ℕ × A → List (ℕ × A) → List (ℕ × A)
insert_key e [] = e ∷ []
insert_key e (f ∷ m) = if leb e.0 f.0 then e ∷ f ∷ m else f ∷ insert_key e m

unfoldable pub sort_keys {ℓ} : {A : Type ℓ} → Map ℕ A → Map ℕ A
unfolding insert_key
sort_keys [] = []
sort_keys (e ∷ m) = insert_key e (sort_keys m)

-- The loop over the sorted keys, which feeds the identifier of each message under one name.
unfoldable pub feed_ids {ℓ} : {A : Type ℓ} → String → (A → Digest) → Map ℕ A → List ℕ
feed_ids name id [] = []
feed_ids name id ((k, a) ∷ m) = feed_digest_field name (id a) ++ feed_ids name id m

unfoldable pub feed_data_list : List (List ℕ) → List ℕ
feed_data_list [] = []
feed_data_list (d ∷ ds) = feed_bin_field "Data" d ++ feed_data_list ds

unfoldable pub feed_sign_msg_fields : String → SignTxRequest → List ℕ
unfolding feed_recharge_list
feed_sign_msg_fields name msg = feed_field name (
    feed_int_field "Term" msg.term
    ++ feed_int_field "NodeId" msg.node_id
    ++ feed_text_field "MultisigAddress" msg.multisig_address
    ++ feed_field "WatchedTx" (
        feed_text_field "Txid" tx.txid
        ++ feed_int_field "Amount" tx.amount
        ++ feed_text_field "From" tx.from
        ++ feed_text_field "To" tx.to
        ++ feed_recharge_list tx.recharge_list)
    ++ feed_bin_field "NewlyTx" msg.newly_tx.payload)
  where
    tx : WatchedTxInfo
    tx = msg.watched_tx

abbrev pub code_number : CodeType → ℕ
code_number signed = 0
code_number need_sync = 1
code_number reject = 2

unfoldable pub feed_signed_result_fields : String → SignedResult → List ℕ
unfolding feed_data_list
feed_signed_result_fields name msg = feed_field name (
    feed_int_field "Code" (code_number msg.code)
    ++ feed_int_field "NodeId" msg.node_id
    ++ feed_text_field "TxId" msg.tx_id
    ++ feed_text_field "To" msg.to
    ++ feed_int_field "Term" msg.term
    ++ elim msg.signatures [ [] ↦ [] | d ∷ ds ↦ feed_field "SignedData" (feed_data_list (d ∷ ds)) ])

unfoldable pub feed_leave_request_fields : String → LeaveRequest → List ℕ
feed_leave_request_fields name msg =
    feed_field name (feed_int_field "NodeId" msg.node_id ++ feed_text_field "Msg" msg.msg)

module _ (sha256 : List ℕ → Digest) where
  unfoldable pub feed_votie_fields : String → Votie → List ℕ
  unfolding sort_keys feed_ids
  feed_votie_fields name votie = feed_field name (
      feed_int_field "Term" votie.term
      ++ feed_int_field "Height" votie.height
      ++ feed_digest_field "BlockId" votie.block.id
      ++ feed_field "Prepares"
          (feed_ids "PrepareMsgId" (prepare_msg_id sha256) (sort_keys votie.prepares))
      ++ feed_field "Commits"
          (feed_ids "CommitMsgId" (commit_msg_id sha256) (sort_keys votie.commits)))

  unfoldable pub votie_id : Votie → Digest
  votie_id votie = sha256 (feed_votie_fields "Votie" votie)

  unfoldable pub feed_vote_fields : String → Vote → List ℕ
  feed_vote_fields name vote = feed_field name (
      feed_int_field "Term" vote.term
      ++ feed_digest_field "VotieId" (votie_id vote.votie)
      ++ feed_int_field "NodeId" vote.node_id)

  unfoldable pub vote_id : Vote → Digest
  vote_id vote = sha256 (feed_vote_fields "Vote" vote)

  -- The votes are fed only if there is one.
  unfoldable pub feed_votes : Map ℕ Vote → List ℕ
  unfolding feed_ids
  feed_votes [] = []
  feed_votes (e ∷ m) = feed_field "Votes" (feed_ids "VoteId" vote_id (e ∷ m))

  unfoldable pub feed_init_msg_fields : String → InitMsg → List ℕ
  unfolding feed_votes sort_keys
  feed_init_msg_fields name msg = feed_field name (
      feed_int_field "Term" msg.term
      ++ feed_int_field "Height" msg.height
      ++ feed_digest_field "BlockId" (init_block_id msg)
      ++ feed_int_field "NodeId" msg.node_id
      ++ feed_votes (sort_keys msg.votes))

  unfoldable pub init_msg_id : InitMsg → Digest
  init_msg_id msg = sha256 (feed_init_msg_fields "InitMsg" msg)

  unfoldable pub feed_block_pack_fields : String → BlockPack → List ℕ
  unfolding sort_keys feed_ids
  feed_block_pack_fields name bp = feed_field name (
      feed_digest_field "InitMsgId" (init_msg_id bp.init)
      ++ feed_field "Prepares"
          (feed_ids "PrepareMsgId" (prepare_msg_id sha256) (sort_keys bp.prepares))
      ++ feed_field "Commits"
          (feed_ids "CommitMsgId" (commit_msg_id sha256) (sort_keys bp.commits)))

  -- `BlockPack.Id`, which is not the identifier of the block.
  unfoldable pub block_pack_id : BlockPack → Digest
  block_pack_id bp = sha256 (feed_block_pack_fields "BlockPack" bp)

  unfoldable pub sign_msg_id : SignTxRequest → Digest
  sign_msg_id msg = sha256 (feed_sign_msg_fields "SignMsg" msg)

  unfoldable pub signed_result_id : SignedResult → Digest
  signed_result_id msg = sha256 (feed_signed_result_fields "SignedResult" msg)

  -- A request without a vote dereferences nil.
  unfoldable pub join_request_id : JoinRequest → Option Digest
  join_request_id msg = do
    vote ← msg.vote
    some (
        sha256 (
          feed_field "JoinRequest" (
            feed_text_field "Host" msg.host
            ++ feed_text_field "Pubkey" msg.pubkey
            ++ feed_digest_field "Vote" (vote_id vote))))

  unfoldable pub leave_request_id : LeaveRequest → Digest
  leave_request_id msg = sha256 (feed_leave_request_fields "LeaveRequest" msg)
