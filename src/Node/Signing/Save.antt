-- ===== src/Node/Signing/Save.antt =====
-- node/node_sign.go: `doSave`, which counts a result, and sends the transaction at the quorum. The watchers
-- of the chains are parameters: the check of a node's signatures, and the sending.
use ofgp_core.Base.{
  ℕ_eq, String_eq, ltb, leb, nat_eq, if◌then◌else◌, ◌==◌, Map, is_some, lookup, insert, ℕ, ◌+◌,
  String, Bool, true, false, not, ◌&&◌, ◌||◌, Option, none, some, List, [], ◌∷◌, ◌++◌,
}
use ofgp_core.Proto.Types.{SignTxRequest, CodeType, SignedResult, signed, need_sync, reject}
use ofgp_core.Proto.Blocks.{is_transfer_tx}
use ofgp_core.Cluster.Defs.{NodeInfo, Snapshot, Cluster}
use ofgp_core.Db.Defs.{get_sign_msg, is_sign_failed}
use ofgp_core.Node.Signing.Defs.{
  SignedResultCache, Signing, new_cache, add_total_count, add_signed, add_err_cnt, clear_on_fail,
}

-- What a watcher makes of the transaction: the signatures may not go with it.
pub data Sent : Type 0 where
  not_merged : Sent
  sent : Sent

-- `broadcast`: the transaction with the signatures goes to the chain of the name. `signed_tx` is
-- `SignedTxEvent`, with the transaction of the source chain.
pub data SigningEvent : Type 0 where
  broadcast : String → List ℕ → List (List (List ℕ)) → SigningEvent
  signed_tx : String → String → SigningEvent

pub record ChainWatchers : Type 0 where
  pub verify_sign : String → List ℕ → List (List ℕ) → ℕ → Bool
  pub send : String → List ℕ → List (List (List ℕ)) → Sent
  pub get_cluster_snapshot : String → Option Snapshot

abbrev pub is_signed : CodeType → Bool
is_signed signed = true
is_signed need_sync = false
is_signed reject = false

-- The signatures are gathered in the order of the node list, and at most `quorum_n`; `count` is how many
-- there are so far.
unfoldable pub gather_sigs : ℕ → List NodeInfo → Map ℕ SignedResult → ℕ → ℕ → List (List (List ℕ))
gather_sigs idx [] cache quorum_n count = []
gather_sigs idx (node ∷ nodes) cache quorum_n count =
    let rest = gather_sigs (idx + 1) nodes cache quorum_n (count + 1) in
    let skip = gather_sigs (idx + 1) nodes cache quorum_n count in
    elim (lookup idx cache) [
      | none ↦ skip
      | some result ↦
          if nat_eq (count + 1) quorum_n then result.signatures ∷ [] else result.signatures ∷ rest
    ]

abbrev pub is_chain : String → Bool
is_chain chain = chain == "btc" || chain == "bch" || chain == "xin" || chain == "eos"

-- `sendTxToChain`: the event is raised whether or not the signatures could be merged.
unfoldable pub send_tx_to_chain :
    ChainWatchers
    → ℕ
    → Signing
    → SignedResult
    → SignTxRequest
    → List (List (List ℕ))
    → Signing × List SigningEvent
send_tx_to_chain w now s msg req sigs =
    if is_chain msg.to
    then (elim (w.send msg.to req.newly_tx.payload sigs) [
      | not_merged ↦ (clear_on_fail now s req, signed_tx msg.tx_id msg.to ∷ [])
      | sent ↦ (s, broadcast msg.to req.newly_tx.payload sigs ∷ signed_tx msg.tx_id msg.to ∷ [])
    ])
    else (s, [])

-- The result is counted; one that comes before the request is not checked.
unfoldable pub count_early : SignedResult → SignedResultCache → SignedResultCache
count_early msg cache = if is_signed msg.code then add_signed msg cache else add_err_cnt cache

unfoldable pub count_result :
    ChainWatchers → SignTxRequest → SignedResult → SignedResultCache → SignedResultCache
count_result w req msg cache =
    if is_signed msg.code && w.verify_sign msg.to req.newly_tx.payload msg.signatures msg.node_id
    then add_signed msg cache
    else add_err_cnt cache

-- The quorum and the accuse quorum of the cluster that holds the funds.
unfoldable pub sign_quorums : ChainWatchers → Cluster → SignTxRequest → Option (ℕ × ℕ)
sign_quorums w c req =
    if is_transfer_tx req.watched_tx
    then (elim (w.get_cluster_snapshot req.multisig_address) [
      | none ↦ none
      | some snapshot ↦ some (snapshot.quorum_n, snapshot.accuse_quorum_n)
    ])
    else some (c.quorum_n, c.accuse_quorum_n)

abbrev pub put_cache : Signing → String → SignedResultCache → Signing
put_cache s tx_id cache = record s { caches = insert tx_id cache s.caches }

-- The decision at the end of `doSave`.
unfoldable pub decide :
    ChainWatchers
    → Cluster
    → ℕ
    → Signing
    → SignTxRequest
    → SignedResult
    → SignedResultCache
    → ℕ
    → ℕ
    → Signing × List SigningEvent
unfolding send_tx_to_chain gather_sigs
decide w c now s req msg cache quorum_n accuse_quorum_n =
    if leb quorum_n cache.signed_count && not cache.done_flag
    then send_tx_to_chain w now
        (put_cache s msg.tx_id (record cache { done_flag = true; done_time = now })) msg req
        (gather_sigs 0 c.node_list cache.cache quorum_n 0)
    else if ltb accuse_quorum_n cache.err_cnt
    then (clear_on_fail now (put_cache s msg.tx_id cache) req, [])
    else (put_cache s msg.tx_id cache, [])

-- `doSave` from the cache of the transaction on.
unfoldable pub save_result :
    ChainWatchers
    → Cluster
    → ℕ
    → Signing
    → SignedResult
    → SignedResultCache
    → Signing × List SigningEvent
unfolding count_early count_result sign_quorums decide
save_result w c now s msg cache = elim (get_sign_msg s.db msg.tx_id) [
  | none ↦ (put_cache s msg.tx_id (count_early msg (add_total_count cache)), [])
  | some req ↦
      let cache' = count_result w req msg (add_total_count cache) in
      elim (sign_quorums w c req) [
        | none ↦ (put_cache s msg.tx_id cache', [])
        | some quorums ↦ decide w c now s req msg cache' quorums.0 quorums.1
      ]
]

unfoldable pub do_save :
    ChainWatchers → Cluster → ℕ → Signing → SignedResult → Signing × List SigningEvent
unfolding save_result new_cache
do_save w c now s msg =
    if is_sign_failed s.db msg.tx_id msg.term then (s, []) else (elim (lookup msg.tx_id s.caches) [
      | none ↦ save_result w c now s msg (new_cache now)
      | some cache ↦
          if is_some (lookup msg.node_id cache.cache)
          then (s, [])
          else save_result w c now s msg cache
    ])

-- One result after the other, each with its time: the state, and the events that the results for one
-- transaction raise.
unfoldable pub save_all :
    ChainWatchers
    → Cluster
    → String
    → Signing
    → List (ℕ × SignedResult)
    → Signing × List SigningEvent
unfolding do_save
save_all w c tx_id s [] = (s, [])
save_all w c tx_id s ((now, msg) ∷ msgs) =
    let saved = do_save w c now s msg in
    let rest = save_all w c tx_id saved.0 msgs in
    (rest.0, if msg.tx_id == tx_id then saved.1 ++ rest.1 else rest.1)
