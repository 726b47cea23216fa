-- ===== src/Node/Signing/Kept.antt =====
-- node/node_sign.go: the flag `doneFlag` of a transaction whose results are kept.
use ofgp_core.Db.Defs.{is_sign_failed, get_sign_msg}
use mathlib.Core.Option
use ofgp_core.Base.{
  Option, none, lookup-delete, lookup-insert, delete, is_some, ◌==◌, ltb, if◌then◌else◌, Bool, refl,
  false, ℕ, ℕ_eq, String_eq, leb, Bool-cases, lookup, String, ◌≡◌, inl, inr, true, not, ◌&&◌, some,
  List, ◌∷◌, arith, [],
}
use ofgp_core.Proto.Types.{SignTxRequest, SignedResult}
use ofgp_core.Cluster.Defs.{Cluster}
use ofgp_core.Node.Signing.Defs.{
  SignedResultCache, Signing, new_cache, add_total_count, clear_on_fail,
}
use ofgp_core.Node.Signing.Save.{
  SigningEvent, ChainWatchers, send_tx_to_chain, decide, put_cache, is_chain, gather_sigs,
  broadcast, count_result, sign_quorums, save_result, do_save, Sent, count_early, not_merged, sent,
  signed_tx,
}

-- The transaction is being or has been sent.
abbrev pub IsDone : Signing → String → Type 0
IsDone s tx_id =
    Option.map (λ (c : SignedResultCache). c.done_flag) (lookup tx_id s.caches) ≡ some true

clear_on_fail-caches :
    (now : ℕ) (s : Signing) (req : SignTxRequest)
    → (clear_on_fail now s req).caches ≡ delete req.watched_tx.txid s.caches
unfolding clear_on_fail
clear_on_fail-caches now s req = ground arith

-- The results for the transaction are kept.
abbrev pub IsKept : Signing → String → Type 0
IsKept s tx_id = is_some (lookup tx_id s.caches) ≡ true

clear_on_fail-IsDone :
    (now : ℕ) (s : Signing) (req : SignTxRequest) (tx_id : String)
    → IsDone s tx_id
    → IsKept (clear_on_fail now s req) tx_id
    → IsDone (clear_on_fail now s req) tx_id
clear_on_fail-IsDone now s req tx_id d k =
    ground (
      arith,
      d,
      k,
      clear_on_fail-caches now s req,
      lookup-delete req.watched_tx.txid tx_id s.caches,
    )

put_cache-IsDone :
    (s : Signing) (put tx_id : String) (cache : SignedResultCache)
    → (put ≡ tx_id → cache.done_flag ≡ true)
    → IsDone s tx_id
    → IsDone (put_cache s put cache) tx_id
put_cache-IsDone s put tx_id cache same d = elim (Bool-cases (put == tx_id)) [
  | inl y ↦
      ground
        (arith, y, lookup-insert put tx_id cache s.caches, same ((String_eq.beq_iff put tx_id).0 y))
  | inr n ↦ ground (arith, n, lookup-insert put tx_id cache s.caches, d)
]

send_tx_to_chain-IsDone :
    (w : ChainWatchers) (now : ℕ) (s : Signing) (msg : SignedResult) (req : SignTxRequest)
    (sigs : List (List (List ℕ))) (tx_id : String)
    → IsDone s tx_id
    → IsKept (send_tx_to_chain w now s msg req sigs).0 tx_id
    → IsDone (send_tx_to_chain w now s msg req sigs).0 tx_id
unfolding send_tx_to_chain
send_tx_to_chain-IsDone w now s msg req sigs tx_id d =
    by_cases (is_chain msg.to) (w.send msg.to req.newly_tx.payload sigs)
  where
    after : Bool → Sent → Signing
    after on_chain o =
        (if on_chain
          then (elim o as (λ x. Signing × List SigningEvent) [
            | not_merged ↦ (clear_on_fail now s req, signed_tx msg.tx_id msg.to ∷ [])
            | sent ↦
                (s, broadcast msg.to req.newly_tx.payload sigs ∷ signed_tx msg.tx_id msg.to ∷ [])
          ])
          else (s, [])).0

    by_cases :
        (on_chain : Bool) (o : Sent)
        → IsKept (after on_chain o) tx_id
        → IsDone (after on_chain o) tx_id
    by_cases false o k = d
    by_cases true not_merged k = clear_on_fail-IsDone now s req tx_id d k
    by_cases true sent k = d

decide_keeps :
    (w : ChainWatchers) (c : Cluster) (now : ℕ) (s : Signing) (req : SignTxRequest)
    (msg : SignedResult) (cache : SignedResultCache) (q a : ℕ) (tx_id : String)
    → (msg.tx_id ≡ tx_id → cache.done_flag ≡ true)
    → IsDone s tx_id
    → IsKept (decide w c now s req msg cache q a).0 tx_id
    → IsDone (decide w c now s req msg cache q a).0 tx_id
unfolding decide
decide_keeps w c now s req msg cache q a tx_id same d =
    by_cases (leb q cache.signed_count && not cache.done_flag) (ltb a cache.err_cnt)
  where
    done : SignedResultCache
    done = record cache { done_flag = true; done_time = now }

    sigs : List (List (List ℕ))
    sigs = gather_sigs 0 c.node_list cache.cache q 0

    decided : Bool → Bool → Signing
    decided send fail =
        (if send
          then send_tx_to_chain w now (put_cache s msg.tx_id done) msg req sigs
          else if fail
          then (clear_on_fail now (put_cache s msg.tx_id cache) req, [])
          else (put_cache s msg.tx_id cache, [])).0

    by_cases :
        (send fail : Bool) → IsKept (decided send fail) tx_id → IsDone (decided send fail) tx_id
    by_cases true fail k =
        send_tx_to_chain-IsDone w now (put_cache s msg.tx_id done) msg req sigs tx_id
          (put_cache-IsDone s msg.tx_id tx_id done (λ e. refl) d) k
    by_cases false true k =
        clear_on_fail-IsDone now (put_cache s msg.tx_id cache) req tx_id
          (put_cache-IsDone s msg.tx_id tx_id cache same d) k
    by_cases false false k = put_cache-IsDone s msg.tx_id tx_id cache same d

count_early_done :
    (msg : SignedResult) (cache : SignedResultCache)
    → cache.done_flag ≡ true
    → (count_early msg (add_total_count cache)).done_flag ≡ true
unfolding count_early
count_early_done msg cache d = ground (arith, d)

count_result_done :
    (w : ChainWatchers) (req : SignTxRequest) (msg : SignedResult) (cache : SignedResultCache)
    → cache.done_flag ≡ true
    → (count_result w req msg (add_total_count cache)).done_flag ≡ true
unfolding count_result
count_result_done w req msg cache d = ground (arith, d)

save_result_keeps :
    (w : ChainWatchers) (c : Cluster) (now : ℕ) (s : Signing) (msg : SignedResult)
    (cache : SignedResultCache) (tx_id : String)
    → (msg.tx_id ≡ tx_id → cache.done_flag ≡ true)
    → IsDone s tx_id
    → IsKept (save_result w c now s msg cache).0 tx_id
    → IsDone (save_result w c now s msg cache).0 tx_id
unfolding save_result
save_result_keeps w c now s msg cache tx_id same d = by_request (get_sign_msg s.db msg.tx_id)
  where
    early : SignedResultCache
    early = count_early msg (add_total_count cache)

    counted : SignTxRequest → SignedResultCache
    counted req = count_result w req msg (add_total_count cache)

    after : SignTxRequest → Option (ℕ × ℕ) → Signing
    after req quorums =
        (elim quorums as (λ x. Signing × List SigningEvent) [
          | none ↦ (put_cache s msg.tx_id (counted req), [])
          | some qs ↦ decide w c now s req msg (counted req) qs.0 qs.1
        ]).0

    after_request : Option SignTxRequest → Signing
    after_request o =
        (elim o as (λ x. Signing × List SigningEvent) [
          | none ↦ (put_cache s msg.tx_id early, [])
          | some req ↦ elim (sign_quorums w c req) as (λ x. Signing × List SigningEvent) [
            | none ↦ (put_cache s msg.tx_id (counted req), [])
            | some qs ↦ decide w c now s req msg (counted req) qs.0 qs.1
          ]
        ]).0

    by_quorums :
        (req : SignTxRequest) (quorums : Option (ℕ × ℕ))
        → IsKept (after req quorums) tx_id
        → IsDone (after req quorums) tx_id
    by_quorums req none k =
        put_cache-IsDone s msg.tx_id tx_id (counted req)
          (λ e. count_result_done w req msg cache (same e)) d
    by_quorums req (some qs) k =
        decide_keeps w c now s req msg (counted req) qs.0 qs.1 tx_id
          (λ e. count_result_done w req msg cache (same e)) d k

    by_request :
        (o : Option SignTxRequest) → IsKept (after_request o) tx_id → IsDone (after_request o) tx_id
    by_request none k =
        put_cache-IsDone s msg.tx_id tx_id early (λ e. count_early_done msg cache (same e)) d
    by_request (some req) k = by_quorums req (sign_quorums w c req) k

pub do_save_keeps :
    (w : ChainWatchers) (c : Cluster) (now : ℕ) (s : Signing) (msg : SignedResult) (tx_id : String)
    → IsDone s tx_id
    → IsKept (do_save w c now s msg).0 tx_id
    → IsDone (do_save w c now s msg).0 tx_id
unfolding do_save
do_save_keeps w c now s msg tx_id d =
    by_cases (is_sign_failed s.db msg.tx_id msg.term) (lookup msg.tx_id s.caches) refl
  where
    after : Bool → Option SignedResultCache → Signing
    after failed found =
        (if failed then (s, []) else (elim found as (λ x. Signing × List SigningEvent) [
          | none ↦ save_result w c now s msg (new_cache now)
          | some cache ↦
              if is_some (lookup msg.node_id cache.cache)
              then (s, [])
              else save_result w c now s msg cache
        ])).0

    counted : Bool → SignedResultCache → Signing
    counted seen cache = (if seen then (s, []) else save_result w c now s msg cache).0

    by_seen :
        (seen : Bool) (cache : SignedResultCache)
        → (msg.tx_id ≡ tx_id → cache.done_flag ≡ true)
        → IsKept (counted seen cache) tx_id
        → IsDone (counted seen cache) tx_id
    by_seen true cache same k = d
    by_seen false cache same k = save_result_keeps w c now s msg cache tx_id same d k

    by_cases :
        (failed : Bool) (found : Option SignedResultCache)
        → lookup msg.tx_id s.caches ≡ found
        → IsKept (after failed found) tx_id
        → IsDone (after failed found) tx_id
    by_cases true found e k = d
    by_cases false none e k =
        save_result_keeps w c now s msg (new_cache now) tx_id
          (λ same. absurd (ground (arith, same, d, e))) d k
    by_cases false (some cache) e k =
        by_seen (is_some (lookup msg.node_id cache.cache)) cache
          (λ same. ground (arith, same, d, e)) k
