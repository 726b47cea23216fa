-- ===== src/Node/Signing/Quorum.antt =====
-- node/node_sign.go: any result that comes in keeps the counts, and sends only with a quorum, and once.
use ofgp_core.Base.{
  ℕ_eq, String_eq, if◌then◌else◌, Option-cases, length, is_some, lookup, insert-All, lookup-All, ℕ,
  ◌<◌, ◌≡◌, refl, sym, subst, inl, inr, Bool, true, false, ◌&&◌, Option, none, some, [],
}
use ofgp_core.Proto.Types.{SignTxRequest, SignedResult}
use ofgp_core.Cluster.Defs.{Cluster}
use ofgp_core.Db.Defs.{get_sign_msg, is_sign_failed}
use ofgp_core.Node.Signing.Defs.{
  SignedResultCache, Signing, new_cache, add_total_count, add_signed, add_err_cnt,
}
use ofgp_core.Node.Signing.Save.{
  ChainWatchers, is_signed, count_early, count_result, sign_quorums, put_cache, decide, save_result,
  do_save,
}
use ofgp_core.Node.Signing.Counts.{
  IsCounted, CountedEntry, IsCollecting, Collected, decide-Collected, add_signed-IsCounted,
}

-- The cache with one more message, whatever came of it.
Recounted : ℕ → SignedResult → SignedResultCache → Type 0
Recounted n msg cache = IsCounted n (add_signed msg cache) × IsCounted n (add_err_cnt cache)

recounted :
    (n : ℕ) (msg : SignedResult) (cache : SignedResultCache)
    → msg.node_id < n
    → lookup msg.node_id cache.cache ≡ none
    → IsCounted n cache
    → Recounted n msg (add_total_count cache)
unfolding Recounted
recounted n msg cache lt absent k = (
  add_signed-IsCounted n msg (add_total_count cache) lt absent total,
  record { known = k.known; distinct = k.distinct; counted = k.counted },
)
  where
    total : IsCounted n (add_total_count cache)
    total = record { known = k.known; distinct = k.distinct; counted = k.counted }

either-IsCounted :
    (n : ℕ) (msg : SignedResult) (cache : SignedResultCache) (t : Bool)
    → Recounted n msg cache
    → IsCounted n (if t then add_signed msg cache else add_err_cnt cache)
unfolding Recounted
either-IsCounted n msg cache true r = r.0
either-IsCounted n msg cache false r = r.1

save_result-Collected :
    (w : ChainWatchers) (c : Cluster) (now : ℕ) (s : Signing) (msg : SignedResult)
    (cache : SignedResultCache)
    → IsCollecting c s
    → msg.node_id < length c.node_list
    → lookup msg.node_id cache.cache ≡ none
    → IsCounted (length c.node_list) cache
    → Collected w c s.db msg.tx_id (save_result w c now s msg cache)
unfolding save_result count_early count_result
save_result-Collected w c now s msg cache h lt absent k =
    by_request (get_sign_msg s.db msg.tx_id) refl
  where
    n : ℕ
    n = length c.node_list

    more : Recounted n msg (add_total_count cache)
    more = recounted n msg cache lt absent k

    put :
        (d : SignedResultCache)
        → IsCounted n d
        → Collected w c s.db msg.tx_id (put_cache s msg.tx_id d, [])
    put d kd = (insert-All (CountedEntry n) msg.tx_id d s.caches kd h, tt)

    by_quorums :
        (req : SignTxRequest) (d : SignedResultCache) (o : Option (ℕ × ℕ))
        → get_sign_msg s.db msg.tx_id ≡ some req
        → IsCounted n d
        → sign_quorums w c req ≡ o
        → Collected w c s.db msg.tx_id (elim o [
          | none ↦ (put_cache s msg.tx_id d, [])
          | some quorums ↦ decide w c now s req msg d quorums.0 quorums.1
        ])
    by_quorums req d none er kd e = put d kd
    by_quorums req d (some (q, a)) er kd e = decide-Collected w c s.db now s req msg d q a h kd er e

    by_request :
        (o : Option SignTxRequest)
        → get_sign_msg s.db msg.tx_id ≡ o
        → Collected w c s.db msg.tx_id (elim o [
          | none ↦ (put_cache s msg.tx_id (count_early msg (add_total_count cache)), [])
          | some req ↦
              let cache' = count_result w req msg (add_total_count cache) in
              elim (sign_quorums w c req) [
                | none ↦ (put_cache s msg.tx_id cache', [])
                | some quorums ↦ decide w c now s req msg cache' quorums.0 quorums.1
              ]
        ])
    by_request none e =
        put _ (either-IsCounted n msg (add_total_count cache) (is_signed msg.code) more)
    by_request (some req) e =
        by_quorums req (count_result w req msg (add_total_count cache)) (sign_quorums w c req) e
          (either-IsCounted n msg (add_total_count cache)
            (is_signed msg.code
              && w.verify_sign msg.to req.newly_tx.payload msg.signatures msg.node_id)
            more)
          refl

-- A signed result from a known node keeps this: of each transaction the signed results are of different
-- known nodes, and counted. A transaction that goes out to a chain is the one of the request, and goes with
-- as many nodes' signatures as the quorum of the cluster that holds the funds, if that is not 0.
pub do_save-Collected :
    (w : ChainWatchers) (c : Cluster) (now : ℕ) (s : Signing) (msg : SignedResult)
    → IsCollecting c s
    → msg.node_id < length c.node_list
    → Collected w c s.db msg.tx_id (do_save w c now s msg)
unfolding do_save new_cache lookup
do_save-Collected w c now s msg h lt = by_failed (is_sign_failed s.db msg.tx_id msg.term)
  where
    n : ℕ
    n = length c.node_list

    by_exist :
        (cache : SignedResultCache)
        → lookup msg.tx_id s.caches ≡ some cache
        → Collected w c s.db msg.tx_id (
            if is_some (lookup msg.node_id cache.cache)
            then (s, [])
            else save_result w c now s msg cache)
    by_exist cache found = elim (Option-cases (lookup msg.node_id cache.cache)) [
      | inl absent ↦
          subst
            (λ (o : Option SignedResult).
              Collected w c s.db msg.tx_id
                (if is_some o then (s, []) else save_result w c now s msg cache))
            (sym absent)
            (save_result-Collected w c now s msg cache h lt absent
              (lookup-All (CountedEntry n) msg.tx_id s.caches h found))
      | inr (result, present) ↦
          subst
            (λ (o : Option SignedResult).
              Collected w c s.db msg.tx_id
                (if is_some o then (s, []) else save_result w c now s msg cache))
            (sym present) (h, tt)
    ]

    by_cache :
        (o : Option SignedResultCache)
        → lookup msg.tx_id s.caches ≡ o
        → Collected w c s.db msg.tx_id (elim o [
          | none ↦ save_result w c now s msg (new_cache now)
          | some cache ↦
              if is_some (lookup msg.node_id cache.cache)
              then (s, [])
              else save_result w c now s msg cache
        ])
    by_cache none e =
        save_result-Collected w c now s msg (new_cache now) h lt refl
          (record { known = tt; distinct = tt; counted = refl })
    by_cache (some cache) e = by_exist cache e

    by_failed :
        (t : Bool)
        → Collected w c s.db msg.tx_id (
            if t then (s, []) else (elim (lookup msg.tx_id s.caches) [
              | none ↦ save_result w c now s msg (new_cache now)
              | some cache ↦
                  if is_some (lookup msg.node_id cache.cache)
                  then (s, [])
                  else save_result w c now s msg cache
            ]))
    by_failed true = (h, tt)
    by_failed false = by_cache (lookup msg.tx_id s.caches) refl
