-- ===== src/Node/Signing/Once.antt =====
-- node/node_sign.go: the flag `doneFlag`, and results that are errors.
use ofgp_core.Db.Defs.{get_sign_msg}
use ofgp_core.Base.{
  ◌==◌, refl, ℕ, ℕ_eq, String_eq, leb, Bool-cases, lookup, lookup-insert_self, String, ◌≡◌, inl,
  inr, true, not, ◌&&◌, List, ◌∷◌, arith, Option-cases, sym, subst, [],
}
use ofgp_core.Proto.Types.{SignTxRequest, SignedResult}
use ofgp_core.Cluster.Defs.{Cluster}
use ofgp_core.Node.Signing.Defs.{SignedResultCache, Signing, new_cache, add_total_count}
use ofgp_core.Node.Signing.Save.{
  SigningEvent, ChainWatchers, send_tx_to_chain, decide, broadcast, count_result, sign_quorums,
  save_result, do_save, save_all,
}
use ofgp_core.Node.Signing.Kept.{IsDone, IsKept, do_save_keeps}

decide-IsDone :
    (w : ChainWatchers) (c : Cluster) (now : ℕ) (s : Signing) (req : SignTxRequest)
    (msg : SignedResult) (cache : SignedResultCache) (q a : ℕ) (chain : String) (tx : List ℕ)
    (sigs : List (List (List ℕ))) (rest : List SigningEvent)
    → (decide w c now s req msg cache q a).1 ≡ broadcast chain tx sigs ∷ rest
    → IsDone (decide w c now s req msg cache q a).0 msg.tx_id
unfolding decide send_tx_to_chain
decide-IsDone w c now s req msg cache q a chain tx sigs rest e =
    elim (Bool-cases (leb q cache.signed_count && not cache.done_flag)) [
      | inr idle ↦ ground (arith, idle, e)
      | inl now_done ↦ ground (
        arith,
        now_done,
        e,
        lookup-insert_self msg.tx_id (record cache { done_flag = true; done_time = now }) s.caches,
      )
    ]

save_result-IsDone :
    (w : ChainWatchers) (c : Cluster) (now : ℕ) (s : Signing) (msg : SignedResult)
    (cache : SignedResultCache) (chain : String) (tx : List ℕ) (sigs : List (List (List ℕ)))
    (rest : List SigningEvent)
    → (save_result w c now s msg cache).1 ≡ broadcast chain tx sigs ∷ rest
    → IsDone (save_result w c now s msg cache).0 msg.tx_id
unfolding save_result
save_result-IsDone w c now s msg cache chain tx sigs rest e =
    elim (Option-cases (get_sign_msg s.db msg.tx_id)) [
      | inl n ↦ ground (arith, n, e)
      | inr (req, er) ↦ elim (Option-cases (sign_quorums w c req)) [
        | inl n ↦ ground (arith, er, n, e)
        | inr (quorums, eq) ↦ ground (
          arith,
          er,
          eq,
          e,
          decide-IsDone w c now s req msg (count_result w req msg (add_total_count cache)) quorums.0
              quorums.1 chain tx sigs rest,
        )
      ]
    ]

-- Nothing more is sent of a transaction that is done.
save_result-quiet :
    (w : ChainWatchers) (c : Cluster) (now : ℕ) (s : Signing) (msg : SignedResult)
    (cache : SignedResultCache)
    → cache.done_flag ≡ true
    → (save_result w c now s msg cache).1 ≡ []
unfolding save_result decide count_result
save_result-quiet w c now s msg cache d = ground (arith, d)

do_save-quiet :
    (w : ChainWatchers) (c : Cluster) (now : ℕ) (s : Signing) (msg : SignedResult)
    → IsDone s msg.tx_id
    → (do_save w c now s msg).1 ≡ []
unfolding do_save
do_save-quiet w c now s msg d = elim (Option-cases (lookup msg.tx_id s.caches)) [
  | inl n ↦ ground (arith, n, d)
  | inr (cache, found) ↦ ground (arith, found, d, save_result-quiet w c now s msg cache)
]

-- After each of the results that are handled, the results for the transaction are still kept.
abbrev pub KeptThrough :
    ChainWatchers → Cluster → String → Signing → List (ℕ × SignedResult) → Type 0
KeptThrough w c tx_id s [] = Unit
KeptThrough w c tx_id s (m ∷ ms) =
    IsKept (do_save w c m.0 s m.1).0 tx_id × KeptThrough w c tx_id (do_save w c m.0 s m.1).0 ms

save_all-quiet :
    (w : ChainWatchers) (c : Cluster) (tx_id : String) (s : Signing)
    (msgs : List (ℕ × SignedResult))
    → IsDone s tx_id
    → KeptThrough w c tx_id s msgs
    → (save_all w c tx_id s msgs).1 ≡ []
unfolding save_all
save_all-quiet w c tx_id s [] d k = refl
save_all-quiet w c tx_id s ((now, msg) ∷ msgs) d k =
    let rest =
      save_all-quiet w c tx_id (do_save w c now s msg).0 msgs
        (do_save_keeps w c now s msg tx_id d k.0) k.1 in
    elim (Bool-cases (msg.tx_id == tx_id)) [
      | inl y ↦
          let same : msg.tx_id ≡ tx_id = (String_eq.beq_iff msg.tx_id tx_id).0 y in
          let silent = do_save-quiet w c now s msg (subst (IsDone s) (sym same) d) in
          ground (arith, y, silent, rest)
      | inr n ↦ ground (arith, n, rest)
    ]

-- When a result makes a transaction go out to its chain, no results for it that come later, in any number
-- and among results for other transactions, make it go out again or raise another event, as long as its
-- results are kept.
pub do_save_once :
    (w : ChainWatchers) (c : Cluster) (now : ℕ) (s : Signing) (msg : SignedResult)
    (later : List (ℕ × SignedResult)) (chain : String) (tx : List ℕ) (sigs : List (List (List ℕ)))
    (rest : List SigningEvent)
    → (do_save w c now s msg).1 ≡ broadcast chain tx sigs ∷ rest
    → KeptThrough w c msg.tx_id (do_save w c now s msg).0 later
    → (save_all w c msg.tx_id (do_save w c now s msg).0 later).1 ≡ []
unfolding do_save
do_save_once w c now s msg later chain tx sigs rest e k =
    save_all-quiet w c msg.tx_id (do_save w c now s msg).0 later done k
  where
    done : IsDone (do_save w c now s msg).0 msg.tx_id
    done = elim (Option-cases (lookup msg.tx_id s.caches)) [
      | inl n ↦
          ground (arith, n, e, save_result-IsDone w c now s msg (new_cache now) chain tx sigs rest)
      | inr (cache, found) ↦
          ground (arith, found, e, save_result-IsDone w c now s msg cache chain tx sigs rest)
    ]
