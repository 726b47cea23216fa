-- ===== src/Node/Signing/Counts.antt =====
-- node/node_sign.go: a transaction is sent with the signatures of a quorum, and once.
use ofgp_core.Db.Defs.{Db, get_sign_msg}
use ofgp_core.Base.{
  ℕ_eq, String_eq, if◌then◌else◌, Option-cases, length, All, Map, lookup, insert, UniqueKeys, ℕ,
  ◌+◌, ◌≤◌, ◌<◌, String, ◌≡◌, inl, inr, List, [], ◌∷◌, arith, ltb, leb, delete, length-insert,
  insert-UniqueKeys, insert-All, delete-All, zero, suc, refl, sym, subst, ◌⊎◌, Bool, true, false,
  not, ◌&&◌, none, some,
}
use ofgp_core.Proto.Types.{SignedResult, SignTxRequest}
use ofgp_core.Cluster.Defs.{NodeInfo, Cluster}
use ofgp_core.Cluster.Quorum.{count}
use ofgp_core.Node.Check.Certificates.{below, has, KeysBelow, count-has}
use ofgp_core.Node.Signing.Defs.{SignedResultCache, Signing, add_signed, clear_on_fail}
use ofgp_core.Node.Signing.Save.{
  gather_sigs, Sent, SigningEvent, ChainWatchers, send_tx_to_chain, sign_quorums, put_cache, decide,
  not_merged, sent, broadcast, signed_tx, is_chain,
}

-- The signed results of a cache are of different known nodes, and counted.
pub record IsCounted (n : ℕ) (c : SignedResultCache) : Type 0 where
  pub known : KeysBelow n c.cache
  pub distinct : UniqueKeys c.cache
  pub counted : c.signed_count ≡ length c.cache

abbrev pub CountedEntry : ℕ → String × SignedResultCache → Type 0
CountedEntry n (tx_id, c) = IsCounted n c

abbrev pub IsCollecting : Cluster → Signing → Type 0
IsCollecting c s = All (CountedEntry (length c.node_list)) s.caches

insert-KeysBelow :
    {A : Type 0} (n k : ℕ) (a : A) (m : Map ℕ A)
    → k < n
    → KeysBelow n m
    → KeysBelow n (insert k a m)
unfolding insert
insert-KeysBelow n k a [] lt h = (lt, tt)
insert-KeysBelow n k a ((j, b) ∷ m) lt h = ground (arith, insert-KeysBelow n k a m lt h.1)

-- How many nodes from the index on have a result.
hits : ℕ → List NodeInfo → Map ℕ SignedResult → ℕ
hits idx [] cache = 0
hits idx (node ∷ nodes) cache =
    let rest = hits (idx + 1) nodes cache in if has cache idx then rest + 1 else rest

hits-count :
    (idx : ℕ) (nodes : List NodeInfo) (cache : Map ℕ SignedResult)
    → hits idx nodes cache + count (has cache) (below idx)
      ≡ count (has cache) (below (idx + length nodes))
unfolding hits
hits-count idx [] cache = ground arith
hits-count idx (node ∷ nodes) cache = ground (arith, hits-count (idx + 1) nodes cache)

length-gather_sigs :
    (idx : ℕ) (nodes : List NodeInfo) (cache : Map ℕ SignedResult) (q n : ℕ)
    → n < q
    → q ≤ n + hits idx nodes cache
    → length (gather_sigs idx nodes cache q n) + n ≡ q
unfolding gather_sigs hits
length-gather_sigs idx [] cache q n lt le = omega arith
length-gather_sigs idx (node ∷ nodes) cache q n lt le = elim (Option-cases (lookup idx cache)) [
  | inl none_at ↦ ground (arith, none_at, length-gather_sigs (idx + 1) nodes cache q n lt)
  | inr (result, found) ↦ ground (arith, found, length-gather_sigs (idx + 1) nodes cache q (n + 1))
]

-- The transaction of a request goes out with the signatures of as many nodes as its quorum.
abbrev pub ByQuorum : ChainWatchers → Cluster → Db → String → SigningEvent → Type 0
ByQuorum w c db tx_id (broadcast chain tx sigs) =
    (req : SignTxRequest) × (q : ℕ) × (a : ℕ) × (get_sign_msg db tx_id ≡ some req)
    × (sign_quorums w c req ≡ some (q, a))
    × (tx ≡ req.newly_tx.payload)
    × ((length sigs ≡ q) ⊎ (q ≡ 0))
ByQuorum w c db tx_id (signed_tx sc_tx_id chain) = Unit

abbrev pub Collected : ChainWatchers → Cluster → Db → String → Signing × List SigningEvent → Type 0
Collected w c db tx_id (s, events) = IsCollecting c s × All (ByQuorum w c db tx_id) events

clear_on_fail-caches :
    (now : ℕ) (s : Signing) (req : SignTxRequest)
    → (clear_on_fail now s req).caches ≡ delete req.watched_tx.txid s.caches
unfolding clear_on_fail
clear_on_fail-caches now s req = ground arith

clear_on_fail-IsCollecting :
    (now : ℕ) (c : Cluster) (s : Signing) (req : SignTxRequest)
    → IsCollecting c s
    → IsCollecting c (clear_on_fail now s req)
clear_on_fail-IsCollecting now c s req h =
    subst (All (CountedEntry (length c.node_list))) (sym (clear_on_fail-caches now s req))
      (delete-All (CountedEntry (length c.node_list)) req.watched_tx.txid s.caches h)

send_tx_to_chain-Collected :
    (w : ChainWatchers) (c : Cluster) (db : Db) (now : ℕ) (s : Signing) (msg : SignedResult)
    (req : SignTxRequest) (sigs : List (List (List ℕ))) (q a : ℕ)
    → IsCollecting c s
    → get_sign_msg db msg.tx_id ≡ some req
    → sign_quorums w c req ≡ some (q, a)
    → (length sigs ≡ q) ⊎ (q ≡ 0)
    → Collected w c db msg.tx_id (send_tx_to_chain w now s msg req sigs)
unfolding send_tx_to_chain
send_tx_to_chain-Collected w c db now s msg req sigs q a h er eq enough = by_chain (is_chain msg.to)
  where
    by_sent :
        (o : Sent)
        → Collected w c db msg.tx_id (elim o [
          | not_merged ↦ (clear_on_fail now s req, signed_tx msg.tx_id msg.to ∷ [])
          | sent ↦ (s, broadcast msg.to req.newly_tx.payload sigs ∷ signed_tx msg.tx_id msg.to ∷ [])
        ])
    by_sent not_merged = (clear_on_fail-IsCollecting now c s req h, (tt, tt))
    by_sent sent = (h, ((req, q, a, er, eq, refl, enough), (tt, tt)))

    by_chain :
        (t : Bool)
        → Collected w c db msg.tx_id (
            if t
            then (elim (w.send msg.to req.newly_tx.payload sigs) [
              | not_merged ↦ (clear_on_fail now s req, signed_tx msg.tx_id msg.to ∷ [])
              | sent ↦
                  (s, broadcast msg.to req.newly_tx.payload sigs ∷ signed_tx msg.tx_id msg.to ∷ [])
            ])
            else (s, []))
    by_chain true = by_sent (w.send msg.to req.newly_tx.payload sigs)
    by_chain false = (h, tt)

gather_sigs-quorum :
    (c : Cluster) (cache : SignedResultCache) (q : ℕ)
    → IsCounted (length c.node_list) cache
    → leb q cache.signed_count ≡ true
    → (length (gather_sigs 0 c.node_list cache.cache q 0) ≡ q) ⊎ (q ≡ 0)
gather_sigs-quorum c cache zero k le = inr refl
gather_sigs-quorum c cache (suc q) k le = inl (
    omega (
      arith,
      length-gather_sigs 0 c.node_list cache.cache (suc q) 0 (omega arith) (
          ground (
            arith,
            k.counted,
            hits-count 0 c.node_list cache.cache,
            count-has (length c.node_list) cache.cache k.distinct k.known,
          )),
    ))

pub decide-Collected :
    (w : ChainWatchers) (c : Cluster) (db : Db) (now : ℕ) (s : Signing) (req : SignTxRequest)
    (msg : SignedResult) (cache : SignedResultCache) (q a : ℕ)
    → IsCollecting c s
    → IsCounted (length c.node_list) cache
    → get_sign_msg db msg.tx_id ≡ some req
    → sign_quorums w c req ≡ some (q, a)
    → Collected w c db msg.tx_id (decide w c now s req msg cache q a)
unfolding decide
decide-Collected w c db now s req msg cache q a h k er eq =
    by_quorum (leb q cache.signed_count && not cache.done_flag) refl
  where
    put :
        (d : SignedResultCache)
        → IsCounted (length c.node_list) d
        → IsCollecting c (put_cache s msg.tx_id d)
    put d kd = insert-All (CountedEntry (length c.node_list)) msg.tx_id d s.caches kd h

    done : SignedResultCache
    done = record cache { done_flag = true; done_time = now }

    by_err :
        (t : Bool)
        → Collected w c db msg.tx_id (
            if t
            then (clear_on_fail now (put_cache s msg.tx_id cache) req, [])
            else (put_cache s msg.tx_id cache, []))
    by_err true =
        (clear_on_fail-IsCollecting now c (put_cache s msg.tx_id cache) req (put cache k), tt)
    by_err false = (put cache k, tt)

    by_quorum :
        (t : Bool)
        → (leb q cache.signed_count && not cache.done_flag) ≡ t
        → Collected w c db msg.tx_id (
            if t
            then send_tx_to_chain w now
                (put_cache s msg.tx_id done)
                msg
                req
                (gather_sigs 0 c.node_list cache.cache q 0)
            else if ltb a cache.err_cnt
            then (clear_on_fail now (put_cache s msg.tx_id cache) req, [])
            else (put_cache s msg.tx_id cache, []))
    by_quorum true e =
        send_tx_to_chain-Collected w c db now (put_cache s msg.tx_id done) msg req
          (gather_sigs 0 c.node_list cache.cache q 0) q a
          (put done (record { known = k.known; distinct = k.distinct; counted = k.counted })) er eq
          (gather_sigs-quorum c cache q k (ground (arith, e)))
    by_quorum false e = by_err (ltb a cache.err_cnt)

-- A result of a node that has none yet is counted once.
pub add_signed-IsCounted :
    (n : ℕ) (msg : SignedResult) (cache : SignedResultCache)
    → msg.node_id < n
    → lookup msg.node_id cache.cache ≡ none
    → IsCounted n cache
    → IsCounted n (add_signed msg cache)
add_signed-IsCounted n msg cache lt absent k = record {
  known = insert-KeysBelow n msg.node_id msg cache.cache lt k.known;
  distinct = insert-UniqueKeys msg.node_id msg cache.cache k.distinct;
  counted = ground (arith, k.counted, absent, length-insert msg.node_id msg cache.cache);
}
