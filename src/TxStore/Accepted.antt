-- ===== src/TxStore/Accepted.antt =====
-- primitives/blockstore.go: which transactions `validateTxs` lets a block hold.
use ofgp_core.Base.{
  true, ℕ_eq, String_eq, bytes_Eq, All, ℕ, ◌≡◌, refl, ◌↔◌, ◌⊎◌, some, List, [], ◌∷◌, arith, ◌>>=◌,
  Option, none, sym, ◌∙◌, ◌≢◌, Bool-cases, Option-cases, bytes_eq_iff, lookup, String, inl, inr,
  ◌==◌,
}
use ofgp_core.Proto.Types.{Digest, Transaction}
use ofgp_core.TxStore.Defs.{
  TxStore, TxWithTimeMs, valid, check_chain, Validity, not_exist, invalid, validate_tx,
}
use ofgp_core.Proto.Ids.{watched_equal_to_iff}
use ofgp_core.Proto.Feed.{tx_equal_to, tx_id}
use ofgp_core.TxStore.Validate.{
  validate_eth_tx, HasResult, PushEvent, first_amount, Watchers, check_all_on_chain,
  validate_in_pool, InPool, OnChain, check_on_chain, both_valid, after_verdict, validate_txs,
  finish,
}

-- A loop that runs through, after which the chains have every transaction that was put off.
abbrev Passes : Watchers → Validity × List Transaction × List Transaction → Type 0
Passes w looped = (looped.0 ≡ check_chain) × (check_all_on_chain w looped.2 ≡ some valid)

abbrev Good : Watchers → Validity × Transaction → Type 0
Good w verdict =
    (verdict.0 ≡ valid) ⊎ ((verdict.0 ≡ check_chain) × (check_on_chain w verdict.1 ≡ some valid))

both_on_chain :
    (w : Watchers) (tx : Transaction) (rest : List Transaction)
    → (check_all_on_chain w (tx ∷ rest) ≡ some valid)
      ↔ ((check_on_chain w tx ≡ some valid) × (check_all_on_chain w rest ≡ some valid))
unfolding check_all_on_chain
both_on_chain w tx rest = by_cases (check_on_chain w tx) (check_all_on_chain w rest)
  where
    by_cases :
        (here there : Option Validity)
        → ((do a ← here; b ← there; some (both_valid a b)) ≡ some valid)
          ↔ ((here ≡ some valid) × (there ≡ some valid))
    by_cases none there = ground arith
    by_cases (some a) none = ground arith
    by_cases (some a) (some b) = ground arith

after_verdict-Passes :
    (w : Watchers) (verdict : Validity × Transaction) (rest : List Transaction)
    (looped : Validity × List Transaction × List Transaction)
    → Passes w (after_verdict verdict rest looped) ↔ (Good w verdict × Passes w looped)
unfolding after_verdict
after_verdict-Passes w (valid, tx) rest looped = ground arith
after_verdict-Passes w (check_chain, tx) rest (v, rest', later) =
    ground (arith, both_on_chain w tx later)
after_verdict-Passes w (invalid, tx) rest looped = ground arith
after_verdict-Passes w (not_exist, tx) rest looped = ground arith

after_verdict_valid :
    (verdict : Validity × Transaction) (rest : List Transaction)
    (looped : Validity × List Transaction × List Transaction)
    → looped.0 ≢ valid
    → (after_verdict verdict rest looped).0 ≢ valid
unfolding after_verdict
after_verdict_valid (valid, tx) rest looped n = n
after_verdict_valid (check_chain, tx) rest looped n = n
after_verdict_valid (invalid, tx) rest looped n = λ h. ground (arith, h)
after_verdict_valid (not_exist, tx) rest looped n = λ h. ground (arith, h)

-- The verdict of `validateTxs`, without the transactions.
abbrev pub verdict : Option (Validity × List Transaction) → Option Validity
verdict none = none
verdict (some r) = some r.0

verdict-finish :
    (w : Watchers) (later txs' : List Transaction)
    → verdict (finish w (check_chain, txs', later)) ≡ check_all_on_chain w later
unfolding finish
verdict-finish w later txs' = by_cases (check_all_on_chain w later)
  where
    by_cases : (o : Option Validity) → verdict (o >>= λ u. some (u, txs')) ≡ o
    by_cases none = refl
    by_cases (some u) = refl

-- `validateETHTx` asks for the minting.
validate_eth_tx_iff :
    (w : Watchers) (tx : Transaction) (ev : PushEvent)
    → (validate_eth_tx ev tx.watched_tx ≡ some true) ↔ (
        (amount : ℕ) × (ev.method_mint ≡ true)
        × (ev.mint_data ≡ some (tx.watched_tx.txid, amount))
        × (first_amount tx.watched_tx.recharge_list ≡ some amount))
unfolding validate_eth_tx
validate_eth_tx_iff w tx ev = elim (Bool-cases ev.method_mint) [
  | inr n ↦ (λ e. absurd (ground (arith, n, e)), λ q. absurd (ground (arith, n, q.1)))
  | inl y ↦ elim (Option-cases ev.mint_data) [
    | inl n ↦ (λ e. absurd (ground (arith, y, n, e)), λ q. absurd (ground (arith, n, q.2)))
    | inr ((p, wad), d) ↦ elim (Option-cases (first_amount tx.watched_tx.recharge_list)) [
      | inl n ↦ (λ e. absurd (ground (arith, y, d, n, e)), λ q. absurd (ground (arith, n, q.3)))
      | inr (amount, fa) ↦ (
        λ e. (
          amount,
          y,
          d
              ∙ same_pair (ground (arith, y, d, fa, e, String_eq.beq_iff p tx.watched_tx.txid))
                  (ground (arith, y, d, fa, e)),
          fa,
        ),
        λ q. ground (arith, y, d, fa, q.2, q.3, String_eq.beq_iff p tx.watched_tx.txid),
      )
    ]
  ]
]
  where
    same_pair :
        {p : String} {wad amount : ℕ}
        → p ≡ tx.watched_tx.txid
        → wad ≡ amount
        → ◌≡◌ {A = Option (String × ℕ)} (some (p, wad)) (some (tx.watched_tx.txid, amount))
    same_pair e f = cc (e, f)

check_on_chain-HasResult :
    (w : Watchers) (tx : Transaction) → (check_on_chain w tx ≡ some valid) ↔ HasResult w tx
unfolding check_on_chain
check_on_chain-HasResult w tx = (forth, back)
  where
    to : String
    to = tx.watched_tx.to

    forth : check_on_chain w tx ≡ some valid → HasResult w tx
    forth e = elim (Bool-cases (to == "bch")) [
      | inl y ↦ inl ((String_eq.beq_iff to "bch").0 y, ground (arith, y, e))
      | inr no_bch ↦ elim (Bool-cases (to == "btc")) [
        | inl y ↦ inr (inl ((String_eq.beq_iff to "btc").0 y, ground (arith, no_bch, y, e)))
        | inr no_btc ↦ elim (Bool-cases (to == "eth")) [
          | inl y ↦ elim (Option-cases (w.eth_event tx.newly_tx_id)) [
            | inl n ↦ absurd (ground (arith, no_bch, no_btc, y, n, e))
            | inr (ev, found) ↦
                let (amount, mint, paid, first) =
                  (validate_eth_tx_iff w tx ev).0 (ground (arith, no_bch, no_btc, y, found, e)) in
                inr (
                  inr (
                    inl ((String_eq.beq_iff to "eth").0 y, (ev, amount, found, mint, paid, first))))
          ]
          | inr no_eth ↦ elim (Bool-cases (to == "xin")) [
            | inl y ↦ inr (
                inr (
                  inr (
                    inl (
                      (String_eq.beq_iff to "xin").0 y,
                      ground (arith, no_bch, no_btc, no_eth, y, e),
                    ))))
            | inr no_xin ↦ elim (Bool-cases (to == "eos")) [
              | inl y ↦ inr (
                  inr (
                    inr (
                      inr (
                        (String_eq.beq_iff to "eos").0 y,
                        ground (arith, no_bch, no_btc, no_eth, no_xin, y, e),
                      ))))
              | inr no_eos ↦ absurd (ground (arith, no_bch, no_btc, no_eth, no_xin, no_eos, e))
            ]
          ]
        ]
      ]
    ]

    back : HasResult w tx → check_on_chain w tx ≡ some valid
    back (inl (h, r)) = rw (h, r) refl
    back (inr (inl (h, r))) = rw (h, r) refl
    back (inr (inr (inl (h, minted)))) =
        let (ev, amount, found, mint, paid, first) = minted in
        let good = (validate_eth_tx_iff w tx ev).1 (amount, mint, paid, first) in
        rw h (ground (arith, found, good))
    back (inr (inr (inr (inl (h, r))))) = rw (h, r) refl
    back (inr (inr (inr (inr (h, r))))) = rw (h, r) refl

validate_tx-Good :
    (sha256 : List ℕ → Digest) (ts : TxStore) (w : Watchers) (tx : Transaction)
    → Good w (validate_tx sha256 ts tx) ↔ (InPool sha256 ts tx ⊎ OnChain ts w tx)
unfolding validate_tx tx_equal_to
validate_tx-Good sha256 ts w tx = elim (Option-cases (lookup tx.watched_tx.txid ts.tx_info_by_id)) [
  | inr (mem, own) ↦ (
    λ g.
        inl
          (mem, own, ground (arith, own, g, bytes_eq_iff (tx_id sha256 mem.tx) (tx_id sha256 tx))),
    λ h. inl (own_valid mem own h),
  )
  | inl n ↦ elim (Option-cases (lookup tx.watched_tx.txid ts.watched_tx_info)) [
    | inl m ↦ (λ g. absurd (ground (arith, n, m, g)), λ h. absurd (not_watched n m h))
    | inr (watched, found) ↦ (
      λ g. inr (
        n,
        (
          watched,
          found,
          (watched_equal_to_iff watched.tx tx.watched_tx).0 (ground (arith, n, found, g)),
        ),
        (check_on_chain-HasResult w tx).0 (ground (arith, n, found, g)),
      ),
      λ h. on_chain n h,
    )
  ]
]
  where
    own_valid :
        (mem : TxWithTimeMs)
        → lookup tx.watched_tx.txid ts.tx_info_by_id ≡ some mem
        → InPool sha256 ts tx ⊎ OnChain ts w tx
        → (validate_tx sha256 ts tx).0 ≡ valid
    own_valid mem own (inl (mem', own', same)) =
        ground (arith, own, own', same, bytes_eq_iff (tx_id sha256 mem'.tx) (tx_id sha256 tx))
    own_valid mem own (inr (no_own, watched, result)) = absurd (ground (arith, own, no_own))

    not_watched :
        lookup tx.watched_tx.txid ts.tx_info_by_id ≡ none
        → lookup tx.watched_tx.txid ts.watched_tx_info ≡ none
        → InPool sha256 ts tx ⊎ OnChain ts w tx
        → ⊥
    not_watched n m (inl (mem, own, same)) = ground (arith, n, own)
    not_watched n m (inr (no_own, (watched, found, same), result)) = ground (arith, m, found)

    on_chain :
        lookup tx.watched_tx.txid ts.tx_info_by_id ≡ none
        → InPool sha256 ts tx ⊎ OnChain ts w tx
        → Good w (validate_tx sha256 ts tx)
    on_chain n (inl (mem, own, same)) = absurd (ground (arith, n, own))
    on_chain n (inr (no_own, (watched, found, same), result)) =
        let equal = (watched_equal_to_iff watched.tx tx.watched_tx).1 same in
        let good = (check_on_chain-HasResult w tx).1 result in
        inr (ground (arith, n, found, equal), ground (arith, n, found, equal, good))

module _ (sha256 : List ℕ → Digest) (ts : TxStore) (w : Watchers) where
  validate_in_pool-Passes :
      (txs : List Transaction)
      → Passes w (validate_in_pool sha256 ts txs)
        ↔ All (λ tx. InPool sha256 ts tx ⊎ OnChain ts w tx) txs
  unfolding validate_in_pool check_all_on_chain
  validate_in_pool-Passes [] = (λ h. tt, λ h. (refl, refl))
  validate_in_pool-Passes (tx ∷ rest) =
      let (passes, good) =
        after_verdict-Passes w (validate_tx sha256 ts tx) rest (validate_in_pool sha256 ts rest) in
      let (to_all, from_all) = validate_in_pool-Passes rest in
      let (to_good, from_good) = validate_tx-Good sha256 ts w tx in
      (
        λ p. let (here, there) = passes p in (to_good here, to_all there),
        λ p. good (from_good p.0, from_all p.1),
      )

  never_valid : (txs : List Transaction) → (validate_in_pool sha256 ts txs).0 ≢ valid
  unfolding validate_in_pool
  never_valid [] = λ h. ground (arith, h)
  never_valid (tx ∷ rest) =
      after_verdict_valid (validate_tx sha256 ts tx) rest (validate_in_pool sha256 ts rest)
        (never_valid rest)

  -- `validateTxs` calls the transactions of a block valid exactly if each of them is one that the
  -- pool has as its own, with the same identifier, or one that the pool has not as its own but has watched,
  -- with the same transfer, and whose result is on the chain that it goes to.
  pub validate_txs-valid :
      (txs : List Transaction)
      → (verdict (validate_txs sha256 ts w txs) ≡ some valid)
        ↔ All (λ tx. InPool sha256 ts tx ⊎ OnChain ts w tx) txs
  unfolding validate_txs
  validate_txs-valid txs =
      by_cases (validate_in_pool sha256 ts txs) (never_valid txs) (validate_in_pool-Passes txs)
    where
      by_cases :
          (looped : Validity × List Transaction × List Transaction)
          → looped.0 ≢ valid
          → Passes w looped ↔ All (λ tx. InPool sha256 ts tx ⊎ OnChain ts w tx) txs
          → (verdict (finish w looped) ≡ some valid)
            ↔ All (λ tx. InPool sha256 ts tx ⊎ OnChain ts w tx) txs
      by_cases (valid, txs', later) n h = absurd (n refl)
      by_cases (check_chain, txs', later) n h = (
        λ p. h.0 (refl, sym (verdict-finish w later txs') ∙ p),
        λ p. verdict-finish w later txs' ∙ (h.1 p).1,
      )
      by_cases (invalid, txs', later) n h = unfold finish in ground (arith, h)
      by_cases (not_exist, txs', later) n h = unfold finish in ground (arith, h)
