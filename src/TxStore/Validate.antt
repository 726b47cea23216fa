-- ===== src/TxStore/Validate.antt =====
-- primitives/blockstore.go: `validateTxs`, the validation of a block's transactions against the
-- pool and, where the pool cannot decide, against the chains.
use ofgp_core.Base.{
  ◌⊎◌, lookup, ℕ_eq, String_eq, nat_eq, if◌then◌else◌, ◌==◌, ◌>>=◌, ℕ, String, ◌≡◌, Bool, true,
  false, Option, none, some, List, [], ◌∷◌,
}
use ofgp_core.Proto.Types.{Digest, AddressInfo, WatchedTxInfo, Transaction}
use ofgp_core.Proto.Feed.{tx_id}
use ofgp_core.TxStore.Defs.{
  TxStore, TxWithTimeMs, WatchedTx, Validity, validate_tx, not_exist, valid, invalid, check_chain,
}

-- An event of the ETH watcher; `mint_data` is its `ExtraData` if that is a `*ew.ExtraMintData`, the
-- proposal and the amount.
pub record PushEvent : Type 0 where
  pub method_mint : Bool
  pub mint_data : Option (String × ℕ)

-- What the watchers of the chains answer, at the time of the call: whether there is a transaction or
-- an event of an identifier.
pub record Watchers : Type 0 where
  pub bch_tx : String → Bool
  pub btc_tx : String → Bool
  pub eth_event : String → Option PushEvent
  pub xin_event : String → Bool
  pub eos_event : String → Bool

abbrev from_bool : Bool → Validity
from_bool true = valid
from_bool false = invalid

abbrev pub first_amount : List AddressInfo → Option ℕ
first_amount [] = none
first_amount (a ∷ as') = some a.amount

-- `validateETHTx`: an empty recharge list is an index out of range, once the proposal is the right one.
unfoldable pub validate_eth_tx : PushEvent → WatchedTxInfo → Option Bool
validate_eth_tx ev sc_tx_info =
    if ev.method_mint
    then (elim ev.mint_data [
      | none ↦ some false
      | some (proposal, wad) ↦
          if proposal == sc_tx_info.txid
          then (do amount ← first_amount sc_tx_info.recharge_list; some (nat_eq wad amount))
          else some false
    ])
    else some false

-- One of the parallel checks.
unfoldable pub check_on_chain : Watchers → Transaction → Option Validity
unfolding validate_eth_tx
check_on_chain w tx =
    if tx.watched_tx.to == "bch"
    then some (from_bool (w.bch_tx tx.newly_tx_id))
    else if tx.watched_tx.to == "btc"
    then some (from_bool (w.btc_tx tx.newly_tx_id))
    else if tx.watched_tx.to == "eth"
    then (elim (w.eth_event tx.newly_tx_id) [
      | none ↦ some invalid
      | some ev ↦ do good ← validate_eth_tx ev tx.watched_tx; some (from_bool good)
    ])
    else if tx.watched_tx.to == "xin"
    then some (from_bool (w.xin_event tx.newly_tx_id))
    else if tx.watched_tx.to == "eos"
    then some (from_bool (w.eos_event tx.newly_tx_id))
    else some invalid

abbrev pub both_valid : Validity → Validity → Validity
both_valid valid v = v
both_valid _ v = invalid

-- All of them: invalid as soon as one answer is. A panic in any of them ends the process.
unfoldable pub check_all_on_chain : Watchers → List Transaction → Option Validity
unfolding check_on_chain
check_all_on_chain w [] = some valid
check_all_on_chain w (tx ∷ rest) = do
  here ← check_on_chain w tx
  there ← check_all_on_chain w rest
  some (both_valid here there)

-- The first loop at one transaction, given what it makes of the others: the verdict, `check_chain`
-- standing for a loop that runs through; the transactions; and those to look up on their chains.
unfoldable pub after_verdict :
    Validity × Transaction
    → List Transaction
    → Validity × List Transaction × List Transaction
    → Validity × List Transaction × List Transaction
after_verdict (valid, tx') rest (v, rest', later) = (v, tx' ∷ rest', later)
after_verdict (check_chain, tx') rest (v, rest', later) = (v, tx' ∷ rest', tx' ∷ later)
after_verdict (invalid, tx') rest looped = (invalid, tx' ∷ rest, [])
after_verdict (not_exist, tx') rest looped = (not_exist, tx' ∷ rest, [])

-- The rest of `validateTxs`, after its first loop.
unfoldable pub finish :
    Watchers → Validity × List Transaction × List Transaction → Option (Validity × List Transaction)
finish w (check_chain, txs', later) = do u ← check_all_on_chain w later; some (u, txs')
finish w (valid, txs', later) = some (valid, txs')
finish w (invalid, txs', later) = some (invalid, txs')
finish w (not_exist, txs', later) = some (not_exist, txs')

module _ (sha256 : List ℕ → Digest) where
  -- The transactions get the identifiers that the comparison gives anew.
  unfoldable pub validate_in_pool :
      TxStore → List Transaction → Validity × List Transaction × List Transaction
  unfolding after_verdict
  validate_in_pool ts [] = (check_chain, [], [])
  validate_in_pool ts (tx ∷ rest) =
      after_verdict (validate_tx sha256 ts tx) rest (validate_in_pool ts rest)

  unfoldable pub validate_txs :
      TxStore → Watchers → List Transaction → Option (Validity × List Transaction)
  unfolding validate_in_pool finish
  validate_txs ts w txs = finish w (validate_in_pool ts txs)

-- The pool has a transaction of the gateway for the same watched one, and the fields of both give one
-- identifier.
abbrev pub InPool : (List ℕ → Digest) → TxStore → Transaction → Type 0
InPool sha256 ts tx =
    (mem : TxWithTimeMs) × (lookup tx.watched_tx.txid ts.tx_info_by_id ≡ some mem)
    × (tx_id sha256 mem.tx ≡ tx_id sha256 tx)

-- Both describe one transfer.
abbrev pub SameTransfer : WatchedTxInfo → WatchedTxInfo → Type 0
SameTransfer watched tx =
    (watched.txid ≡ tx.txid)
    × (watched.amount ≡ tx.amount)
    × (watched.from ≡ tx.from)
    × (watched.to ≡ tx.to)
    × (watched.recharge_list ≡ tx.recharge_list)

abbrev pub IsMinted : Watchers → Transaction → Type 0
IsMinted w tx =
    (ev : PushEvent) × (amount : ℕ) × (w.eth_event tx.newly_tx_id ≡ some ev)
    × (ev.method_mint ≡ true)
    × (ev.mint_data ≡ some (tx.watched_tx.txid, amount))
    × (first_amount tx.watched_tx.recharge_list ≡ some amount)

-- The result of the transaction is on the chain that it goes to; on Ethereum it is the minting of the amount of
-- the first address for the watched transaction.
abbrev pub HasResult : Watchers → Transaction → Type 0
HasResult w tx =
    ((tx.watched_tx.to ≡ "bch") × (w.bch_tx tx.newly_tx_id ≡ true))
    ⊎ (((tx.watched_tx.to ≡ "btc") × (w.btc_tx tx.newly_tx_id ≡ true))
        ⊎ (((tx.watched_tx.to ≡ "eth") × IsMinted w tx)
            ⊎ (((tx.watched_tx.to ≡ "xin") × (w.xin_event tx.newly_tx_id ≡ true))
                ⊎ ((tx.watched_tx.to ≡ "eos") × (w.eos_event tx.newly_tx_id ≡ true)))))

-- The pool has none of its own for the watched transaction, but has watched that very transfer, and the chain
-- that it goes to has the result.
abbrev pub OnChain : TxStore → Watchers → Transaction → Type 0
OnChain ts w tx =
    (lookup tx.watched_tx.txid ts.tx_info_by_id ≡ none)
    × ((watched : WatchedTx) × (lookup tx.watched_tx.txid ts.watched_tx_info ≡ some watched)
        × SameTransfer watched.tx tx.watched_tx)
    × HasResult w tx
