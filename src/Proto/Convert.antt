-- ===== src/Proto/Convert.antt =====
-- proto/pbtypes_ext.go: the conversion of the transactions that the watchers of Bitcoin and of Ethereum
-- report. Their types are not in the repository: an amount is an int64 for Bitcoin, which the code
-- assigns to an int64, and a uint64 for Ethereum, which node/node.go compares with one.
use ofgp_core.Base.{
  ltb, nat_eq, if◌then◌else◌, ◌>>=◌, ℕ, zero, suc, ◌+◌, ◌-◌, ◌%◌, ◌^◌, String, Bool, Option, none,
  some, List, [], ◌∷◌, true, false,
}
use ofgp_core.Util.Codec.{ℤ, pos, negsuc, to_i64}

pub record ForeignAddress (Amount : Type 0) : Type 0 where
  pub address : String
  pub amount : Amount

pub record ForeignTx (Amount : Type 0) : Type 0 where
  pub sc_txid : String
  pub amount : Amount
  pub recharge_list : List (ForeignAddress Amount)
  pub from : String
  pub to : String
  pub token_from : ℕ
  pub token_to : ℕ

-- The number where it is above 0.
abbrev pub positive : ℤ → Option ℕ
positive (pos zero) = none
positive (pos (suc n)) = some (suc n)
positive (negsuc n) = none

abbrev pub is_empty : {A : Type 0} → List A → Bool
is_empty [] = true
is_empty (x ∷ xs) = false

-- The loop of `BtcToPbTx`: an address gets at most what is left, which ends the loop.
unfoldable pub btc_recharge : ℕ → List (ForeignAddress ℤ) → Option (List (ForeignAddress ℤ))
btc_recharge left [] = some []
btc_recharge left (info ∷ infos) = do
  amount ← positive info.amount
  (if ltb amount left
      then (do
        rest ← btc_recharge (left - amount) infos
        some (record { address = info.address; amount = pos amount } ∷ rest))
      else some (record { address = info.address; amount = pos left } ∷ []))

unfoldable pub btc_to_pb_tx : ForeignTx ℤ → Option (ForeignTx ℤ)
unfolding btc_recharge
btc_to_pb_tx tx = do
  amount ← positive tx.amount
  recharge_list ← if is_empty tx.recharge_list then none else btc_recharge amount tx.recharge_list
  some (record tx { recharge_list = recharge_list })

module _ (decode_address : String → String → Bool) where
  -- The loop of `EthToPbTx`, whose subtraction of unsigned numbers wraps around.
  unfoldable pub eth_recharge :
      String → ℕ → List (ForeignAddress ℕ) → Option (List (ForeignAddress ℤ))
  unfolding to_i64
  eth_recharge to left [] = some []
  eth_recharge to left (info ∷ infos) =
      let amount = if ltb left info.amount then left else info.amount in
      let left' = (left + 2 ^ 64 - info.amount) % 2 ^ 64 in
      let rest = eth_recharge to left' infos in
      if nat_eq info.amount 0
      then none
      else if decode_address info.address to
      then (do
        infos' ← if nat_eq left' 0 then some [] else rest
        some (record { address = info.address; amount = to_i64 amount } ∷ infos'))
      else none

  unfoldable pub eth_to_pb_tx : ForeignTx ℕ → Option (ForeignTx ℤ)
  unfolding eth_recharge to_i64
  eth_to_pb_tx tx =
      if nat_eq tx.amount 0 then none else if is_empty tx.recharge_list then none else (do
        recharge_list ← eth_recharge tx.to tx.amount tx.recharge_list
        some (record {
          sc_txid = tx.sc_txid;
          amount = to_i64 tx.amount;
          recharge_list = recharge_list;
          from = tx.from;
          to = tx.to;
          token_from = tx.token_from;
          token_to = tx.token_to;
        }))
