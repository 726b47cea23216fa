-- ===== src/Proto/Overpaid.antt =====
-- proto/pbtypes_ext.go: `EthToPbTx` where an address asks for more than is left.
use ofgp_core.Proto.Payouts.{total}
use ofgp_core.Base.{
  ◌∷◌, [], ℕ_eq, ℕ, ◌^◌, ◌≤◌, ◌<◌, ◌≡◌, String, Bool, true, some, arith, zero, suc, ◌+◌,
}
use ofgp_core.Util.Codec.{pos, to_i64, ℤ}
use ofgp_core.Proto.Convert.{eth_recharge, ForeignTx, eth_to_pb_tx}

pub to_i64_small : (n : ℕ) → n < 2 ^ 63 → to_i64 n ≡ pos n
unfolding to_i64
to_i64_small n h = ground (arith, h)

-- The address that asks for more than is left gets what is left, and the next one what it asks for.
eth_recharge-wrapped :
    (decode_address : String → String → Bool) (to a b : String) (n m k : ℕ)
    → decode_address a to ≡ true
    → decode_address b to ≡ true
    → 0 < n
    → n < m
    → m ≤ 2 ^ 63
    → 0 < k
    → k < 2 ^ 63
    → eth_recharge decode_address to n
        (record { address = a; amount = m } ∷ record { address = b; amount = k } ∷ [])
      ≡ some (record { address = a; amount = pos n } ∷ record { address = b; amount = pos k } ∷ [])
unfolding eth_recharge
eth_recharge-wrapped decode_address to a b n m k da db hn hm hm' hk hk' = ground (
  arith,
  da,
  db,
  hn,
  hm,
  hm',
  hk,
  hk',
  to_i64_small n (omega (arith, hm, hm')),
  to_i64_small k hk',
)

total_of_two :
    (a b : String) (n k : ℕ)
    → 0 < n
    → 0 < k
    → total (record { address = a; amount = pos n } ∷ record { address = b; amount = pos k } ∷ [])
      ≡ n + k
total_of_two a b zero k hn hk = absurd (omega (arith, hn))
total_of_two a b (suc n) zero hn hk = absurd (omega (arith, hk))
total_of_two a b (suc n) (suc k) hn hk = omega arith

-- A transaction of Ethereum whose first address asks for more than the whole amount pays out the amount
-- to it and, beyond the amount, whatever the second address asks for: what is left wraps around.
pub eth_to_pb_tx-overpaid :
    (decode_address : String → String → Bool) (tx : ForeignTx ℕ) (a b : String) (m k : ℕ)
    → decode_address a tx.to ≡ true
    → decode_address b tx.to ≡ true
    → 0 < tx.amount
    → tx.amount < m
    → m ≤ 2 ^ 63
    → 0 < k
    → k < 2 ^ 63
    → tx.recharge_list
      ≡ record { address = a; amount = m } ∷ record { address = b; amount = k } ∷ []
    → (tx' : ForeignTx ℤ) × (eth_to_pb_tx decode_address tx ≡ some tx')
      × (tx'.amount ≡ pos tx.amount)
      × (total tx'.recharge_list ≡ tx.amount + k)
unfolding eth_to_pb_tx
eth_to_pb_tx-overpaid decode_address tx a b m k da db hn hm hm' hk hk' listed = (
  record {
    sc_txid = tx.sc_txid;
    amount = to_i64 tx.amount;
    recharge_list =
        record { address = a; amount = pos tx.amount }
        ∷ record { address = b; amount = pos k }
        ∷ [];
    from = tx.from;
    to = tx.to;
    token_from = tx.token_from;
    token_to = tx.token_to;
  },
  ground (
    arith,
    listed,
    hn,
    eth_recharge-wrapped decode_address tx.to a b tx.amount m k da db hn hm hm' hk hk',
  ),
  to_i64_small tx.amount (omega (arith, hm, hm')),
  total_of_two a b tx.amount k hn hk,
)
