-- ===== src/Proto/Tests.antt =====
-- The theorems about proto/pbtypes_ext.go at concrete inputs.
use ofgp_core.Proto.Overpaid.{eth_to_pb_tx-overpaid}
use ofgp_core.Proto.Payouts.{or_zero, total, min, IsPaid, btc_to_pb_tx-total}
use ofgp_core.Proto.Convert.{ForeignAddress, ForeignTx, positive, btc_to_pb_tx, eth_to_pb_tx}
use ofgp_core.Util.Codec.{ℤ, pos}
use ofgp_core.Samples.{genesis_block, second_block, prepare_by}
use ofgp_core.Base.{
  ℕ_eq, String_eq, ℕ, ◌≡◌, refl, some, [], ◌∷◌, Map, arith, All, ◌+◌, String, Bool, true, List,
}
use ofgp_core.Proto.Types.{Votie, Vote, BlockPack, PrepareMsg}
use ofgp_core.Proto.Blocks.{to_votie}
use ofgp_core.Proto.Votes.{get_max_votie, NoneAbove, VotedFor, get_max_votie-max}

abbrev vote_for : ℕ → BlockPack → Vote
vote_for n bp = record { term = 1; votie = to_votie bp; node_id = n; sig = [] }

abbrev votes : Map ℕ Vote
votes = (0, vote_for 0 genesis_block) ∷ (1, vote_for 1 second_block) ∷ []

get_max_votie-max_example :
    (m : Votie) × (get_max_votie votes ≡ some m) × VotedFor m votes × NoneAbove m votes
get_max_votie-max_example =
    get_max_votie-max 0 (vote_for 0 genesis_block) ((1, vote_for 1 second_block) ∷ [])

get_max_votie_of_two :
    get_max_votie ((0, vote_for 0 genesis_block) ∷ (1, vote_for 1 second_block) ∷ [])
    ≡ some (to_votie second_block)
unfolding get_max_votie
get_max_votie_of_two = refl

abbrev prepares : Map ℕ PrepareMsg
prepares = (0, prepare_by 0 (2 ∷ [])) ∷ (1, prepare_by 1 (2 ∷ [])) ∷ []

abbrev prepares_reversed : Map ℕ PrepareMsg
prepares_reversed = (1, prepare_by 1 (2 ∷ [])) ∷ (0, prepare_by 0 (2 ∷ [])) ∷ []

abbrev prepared : Votie
prepared = record (to_votie second_block) { prepares = prepares }

abbrev every_address : String → String → Bool
every_address address chain = true

abbrev from_chain : {A : Type 0} → A → List (ForeignAddress A) → ForeignTx A
from_chain amount infos = record {
  sc_txid = "t";
  amount = amount;
  recharge_list = infos;
  from = "x";
  to = "y";
  token_from = 1;
  token_to = 2;
}

abbrev asks_btc : ForeignTx ℤ
asks_btc =
    from_chain (pos 5)
      (record { address = "a"; amount = pos 3 } ∷ record { address = "b"; amount = pos 9 } ∷ [])

abbrev given_btc : ForeignTx ℤ
given_btc =
    from_chain (pos 5)
      (record { address = "a"; amount = pos 3 } ∷ record { address = "b"; amount = pos 2 } ∷ [])

btc_to_pb_tx-total_example :
    All IsPaid given_btc.recharge_list
    × (total given_btc.recharge_list
        ≡ min (total asks_btc.recharge_list) (or_zero (positive asks_btc.amount)))
    × (given_btc.amount ≡ asks_btc.amount)
unfolding btc_to_pb_tx
btc_to_pb_tx-total_example = btc_to_pb_tx-total asks_btc given_btc refl

-- Of 5, one address asks for 6 and another for 1000.
abbrev asks_eth : ForeignTx ℕ
asks_eth =
    from_chain 5
      (record { address = "a"; amount = 6 } ∷ record { address = "b"; amount = 1000 } ∷ [])

eth_to_pb_tx-overpaid_example :
    (tx' : ForeignTx ℤ) × (eth_to_pb_tx every_address asks_eth ≡ some tx')
    × (tx'.amount ≡ pos 5)
    × (total tx'.recharge_list ≡ 5 + 1000)
eth_to_pb_tx-overpaid_example =
    eth_to_pb_tx-overpaid every_address asks_eth "a" "b" 6 1000 refl refl (omega arith)
      (omega arith) (omega arith) (omega arith) (omega arith) refl

abbrev asks_less : ForeignTx ℕ
asks_less =
    from_chain 5 (record { address = "a"; amount = 2 } ∷ record { address = "b"; amount = 1 } ∷ [])

abbrev given_less : ForeignTx ℤ
given_less =
    from_chain (pos 5)
      (record { address = "a"; amount = pos 2 } ∷ record { address = "b"; amount = pos 1 } ∷ [])
