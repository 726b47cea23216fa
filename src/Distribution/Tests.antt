-- ===== src/Distribution/Tests.antt =====
-- The theorems about distribution/ at concrete inputs.
use ofgp_core.Base.{String_eq, lookup, insert, ℕ, ◌≡◌, refl, some, List, [], ◌∷◌}
use ofgp_core.Samples.{pool}
use ofgp_core.Distribution.Defs.{
  Output, Proposal, ProposalManager, distribution_tx_id, total_amount, gen_watched_tx, get_status,
  set_status, add_proposal, delete_proposal, execute_proposal, load_proposal, load_all,
  load_from_db, failed,
}
use ofgp_core.Distribution.Spec.{
  Command, obey, obey_all, replay, IsKeyed, add, remove, execute, load,
}
use ofgp_core.Distribution.Refines.{obey_all_refines}
use ofgp_core.Distribution.Replaced.{
  queued, stored, add_delete_add_execute, executed_payouts_deleted,
}

abbrev payout : ℕ → Output
payout n = record { address = "a"; amount = n }

abbrev proposal : Proposal
proposal = record { payouts = payout 5 ∷ payout 7 ∷ []; chain = "btc"; id = "1" }

abbrev no_proposals : ProposalManager
no_proposals = record { db = []; ts = pool }

pays : (gen_watched_tx proposal).amount ≡ 12
unfolding gen_watched_tx total_amount
pays = refl

-- A proposal that is executed cannot be deleted; a restart makes it fail, and then it can.
abbrev calls : List Command
calls = add 0 proposal ∷ execute 1 "1" ∷ remove "1" ∷ load 2 ∷ []

restarted : get_status (obey_all calls no_proposals) "1" ≡ some failed
unfolding obey_all obey add_proposal execute_proposal delete_proposal load_from_db load_all
    load_proposal get_status set_status lookup insert
restarted = refl

obey_all_refines_example :
    IsKeyed (obey_all calls no_proposals)
    × (get_status (obey_all calls no_proposals) ≡ replay calls (get_status no_proposals))
obey_all_refines_example = obey_all_refines calls no_proposals (record { own = tt; distinct = tt })

executed_payouts_deleted_example :
    let pm = add_delete_add_execute 0 1 2 no_proposals proposal (payout 100 ∷ []) in
    (stored pm "1" ≡ some (record proposal { payouts = payout 100 ∷ [] }))
    × (queued pm "1" ≡ some (gen_watched_tx proposal))
unfolding lookup distribution_tx_id
executed_payouts_deleted_example =
    executed_payouts_deleted 0 1 2 no_proposals proposal (payout 100 ∷ []) refl refl
