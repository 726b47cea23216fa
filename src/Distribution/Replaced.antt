-- ===== src/Distribution/Replaced.antt =====
-- distribution/proposal.go: which payment an executed proposal becomes.
use ofgp_core.Proto.Types.{WatchedTxInfo}
use mathlib.Core.Option
use ofgp_core.Base.{
  String_eq, lookup, ℕ, String, ◌≡◌, Option, none, some, List, lookup-insert_self, refl, arith,
  delete, true, beq_refl, lookup-insert, lookup-delete, ap, subst, ◌∙◌,
}
use ofgp_core.TxStore.Defs.{WatchedTx, new_watched, TxStore}
use ofgp_core.TxStore.Pool.{add_watched_tx, add_fresh, watched_tx_to_fresh}
use ofgp_core.Distribution.Defs.{
  Output, Proposal, DistributionInfo, ProposalManager, distribution_tx_id, gen_watched_tx,
  get_status, set_status, add_proposal, delete_proposal, execute_proposal, fresh, dealing,
}

-- The payment under an identifier that the pool is about to sign.
abbrev pub queued : ProposalManager → String → Option WatchedTxInfo
queued pm id =
    Option.map (λ (w : WatchedTx). w.tx)
      (lookup (distribution_tx_id id) pm.ts.fresh_watched_tx_info)

abbrev pub stored : ProposalManager → String → Option Proposal
stored pm id = Option.map (λ (i : DistributionInfo). i.proposal) (lookup id pm.db)

-- A proposal is added, deleted and added again with other payouts, and executed.
abbrev pub add_delete_add_execute :
    ℕ → ℕ → ℕ → ProposalManager → Proposal → List Output → ProposalManager
add_delete_add_execute t₁ t₂ t₃ pm p payouts =
    let deleted = (delete_proposal (add_proposal t₁ pm p).1 p.id).1 in
    execute_proposal t₃ (add_proposal t₂ deleted (record p { payouts = payouts })).1 p.id

-- A proposal that waits to be executed, with the payment that the pool watches under its identifier.
record Waits (pm : ProposalManager) (p : Proposal) (watched : WatchedTxInfo) : Type 0 where
  info : DistributionInfo
  entry : lookup p.id pm.db ≡ some info
  proposal : info.proposal ≡ p
  status : info.status ≡ fresh
  tx : WatchedTx
  at_pool : lookup (distribution_tx_id p.id) pm.ts.watched_tx_info ≡ some tx
  payment : tx.tx ≡ watched

add_proposal-Waits :
    (t : ℕ) (pm : ProposalManager) (p : Proposal)
    → lookup p.id pm.db ≡ none
    → lookup (distribution_tx_id p.id) pm.ts.watched_tx_info ≡ none
    → Waits (add_proposal t pm p).1 p (gen_watched_tx p)
unfolding add_proposal gen_watched_tx add_watched_tx
add_proposal-Waits t pm p e w = record {
  info = record { proposal = p; create_time = t; status = fresh };
  entry = ground (
    arith,
    e,
    lookup-insert_self p.id (record { proposal = p; create_time = t; status = fresh }) pm.db,
  );
  proposal = refl;
  status = refl;
  tx = new_watched (gen_watched_tx p) t;
  at_pool = ground (
    arith,
    e,
    w,
    lookup-insert_self (distribution_tx_id p.id) (new_watched (gen_watched_tx p) t)
        pm.ts.watched_tx_info,
  );
  payment = refl;
}

-- What `add_proposal` leaves where the pool already has a payment under the identifier.
add_over-Waits :
    (t : ℕ) (pm : ProposalManager) (q : Proposal) (tx : WatchedTx)
    → lookup q.id pm.db ≡ none
    → lookup (distribution_tx_id q.id) pm.ts.watched_tx_info ≡ some tx
    → Waits (add_proposal t pm q).1 q tx.tx
unfolding add_proposal add_watched_tx gen_watched_tx
add_over-Waits t pm q tx e w = record {
  info = info;
  entry = ground (arith, e, lookup-insert_self q.id info pm.db);
  proposal = refl;
  status = refl;
  tx = tx;
  at_pool = ground (arith, e, w);
  payment = refl;
}
  where
    info : DistributionInfo
    info = record { proposal = q; create_time = t; status = fresh }

delete_proposal-fresh :
    (pm : ProposalManager) (p : Proposal) (watched : WatchedTxInfo)
    → Waits pm p watched
    → delete_proposal pm p.id ≡ (true, record pm { db = delete p.id pm.db })
unfolding delete_proposal
delete_proposal-fresh pm p watched v = ground (arith, v.entry, v.status)

execute_proposal-ts :
    (t : ℕ) (pm : ProposalManager) (p : Proposal) (watched : WatchedTxInfo)
    → Waits pm p watched
    → (execute_proposal t pm p.id).ts ≡ watched_tx_to_fresh t pm.ts (distribution_tx_id p.id)
unfolding execute_proposal get_status set_status
execute_proposal-ts t pm p watched v = ground (arith, v.entry, v.status)

to_fresh-queued :
    (t : ℕ) (ts : TxStore) (id : String) (tx : WatchedTx)
    → lookup id ts.watched_tx_info ≡ some tx
    → tx.tx.txid ≡ id
    → Option.map
        (λ (w : WatchedTx). w.tx)
        (lookup id (watched_tx_to_fresh t ts id).fresh_watched_tx_info)
      ≡ some tx.tx
unfolding watched_tx_to_fresh add_fresh
to_fresh-queued t ts id tx at_pool own = ground (
  arith,
  at_pool,
  own,
  lookup-insert tx.tx.txid id (new_watched tx.tx t) ts.fresh_watched_tx_info,
  String_eq.beq_iff tx.tx.txid id,
)

execute_proposal-queued :
    (t : ℕ) (pm : ProposalManager) (p : Proposal) (watched : WatchedTxInfo)
    → Waits pm p watched
    → watched.txid ≡ distribution_tx_id p.id
    → (stored (execute_proposal t pm p.id) p.id ≡ some p)
      × (queued (execute_proposal t pm p.id) p.id ≡ some watched)
unfolding execute_proposal get_status set_status
execute_proposal-queued t pm p watched v txid = (
  ground (
    arith,
    v.entry,
    v.status,
    v.proposal,
    own,
    String_eq.beq_iff v.info.proposal.id p.id,
    lookup-insert v.info.proposal.id p.id (record v.info { status = dealing }) pm.db,
  ),
  rw (execute_proposal-ts t pm p watched v) (
      to_fresh-queued t pm.ts (distribution_tx_id p.id) v.tx v.at_pool
        (ap (λ (w : WatchedTxInfo). w.txid) v.payment ∙ txid)
      ∙ ap some v.payment),
)
  where
    own : v.info.proposal.id ≡ p.id
    own = ap (λ (o : Proposal). o.id) v.proposal

-- Where neither the database nor the pool knew the identifier before, the database then holds the new
-- payouts, but the payment that waits to be signed is the one of the deleted proposal.
pub executed_payouts_deleted :
    (t₁ t₂ t₃ : ℕ) (pm : ProposalManager) (p : Proposal) (payouts : List Output)
    → lookup p.id pm.db ≡ none
    → lookup (distribution_tx_id p.id) pm.ts.watched_tx_info ≡ none
    → let pm' = add_delete_add_execute t₁ t₂ t₃ pm p payouts in
      (stored pm' p.id ≡ some (record p { payouts = payouts }))
      × (queued pm' p.id ≡ some (gen_watched_tx p))
unfolding gen_watched_tx
executed_payouts_deleted t₁ t₂ t₃ pm p payouts e w =
    let one = add_proposal-Waits t₁ pm p e w in
    let gone = delete_proposal-fresh (add_proposal t₁ pm p).1 p (gen_watched_tx p) one in
    let there : lookup p.id (delete p.id (add_proposal t₁ pm p).1.db) ≡ none =
      ground (arith, lookup-delete p.id p.id (add_proposal t₁ pm p).1.db, beq_refl p.id) in
    let over =
      add_over-Waits t₂
        (record (add_proposal t₁ pm p).1 { db = delete p.id (add_proposal t₁ pm p).1.db })
        (record p { payouts = payouts }) one.tx there one.at_pool in
    executed gone (subst (Waits _ (record p { payouts = payouts })) one.payment over)
  where
    deleted : ProposalManager
    deleted = record (add_proposal t₁ pm p).1 { db = delete p.id (add_proposal t₁ pm p).1.db }

    executed :
        delete_proposal (add_proposal t₁ pm p).1 p.id ≡ (true, deleted)
        → Waits
            (add_proposal t₂ deleted (record p { payouts = payouts })).1
            (record p { payouts = payouts })
            (gen_watched_tx p)
        → (stored (add_delete_add_execute t₁ t₂ t₃ pm p payouts) p.id
            ≡ some (record p { payouts = payouts }))
          × (queued (add_delete_add_execute t₁ t₂ t₃ pm p payouts) p.id ≡ some (gen_watched_tx p))
    executed gone v =
        rw gone
          (execute_proposal-queued t₃ _ (record p { payouts = payouts }) (gen_watched_tx p) v refl)
