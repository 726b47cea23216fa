-- ===== src/Distribution/Load.antt =====
-- distribution/proposal.go: `LoadFromDB` over the entries of the database.
use ofgp_core.TxStore.Pool.{add_watched_tx}
use ofgp_core.Base.{
  String_eq, if◌then◌else◌, ◌==◌, All, Map, lookup, UniqueKeys, ℕ, String, ◌≡◌, refl, sym, ap, ◌∙◌,
  Bool, false, ◌&&◌, ◌||◌, none, some, [], ◌∷◌, arith,
}
use ofgp_core.Distribution.Defs.{
  Status, DistributionInfo, ProposalManager, gen_watched_tx, get_status, set_status, is_dealing,
  load_proposal, load_all, load_from_db, fresh, dealing, success, failed, is_success,
}
use ofgp_core.Distribution.Spec.{
  changed, settled, interrupted, OwnKey, IsKeyed, get_status-lookup, set_status-settled,
  set_status-IsKeyed,
}

load_proposal-IsKeyed :
    (now : ℕ) (pm : ProposalManager) (info : DistributionInfo)
    → IsKeyed pm
    → IsKeyed (load_proposal now pm info)
unfolding load_proposal
load_proposal-IsKeyed now pm info v = by_status info.status
  where
    watching : ProposalManager
    watching = record pm { ts = add_watched_tx now pm.ts (gen_watched_tx info.proposal) }

    keyed : IsKeyed watching
    keyed = record { own = v.own; distinct = v.distinct }

    by_status :
        (status : Status)
        → IsKeyed (
            if is_success status
            then pm
            else if is_dealing status
            then set_status watching info.proposal.id failed
            else watching)
    by_status fresh = keyed
    by_status dealing = set_status-IsKeyed watching info.proposal.id failed keyed
    by_status success = v
    by_status failed = keyed

load_proposal-interrupted :
    (now : ℕ) (pm : ProposalManager) (info : DistributionInfo) (j : String)
    → IsKeyed pm
    → get_status (load_proposal now pm info) j ≡ (
        if is_dealing info.status
        then changed info.proposal.id (settled failed) (get_status pm) j
        else get_status pm j)
unfolding load_proposal
load_proposal-interrupted now pm info j v = by_status info.status
  where
    watching : ProposalManager
    watching = record pm { ts = add_watched_tx now pm.ts (gen_watched_tx info.proposal) }

    keyed : IsKeyed watching
    keyed = record { own = v.own; distinct = v.distinct }

    same : get_status watching j ≡ get_status pm j
    same = get_status-lookup watching j ∙ sym (get_status-lookup pm j)

    by_status :
        (status : Status)
        → get_status
            (if is_success status
              then pm
              else if is_dealing status
              then set_status watching info.proposal.id failed
              else watching)
            j
          ≡ (if is_dealing status
              then changed info.proposal.id (settled failed) (get_status pm) j
              else get_status pm j)
    by_status fresh = same
    by_status dealing =
        set_status-settled watching info.proposal.id failed j keyed
        ∙ ap (λ o. if info.proposal.id == j then settled failed o else o) same
    by_status success = refl
    by_status failed = same

-- Whether the entries have a proposal of the identifier that is being executed.
dealing_in : Map String DistributionInfo → String → Bool
dealing_in [] j = false
dealing_in ((id, info) ∷ entries) j =
    (is_dealing info.status && info.proposal.id == j) || dealing_in entries j

load_all-interrupted :
    (now : ℕ) (entries : Map String DistributionInfo) (pm : ProposalManager) (j : String)
    → IsKeyed pm
    → (get_status (load_all now entries pm) j
        ≡ (if dealing_in entries j then settled failed (get_status pm j) else get_status pm j))
      × IsKeyed (load_all now entries pm)
unfolding load_all dealing_in
load_all-interrupted now [] pm j v = (refl, v)
load_all-interrupted now ((id, info) ∷ entries) pm j v =
    let (rest, kept) =
      load_all-interrupted now entries (load_proposal now pm info) j
        (load_proposal-IsKeyed now pm info v) in
    (ground (arith, rest, load_proposal-interrupted now pm info j v), kept)

dealing_in-lookup :
    (j : String) (m : Map String DistributionInfo)
    → All OwnKey m
    → UniqueKeys m
    → dealing_in m j ≡ (elim (lookup j m) [ none ↦ false | some info ↦ is_dealing info.status ])
unfolding dealing_in lookup
dealing_in-lookup j [] own distinct = refl
dealing_in-lookup j ((id, info) ∷ m) own distinct = ground (
  arith,
  own.0,
  distinct.0,
  String_eq.beq_iff id j,
  String_eq.beq_iff info.proposal.id j,
  dealing_in-lookup j m own.1 distinct.1,
)

pub load_from_db-interrupted :
    (now : ℕ) (pm : ProposalManager) (j : String)
    → IsKeyed pm
    → (get_status (load_from_db now pm) j ≡ interrupted (get_status pm j))
      × IsKeyed (load_from_db now pm)
unfolding load_from_db
load_from_db-interrupted now pm j v =
    let (loaded, kept) = load_all-interrupted now pm.db pm j v in
    (
      ground (arith, loaded, get_status-lookup pm j, dealing_in-lookup j pm.db v.own v.distinct),
      kept,
    )
