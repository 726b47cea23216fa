-- ===== src/Distribution/Spec.antt =====
-- distribution/proposal.go: what the manager promises of the status of the proposals, as a replay on
-- functions from identifiers, and that the entries of the database follow it.
use ofgp_core.TxStore.Pool.{add_watched_tx, watched_tx_to_fresh}
use ofgp_core.Base.{
  String_eq, if◌then◌else◌, ◌==◌, All, UniqueKeys, ℕ, String, ◌≡◌, Option, none, some, List, [],
  ◌∷◌, Option-cases, lookup, lookup-insert, lookup-delete, insert-UniqueKeys, insert-All,
  lookup-All, refl, inl, inr, arith, delete-All, delete-UniqueKeys, sym, ◌∙◌, Bool, true, false,
}
use ofgp_core.Distribution.Defs.{
  Status, Proposal, DistributionInfo, ProposalManager, set_status, add_proposal, is_idle,
  delete_proposal, execute_proposal, is_dealing, load_from_db, fresh, dealing, failed,
  set_distribution_proposal, get_status, distribution_tx_id, del_distribution_proposal,
  gen_watched_tx,
}

-- The calls, each at its time.
pub data Command : Type 0 where
  add : ℕ → Proposal → Command
  remove : String → Command
  execute : ℕ → String → Command
  settle : String → Status → Command
  load : ℕ → Command

unfoldable pub obey : ProposalManager → Command → ProposalManager
obey pm (add now p) = (add_proposal now pm p).1
obey pm (remove id) = (delete_proposal pm id).1
obey pm (execute now id) = execute_proposal now pm id
obey pm (settle id status) = set_status pm id status
obey pm (load now) = load_from_db now pm

unfoldable pub obey_all : List Command → ProposalManager → ProposalManager
unfolding obey
obey_all [] pm = pm
obey_all (cmd ∷ cmds) pm = obey_all cmds (obey pm cmd)

abbrev pub Statuses : Type 0
Statuses = String → Option Status

abbrev pub changed : String → (Option Status → Option Status) → Statuses → Statuses
changed id f s j = if id == j then f (s j) else s j

-- What each call makes of the status of a proposal.
abbrev pub added : Option Status → Option Status
added none = some fresh
added (some status) = some status

abbrev pub removed : Option Status → Option Status
removed none = none
removed (some status) = if is_idle status then none else some status

abbrev pub executed : Option Status → Option Status
executed none = none
executed (some status) = if is_idle status then some dealing else some status

abbrev pub settled : Status → Option Status → Option Status
settled status none = none
settled status (some old) = some status

abbrev pub interrupted : Option Status → Option Status
interrupted none = none
interrupted (some status) = if is_dealing status then some failed else some status

abbrev pub promise : Command → Statuses → Statuses
promise (add now p) s = changed p.id added s
promise (remove id) s = changed id removed s
promise (execute now id) s = changed id executed s
promise (settle id status) s = changed id (settled status) s
promise (load now) s = λ j. interrupted (s j)

abbrev pub replay : List Command → Statuses → Statuses
replay [] s = s
replay (cmd ∷ cmds) s = replay cmds (promise cmd s)

-- Every entry stands under the identifier of its proposal.
abbrev pub OwnKey : String × DistributionInfo → Type 0
OwnKey (id, info) = info.proposal.id ≡ id

pub record IsKeyed (pm : ProposalManager) : Type 0 where
  pub own : All OwnKey pm.db
  pub distinct : UniqueKeys pm.db

abbrev pub status_of : Option DistributionInfo → Option Status
status_of none = none
status_of (some info) = some info.status

pub get_status-lookup :
    (pm : ProposalManager) (j : String) → get_status pm j ≡ status_of (lookup j pm.db)
unfolding get_status
get_status-lookup pm j = ground arith

pub set_status-settled :
    (pm : ProposalManager) (id : String) (status : Status) (j : String)
    → IsKeyed pm
    → get_status (set_status pm id status) j ≡ changed id (settled status) (get_status pm) j
unfolding get_status set_status
set_status-settled pm id status j v = elim (Option-cases (lookup id pm.db)) [
  | inl n ↦ ground (arith, n, String_eq.beq_iff id j)
  | inr (info, found) ↦
      let own = lookup-All OwnKey id pm.db v.own found in
      ground (
        arith,
        found,
        own,
        String_eq.beq_iff id j,
        lookup-insert info.proposal.id j (record info { status = status }) pm.db,
      )
]

pub set_status-IsKeyed :
    (pm : ProposalManager) (id : String) (status : Status)
    → IsKeyed pm
    → IsKeyed (set_status pm id status)
unfolding set_status
set_status-IsKeyed pm id status v = by_entry (lookup id pm.db)
  where
    by_entry :
        (o : Option DistributionInfo)
        → IsKeyed (elim o [
          | none ↦ pm
          | some info ↦ record pm {
            db = set_distribution_proposal pm.db (record info { status = status });
          }
        ])
    by_entry none = v
    by_entry (some info) = record {
      own = insert-All OwnKey info.proposal.id (record info { status = status }) pm.db refl v.own;
      distinct =
          insert-UniqueKeys info.proposal.id (record info { status = status }) pm.db v.distinct;
    }

pub add_proposal-added :
    (now : ℕ) (pm : ProposalManager) (p : Proposal) (j : String)
    → get_status (add_proposal now pm p).1 j ≡ changed p.id added (get_status pm) j
unfolding get_status add_proposal
add_proposal-added now pm p j = elim (Option-cases (lookup p.id pm.db)) [
  | inl n ↦ ground (
    arith,
    n,
    String_eq.beq_iff p.id j,
    lookup-insert p.id j (record { proposal = p; create_time = now; status = fresh }) pm.db,
  )
  | inr (info, found) ↦ ground (arith, found, String_eq.beq_iff p.id j)
]

pub delete_proposal-removed :
    (pm : ProposalManager) (id j : String)
    → get_status (delete_proposal pm id).1 j ≡ changed id removed (get_status pm) j
unfolding get_status delete_proposal
delete_proposal-removed pm id j = ground (arith, String_eq.beq_iff id j, lookup-delete id j pm.db)

pub execute_proposal-executed :
    (now : ℕ) (pm : ProposalManager) (id j : String)
    → IsKeyed pm
    → get_status (execute_proposal now pm id) j ≡ changed id executed (get_status pm) j
unfolding execute_proposal
execute_proposal-executed now pm id j v = elim (Option-cases (get_status pm id)) [
  | inl n ↦ ground (arith, n, String_eq.beq_iff id j)
  | inr (status, found) ↦
      ground
        (arith, found, String_eq.beq_iff id j, set_status-settled moved id dealing j keyed, same)
]
  where
    moved : ProposalManager
    moved = record pm { ts = watched_tx_to_fresh now pm.ts (distribution_tx_id id) }

    keyed : IsKeyed moved
    keyed = record { own = v.own; distinct = v.distinct }

    same : get_status moved j ≡ get_status pm j
    same = get_status-lookup moved j ∙ sym (get_status-lookup pm j)

pub execute_proposal-IsKeyed :
    (now : ℕ) (pm : ProposalManager) (id : String)
    → IsKeyed pm
    → IsKeyed (execute_proposal now pm id)
unfolding execute_proposal
execute_proposal-IsKeyed now pm id v = by_status (get_status pm id)
  where
    moved : ProposalManager
    moved = record pm { ts = watched_tx_to_fresh now pm.ts (distribution_tx_id id) }

    keyed : IsKeyed moved
    keyed = record { own = v.own; distinct = v.distinct }

    by_test : (t : Bool) → IsKeyed (if t then set_status moved id dealing else pm)
    by_test true = set_status-IsKeyed moved id dealing keyed
    by_test false = v

    by_status :
        (o : Option Status)
        → IsKeyed (elim o [
          | none ↦ pm
          | some status ↦ if is_idle status then set_status moved id dealing else pm
        ])
    by_status none = v
    by_status (some status) = by_test (is_idle status)

-- Of a call that also answers.
abbrev Leaves : Bool × ProposalManager → Type 0
Leaves (answer, pm) = IsKeyed pm

pub add_proposal-IsKeyed :
    (now : ℕ) (pm : ProposalManager) (p : Proposal) → IsKeyed pm → IsKeyed (add_proposal now pm p).1
unfolding add_proposal
add_proposal-IsKeyed now pm p v = by_entry (lookup p.id pm.db)
  where
    new_info : DistributionInfo
    new_info = record { proposal = p; create_time = now; status = fresh }

    with_new : ProposalManager
    with_new = record {
      db = set_distribution_proposal pm.db new_info;
      ts = add_watched_tx now pm.ts (gen_watched_tx p);
    }

    by_entry :
        (o : Option DistributionInfo)
        → Leaves (elim o [ some old ↦ (false, pm) | none ↦ (true, with_new) ])
    by_entry none = record {
      own = insert-All OwnKey p.id new_info pm.db refl v.own;
      distinct = insert-UniqueKeys p.id new_info pm.db v.distinct;
    }
    by_entry (some old) = v

pub delete_proposal-IsKeyed :
    (pm : ProposalManager) (id : String) → IsKeyed pm → IsKeyed (delete_proposal pm id).1
unfolding delete_proposal
delete_proposal-IsKeyed pm id v = by_entry (lookup id pm.db)
  where
    without : ProposalManager
    without = record pm { db = del_distribution_proposal pm.db id }

    by_test : (t : Bool) → Leaves (if t then (true, without) else (false, pm))
    by_test true = record {
      own = delete-All OwnKey id pm.db v.own;
      distinct = delete-UniqueKeys id pm.db v.distinct;
    }
    by_test false = v

    by_entry :
        (o : Option DistributionInfo)
        → Leaves (elim o [
          | none ↦ (true, pm)
          | some info ↦ if is_idle info.status then (true, without) else (false, pm)
        ])
    by_entry none = v
    by_entry (some info) = by_test (is_idle info.status)
