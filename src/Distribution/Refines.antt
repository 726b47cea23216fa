-- ===== src/Distribution/Refines.antt =====
-- distribution/proposal.go: the manager implements the replay of its calls on statuses.
use mathlib.Core.Path.{fun_ext}
use ofgp_core.Base.{String_eq, ◌≡◌, refl, ap, ◌∙◌, List, [], ◌∷◌}
use ofgp_core.Distribution.Defs.{ProposalManager, get_status}
use ofgp_core.Distribution.Spec.{
  Command, obey, obey_all, promise, replay, IsKeyed, set_status-settled, set_status-IsKeyed,
  add_proposal-added, delete_proposal-removed, execute_proposal-executed, execute_proposal-IsKeyed,
  add_proposal-IsKeyed, delete_proposal-IsKeyed, add, remove, execute, settle, load,
}
use ofgp_core.Distribution.Load.{load_from_db-interrupted}

obey-promise :
    (pm : ProposalManager) (cmd : Command)
    → IsKeyed pm
    → IsKeyed (obey pm cmd) × (get_status (obey pm cmd) ≡ promise cmd (get_status pm))
unfolding obey
obey-promise pm (add now p) v =
    (add_proposal-IsKeyed now pm p v, fun_ext (add_proposal-added now pm p))
obey-promise pm (remove id) v =
    (delete_proposal-IsKeyed pm id v, fun_ext (delete_proposal-removed pm id))
obey-promise pm (execute now id) v =
    (execute_proposal-IsKeyed now pm id v, fun_ext λ j. execute_proposal-executed now pm id j v)
obey-promise pm (settle id status) v =
    (set_status-IsKeyed pm id status v, fun_ext λ j. set_status-settled pm id status j v)
obey-promise pm (load now) v =
    ((load_from_db-interrupted now pm "" v).1, fun_ext λ j. (load_from_db-interrupted now pm j v).0)

-- From a database whose entries stand under their own identifiers, each once, any sequence of calls
-- leaves such a database, and the statuses that it gives are those of a replay of the calls on functions:
-- adding starts a proposal only where there is none, deletion and execution act only on one that is new
-- or has failed, a settled status is taken where there is a proposal, and a restart turns each proposal
-- that was being executed into a failed one.
pub obey_all_refines :
    (cmds : List Command) (pm : ProposalManager)
    → IsKeyed pm
    → IsKeyed (obey_all cmds pm) × (get_status (obey_all cmds pm) ≡ replay cmds (get_status pm))
unfolding obey_all
obey_all_refines [] pm v = (v, refl)
obey_all_refines (cmd ∷ cmds) pm v =
    let (kept, same) = obey-promise pm cmd v in
    let (kept', same') = obey_all_refines cmds (obey pm cmd) kept in
    (kept', same' ∙ ap (replay cmds) same)
