-- ===== src/BlockStore/Commit.antt =====
-- What `commitBlockWithCheck` of primitives/blockstore.go does, on each way that it ends.
use ofgp_core.Base.{
  ℕ_eq, bytes_Eq, length, ℕ, ◌≤◌, ◌<◌, ◌≡◌, true, false, Option, none, some, [], ◌∷◌, arith, List,
  Option-cases, inl, inr, sym, ap, ◌∙◌, subst,
}
use ofgp_core.Proto.Types.{BlockPack}
use ofgp_core.Proto.Blocks.{block_id}
use ofgp_core.Cluster.Defs.{Cluster}
use ofgp_core.Db.Defs.{
  Db, next_height, is_committed, is_connecting_top, set_node_term, set_fresh, just_commit_it,
}
use ofgp_core.Db.Chain.{IsLinked, just_commit_it-IsLinked, IsLinked-same}
use ofgp_core.BlockStore.Defs.{
  update_votie, CommitResult, duplicated, not_enough_commits, not_connecting, committed, refused,
  Event, raise_term, commit_block, commit_block_with_check,
}

-- The term of a node does not fall, nor go away.
abbrev pub NotBelow : Option ℕ → Option ℕ → Type 0
NotBelow none t = Unit
NotBelow (some s) none = ⊥
NotBelow (some s) (some t) = s ≤ t

pub NotBelow-refl : (t : Option ℕ) → NotBelow t t
NotBelow-refl none = tt
NotBelow-refl (some t) = omega arith

pub NotBelow-trans : (s t u : Option ℕ) → NotBelow s t → NotBelow t u → NotBelow s u
NotBelow-trans none t u p q = tt
NotBelow-trans (some s) none u p q = absurd p
NotBelow-trans (some s) (some t) none p q = absurd q
NotBelow-trans (some s) (some t) (some u) p q = omega arith

-- A block as it is stored: its prepares are dropped.
abbrev pub stored : BlockPack → BlockPack
stored bp = record bp { prepares = [] }

-- What a commit of the block makes of the database.
pub record Extends (c : Cluster) (db db' : Db) (bp : BlockPack) : Type 0 where
  pub chain : db'.commit_chain ≡ (next_height db, stored bp) ∷ db.commit_chain
  pub linked : IsLinked db'
  pub quorum : c.quorum_n ≤ length bp.commits
  pub fresh : db'.fresh ≡ none
  pub term : NotBelow db.term db'.term
  pub block_term : NotBelow (some bp.init.term) db'.term

abbrev pub Explains : Cluster → Db → BlockPack → CommitResult → Type 0
Explains c db bp (committed db' events) = Extends c db db' bp
Explains c db bp (refused duplicated) = is_committed db (block_id bp) ≡ true
Explains c db bp (refused not_enough_commits) = length bp.commits < c.quorum_n
Explains c db bp (refused not_connecting) = is_connecting_top db bp ≡ some false

-- `updateVotie` writes the vote only.
pub update_votie_only_votie :
    (c : Cluster) (db db' : Db) (bp : BlockPack)
    → update_votie c db bp ≡ some db'
    → db' ≡ record db { votie = db'.votie }
unfolding update_votie
update_votie_only_votie c db db' bp e = ground arith

-- `raise_term` writes the term, which it raises, and the accuses.
pub raise_term_raises :
    (db db' : Db) (tasks tasks' : List Event) (term node_term : ℕ)
    → db.term ≡ some node_term
    → raise_term db tasks term node_term ≡ some (db', tasks')
    → (db'.commit_chain ≡ db.commit_chain)
      × (db'.commit_hs_by_ids ≡ db.commit_hs_by_ids)
      × NotBelow db.term db'.term
      × NotBelow (some term) db'.term
unfolding raise_term set_node_term
raise_term_raises db db' tasks tasks' term node_term t e = ground arith

-- What the block is put on top of: `just_commit_it` followed by the rest of `commitBlockWithCheck`.
record Rest (db₁ db' : Db) (bp : BlockPack) : Type 0 where
  chain : db'.commit_chain ≡ db₁.commit_chain
  index : db'.commit_hs_by_ids ≡ db₁.commit_hs_by_ids
  fresh : db'.fresh ≡ none
  term : NotBelow db₁.term db'.term
  block_term : NotBelow (some bp.init.term) db'.term

commit_block-Rest :
    (c : Cluster) (db db' : Db) (tasks events : List Event) (bp : BlockPack)
    → commit_block c db tasks bp ≡ some (committed db' events)
    → Rest (just_commit_it db (stored bp)) db' bp
unfolding commit_block just_commit_it
commit_block-Rest c db db' tasks events bp e = elim (Option-cases db.term) [
  | inl n ↦ ground arith
  | inr (nt, t) ↦
      elim (Option-cases (raise_term (just_commit_it db (stored bp)) tasks bp.init.term nt)) [
        | inl n ↦ ground arith
        | inr ((db₂, tasks₂), e₂) ↦
            elim (Option-cases (update_votie c (set_fresh db₂ none) (stored bp))) [
              | inl n ↦ ground arith
              | inr (db₃, e₃) ↦
                  let same : db' ≡ db₃ = ground arith in
                  let (chain, index, term, block_term) =
                    raise_term_raises (just_commit_it db (stored bp)) db₂ tasks tasks₂ bp.init.term
                      nt t e₂ in
                  let only = update_votie_only_votie c (set_fresh db₂ none) db₃ (stored bp) e₃ in
                  record {
                    chain = ap (λ d. d.commit_chain) same ∙ ap (λ d. d.commit_chain) only ∙ chain;
                    index =
                        ap (λ d. d.commit_hs_by_ids) same
                        ∙ ap (λ d. d.commit_hs_by_ids) only
                        ∙ index;
                    fresh = ap (λ d. d.fresh) same ∙ ap (λ d. d.fresh) only;
                    term =
                        subst (NotBelow db.term)
                          (sym (ap (λ d. d.term) same ∙ ap (λ d. d.term) only)) term;
                    block_term =
                        subst (NotBelow (some bp.init.term))
                          (sym (ap (λ d. d.term) same ∙ ap (λ d. d.term) only)) block_term;
                  }
            ]
      ]
]

-- Over a linked chain, where `commitBlockWithCheck` does not panic, each of its errors is true: the
-- block is committed, its commits are fewer than a quorum, or it does not connect to the top.
-- Without an error the block, which has a quorum of commits, stands on the chain, which is linked;
-- no block of the round is left; and the node's term is at least what it was and at least the
-- block's.
pub commit_block_with_check-Explains :
    (c : Cluster) (db : Db) (tasks : List Event) (bp : BlockPack) (r : CommitResult)
    → IsLinked db
    → commit_block_with_check c db tasks bp ≡ some r
    → Explains c db bp r
unfolding commit_block_with_check
commit_block_with_check-Explains c db tasks bp (refused duplicated) v e = ground arith
commit_block_with_check-Explains c db tasks bp (refused not_enough_commits) v e = ground arith
commit_block_with_check-Explains c db tasks bp (refused not_connecting) v e = ground arith
commit_block_with_check-Explains c db tasks bp (committed db' events) v e =
    let rest = commit_block-Rest c db db' tasks events bp run in
    let (chain, linked) = just_commit_it-IsLinked db (stored bp) v new connects in
    record {
      chain = rest.chain ∙ chain;
      linked = IsLinked-same (just_commit_it db (stored bp)) db' rest.chain rest.index linked;
      quorum = ground arith;
      fresh = rest.fresh;
      term = unfold just_commit_it in rest.term;
      block_term = rest.block_term;
    }
  where
    run : commit_block c db tasks bp ≡ some (committed db' events)
    run = ground arith

    new : is_committed db (block_id bp) ≡ false
    new = ground arith

    connects : is_connecting_top db (stored bp) ≡ some true
    connects = unfold is_connecting_top in ground arith
