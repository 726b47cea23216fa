-- ===== src/BlockStore/First.antt =====
-- primitives/blockstore.go: the commit messages that are counted for the block of the round.
use ofgp_core.Base.{
  ℕ_eq, bytes_Eq, leb, Bool-cases, Option-cases, lookup, insert, lookup-insert, length, ℕ, ◌≡◌,
  refl, sym, subst, ap, ◌∙◌, ◌⊎◌, inl, inr, none, some, List, [], arith, ◌==◌, bytes_eq_iff,
}
use ofgp_core.Proto.Types.{CommitMsg, BlockPack}
use ofgp_core.Proto.Blocks.{block_id}
use ofgp_core.Cluster.Defs.{Cluster}
use ofgp_core.Db.Defs.{Db, set_fresh}
use ofgp_core.Db.Chain.{IsLinked, IsLinked-same}
use ofgp_core.BlockStore.Defs.{BlockStore, Event, commit_block_with_check, committed, refused}
use ofgp_core.BlockStore.Votes.{assert_committed, commit_fresh, handle_commit_msg}
use ofgp_core.BlockStore.Keeps.{handle_commit_msg_cases}
use ofgp_core.BlockStore.Commit.{commit_block_with_check-Explains}

-- The round goes on with the same block and the same prepares; it counts what it counted, and one message
-- more only if that is for the block and its node had none.
pub record Counts (msg : CommitMsg) (fresh fresh' : BlockPack) : Type 0 where
  pub init : fresh'.init ≡ fresh.init
  pub prepares : fresh'.prepares ≡ fresh.prepares
  pub first :
      (n : ℕ) (m : CommitMsg) → lookup n fresh.commits ≡ some m → lookup n fresh'.commits ≡ some m
  pub new :
      (n : ℕ) (m : CommitMsg)
      → lookup n fresh.commits ≡ none
      → lookup n fresh'.commits ≡ some m
      → (m ≡ msg) × (msg.node_id ≡ n) × (msg.block_id ≡ block_id fresh)

same-Counts : (msg : CommitMsg) (fresh : BlockPack) → Counts msg fresh fresh
same-Counts msg fresh = record {
  init = refl;
  prepares = refl;
  first = λ n m e. e;
  new = λ n m none_before some_after. absurd (ground (arith, none_before, some_after));
}

added-Counts :
    (msg : CommitMsg) (fresh : BlockPack)
    → lookup msg.node_id fresh.commits ≡ none
    → msg.block_id ≡ block_id fresh
    → Counts msg fresh (record fresh { commits = insert msg.node_id msg fresh.commits })
added-Counts msg fresh unseen same = record {
  init = refl;
  prepares = refl;
  first = λ n m e.
      ground (
        arith,
        unseen,
        e,
        lookup-insert msg.node_id n msg fresh.commits,
        ℕ_eq.beq_iff msg.node_id n,
      );
  new = λ n m before after. elim (Bool-cases (msg.node_id == n)) [
    | inl y ↦ (
      some_eq (ground (arith, y, after, lookup-insert msg.node_id n msg fresh.commits)),
      (ℕ_eq.beq_iff msg.node_id n).0 y,
      same,
    )
    | inr no_match ↦
        absurd
          (ground (arith, no_match, before, after, lookup-insert msg.node_id n msg fresh.commits))
  ];
}
  where
    some_eq : {a b : CommitMsg} → some b ≡ some a → a ≡ b
    some_eq e = cc e

commit_fresh-Counts :
    (c : Cluster) (bs bs' : BlockStore) (msg : CommitMsg) (fresh : BlockPack) (events : List Event)
    → IsLinked bs.db
    → bs.db.fresh ≡ some fresh
    → commit_fresh c bs msg fresh ≡ some (bs', events)
    → (bs'.db.fresh ≡ none)
      ⊎ ((fresh' : BlockPack) × (bs'.db.fresh ≡ some fresh') × Counts msg fresh fresh')
unfolding commit_fresh assert_committed
commit_fresh-Counts c bs bs' msg fresh events v f e =
    elim (Bool-cases (msg.block_id == block_id fresh)) [
      | inr other ↦ inr (fresh, ground (arith, other, f, e), same-Counts msg fresh)
      | inl same ↦ elim (Option-cases (lookup msg.node_id fresh.commits)) [
        | inr (m, seen) ↦ inr (fresh, ground (arith, same, seen, f, e), same-Counts msg fresh)
        | inl unseen ↦ elim (Bool-cases (leb c.quorum_n (length fresh'.commits))) [
          | inr few ↦ inr (
            fresh',
            ground (arith, same, unseen, few, e),
            added-Counts msg fresh unseen ((bytes_eq_iff msg.block_id (block_id fresh)).0 same),
          )
          | inl enough ↦ elim (Option-cases (commit_block_with_check c db₁ [] fresh')) [
            | inl n ↦ absurd (ground (arith, same, unseen, enough, n, e))
            | inr (refused r, run) ↦ absurd (ground (arith, same, unseen, enough, run, e))
            | inr (committed db' events', run) ↦
                let ext =
                  commit_block_with_check-Explains c db₁ [] fresh' (committed db' events')
                    (IsLinked-same bs.db db₁ refl refl v) run in
                inl (ground (arith, same, unseen, enough, run, e, ext.fresh))
          ]
        ]
      ]
    ]
  where
    fresh' : BlockPack
    fresh' = record fresh { commits = insert msg.node_id msg fresh.commits }

    db₁ : Db
    db₁ = set_fresh bs.db (some fresh')

-- On a linked chain, where a commit message does not panic, either it ends the round, or the round goes
-- on with the same block: then the first message of each node stands, whatever the node sends later, and
-- the one that comes counts only if it is for this block and its node had none.
pub handle_commit_msg-Counts :
    (c : Cluster) (bs bs' : BlockStore) (msg : CommitMsg) (fresh : BlockPack) (events : List Event)
    → IsLinked bs.db
    → bs.db.fresh ≡ some fresh
    → handle_commit_msg c bs msg ≡ some (bs', events)
    → (bs'.db.fresh ≡ none)
      ⊎ ((fresh' : BlockPack) × (bs'.db.fresh ≡ some fresh') × Counts msg fresh fresh')
handle_commit_msg-Counts c bs bs' msg fresh events v f e =
    elim (handle_commit_msg_cases c bs bs' msg events e) [
      | inl same ↦ inr (fresh, ap (λ d. d.fresh) same ∙ f, same-Counts msg fresh)
      | inr (found, at, run) ↦ commit_fresh-Counts c bs bs' msg fresh events v f (
          subst (λ (x : BlockPack). commit_fresh c bs msg x ≡ some (bs', events)) (this found at)
            run)
    ]
  where
    this : (found : BlockPack) → bs.db.fresh ≡ some found → found ≡ fresh
    this found at = eq (sym at ∙ f)
      where
        eq : some found ≡ some fresh → found ≡ fresh
        eq h = cc h
