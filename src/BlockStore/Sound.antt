-- ===== src/BlockStore/Sound.antt =====
-- primitives/blockstore.go: the state in which no commit message panics is kept, as long as the leaders
use ofgp_core.Proto.Blocks.{block_id}
-- propose blocks of transactions.
use ofgp_core.Base.{
  ℕ_eq, bytes_Eq, Option-cases, is_some, insert, Holds, Holds-some, ℕ, ◌≡◌, refl, ◌∙◌, ◌⊎◌, inl,
  inr, true, Option, none, some, List, arith, leb, Bool-cases, ◌==◌, length, lookup, sym, ap, subst,
  not, ◌&&◌, [],
}
use ofgp_core.Proto.Types.{PrepareMsg, BlockPack, CommitMsg}
use ofgp_core.Cluster.Defs.{Cluster}
use ofgp_core.Db.Defs.{
  Db, get_commit_top, is_committed, is_connecting_top, set_node_term, set_fresh, just_commit_it,
}
use ofgp_core.Db.Chain.{IsLinked-same}
use ofgp_core.BlockStore.Votes.{prepare_fresh, handle_prepare_msg, commit_fresh}
use ofgp_core.BlockStore.Keeps.{Keeps, handle_prepare_msg-Keeps, Keeps-same}
use ofgp_core.BlockStore.Commit.{NotBelow, commit_block_with_check-Explains}
use ofgp_core.BlockStore.Progress.{IsCommittable, IsReady}
use ofgp_core.BlockStore.Defs.{
  BlockStore, Event, update_votie, CommitResult, reconfig_events, raise_term, commit_block,
  commit_block_with_check, committed, refused,
}

-- The ready state, with a vote.
pub record IsSound (db : Db) : Type 0 where
  pub ready : IsReady db
  pub votie : is_some db.votie ≡ true

-- A block that can be committed still can where the chain is the same.
pub IsCommittable-same :
    (db db' : Db) (bp bp' : BlockPack)
    → db'.commit_chain ≡ db.commit_chain
    → db'.commit_hs_by_ids ≡ db.commit_hs_by_ids
    → is_some db'.term ≡ true
    → is_some db'.votie ≡ true
    → bp'.init ≡ bp.init
    → IsCommittable db bp
    → IsCommittable db' bp'
unfolding is_committed is_connecting_top get_commit_top
IsCommittable-same db db' bp bp' chain index term votie init v = record {
  new = rw (index, init) v.new;
  connects = rw (chain, init) v.connects;
  txs = rw init v.txs;
  term = rw init v.term;
  node_term = term;
  votie = votie;
}

-- What a handler leaves of the block of the round: none, or the same block with other messages.
abbrev pub SameRound : Db → Db → Type 0
SameRound db db' =
    (db'.fresh ≡ none)
    ⊎ ((bp : BlockPack) × (bp' : BlockPack) × (db.fresh ≡ some bp)
        × (db'.fresh ≡ some bp')
        × (bp'.init ≡ bp.init))

pub IsSound-same :
    (db db' : Db)
    → IsSound db
    → Keeps db db'
    → is_some db'.term ≡ true
    → is_some db'.votie ≡ true
    → SameRound db db'
    → IsSound db'
IsSound-same db db' v k term votie round = record {
  ready = record {
    linked = IsLinked-same db db' k.chain k.index v.ready.linked;
    node_term = term;
    fresh = by_cases round;
  };
  votie = votie;
}
  where
    by_cases : SameRound db db' → Holds (IsCommittable db') db'.fresh
    by_cases (inl gone) = subst (Holds (IsCommittable db')) (sym gone) tt
    by_cases (inr (bp, bp', e, e', init)) = subst (Holds (IsCommittable db')) (sym e') (
        IsCommittable-same db db' bp bp' k.chain k.index term votie init
          (Holds-some (IsCommittable db) db.fresh v.ready.fresh e))

pub some_stays : (s t : Option ℕ) → NotBelow s t → is_some s ≡ true → is_some t ≡ true
some_stays none t n e = ground arith
some_stays (some s) none n e = absurd n
some_stays (some s) (some t) n e = refl

pub round_stays : (db db' : Db) → db'.fresh ≡ db.fresh → SameRound db db'
round_stays db db' e = elim (Option-cases db.fresh) [
  | inl n ↦ inl (e ∙ n)
  | inr (bp, f) ↦ inr (bp, bp, f, e ∙ f, refl)
]

pub prepare_fresh-IsSound :
    (c : Cluster) (bs bs' : BlockStore) (msg : PrepareMsg) (fresh : BlockPack) (events : List Event)
    → IsSound bs.db
    → bs.db.fresh ≡ some fresh
    → handle_prepare_msg c bs msg ≡ some (bs', events)
    → prepare_fresh c bs msg fresh ≡ some (bs', events)
    → IsSound bs'.db
prepare_fresh-IsSound c bs bs' msg fresh events v f run e =
    IsSound-same bs.db bs'.db v keeps
      (some_stays bs.db.term bs'.db.term keeps.term v.ready.node_term) votie round
  where
    keeps : Keeps bs.db bs'.db
    keeps = handle_prepare_msg-Keeps c bs bs' msg events run

    fresh' : BlockPack
    fresh' = record fresh { prepares = insert msg.node_id msg fresh.prepares }

    votie : is_some bs'.db.votie ≡ true
    votie = unfold prepare_fresh update_votie in ground (arith, v.votie)

    fresh_cases : (bs'.db.fresh ≡ bs.db.fresh) ⊎ (bs'.db.fresh ≡ some fresh')
    fresh_cases = unfold prepare_fresh update_votie in ground arith

    round : SameRound bs.db bs'.db
    round = elim fresh_cases [
      | inl stays ↦ round_stays bs.db bs'.db stays
      | inr new ↦ inr (fresh, fresh', f, new, refl)
    ]

commit_block_votie :
    (c : Cluster) (db db' : Db) (tasks events : List Event) (bp : BlockPack)
    → commit_block_with_check c db tasks bp ≡ some (committed db' events)
    → is_some db.votie ≡ true
    → is_some db'.votie ≡ true
unfolding commit_block_with_check commit_block raise_term set_node_term update_votie just_commit_it
    reconfig_events
commit_block_votie c db db' tasks events bp e v = ground (arith, v)

pub commit_fresh-IsSound :
    (c : Cluster) (bs bs' : BlockStore) (msg : CommitMsg) (fresh : BlockPack) (events : List Event)
    → IsSound bs.db
    → bs.db.fresh ≡ some fresh
    → commit_fresh c bs msg fresh ≡ some (bs', events)
    → IsSound bs'.db
unfolding commit_fresh
commit_fresh-IsSound c bs bs' msg fresh events v f e =
    by_cases (Option-cases (commit_block_with_check c (set_fresh bs.db (some fresh')) [] fresh'))
  where
    fresh' : BlockPack
    fresh' = record fresh { commits = insert msg.node_id msg fresh.commits }

    waits :
        bs'.db.commit_chain ≡ bs.db.commit_chain
        → bs'.db.commit_hs_by_ids ≡ bs.db.commit_hs_by_ids
        → bs'.db.term ≡ bs.db.term
        → bs'.db.votie ≡ bs.db.votie
        → (bs'.db.fresh ≡ bs.db.fresh) ⊎ (bs'.db.fresh ≡ some fresh')
        → IsSound bs'.db
    waits chain index term votie round =
        IsSound-same bs.db bs'.db v (Keeps-same bs.db bs'.db chain index term)
          (ap is_some term ∙ v.ready.node_term) (ap is_some votie ∙ v.votie)
          (elim round [
            | inl stays ↦ round_stays bs.db bs'.db stays
            | inr new ↦ inr (fresh, fresh', f, new, refl)
          ])

    commits :
        (db' : Db) (events' : List Event)
        → commit_block_with_check c (set_fresh bs.db (some fresh')) [] fresh'
          ≡ some (committed db' events')
        → bs'.db ≡ db'
        → IsSound bs'.db
    commits db' events' run end =
        let x =
          commit_block_with_check-Explains c (set_fresh bs.db (some fresh')) [] fresh'
            (committed db' events')
            (IsLinked-same bs.db (set_fresh bs.db (some fresh')) refl refl v.ready.linked) run in
        subst IsSound (sym end) (record {
          ready = record {
            linked = x.linked;
            node_term = some_stays bs.db.term db'.term x.term v.ready.node_term;
            fresh = subst (Holds (IsCommittable db')) (sym x.fresh) tt;
          };
          votie =
              commit_block_votie c (set_fresh bs.db (some fresh')) db' [] events' fresh' run
                v.votie;
        })

    by_cases :
        (commit_block_with_check c (set_fresh bs.db (some fresh')) [] fresh' ≡ none)
          ⊎ ((r : CommitResult) × (commit_block_with_check c
                  (set_fresh bs.db (some fresh'))
                  []
                  fresh'
                ≡ some r))
        → IsSound bs'.db
    by_cases (inl n) =
        waits (ground arith) (ground arith) (ground arith) (ground arith) (ground arith)
    by_cases (inr (refused err, r)) =
        waits (ground arith) (ground arith) (ground arith) (ground arith) (ground arith)
    by_cases (inr (committed db' events', r)) =
        elim (Bool-cases (
          leb c.quorum_n (length fresh'.commits)
          && (msg.block_id == block_id fresh)
          && not (is_some (lookup msg.node_id fresh.commits)))) [
            | inl full ↦ commits db' events' r (ground arith)
            | inr few ↦
                waits (ground arith) (ground arith) (ground arith) (ground arith) (ground arith)
          ]
