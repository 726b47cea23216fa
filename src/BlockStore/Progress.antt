-- ===== src/BlockStore/Progress.antt =====
-- primitives/blockstore.go: when the commit of a block goes through, and when it panics.
use ofgp_core.Base.{
  ◌+◌, refl, lookup, length-insert, bytes_eq_iff, ℕ_eq, bytes_Eq, ltb, Option-cases, length,
  is_some, ◌≤◌, ◌≡◌, inl, inr, true, false, some, List, arith, nat_eq, Bool-cases, insert, Holds, ℕ,
  ap, ◌∙◌, ◌⊎◌, none, [], ◌∷◌, Holds-some, not, ◌&&◌,
}
use ofgp_core.Proto.Types.{BlockPack, CommitMsg}
use ofgp_core.Proto.Blocks.{block_id, is_txs_block}
use ofgp_core.Cluster.Defs.{Cluster}
use ofgp_core.Db.Defs.{
  Db, int64_limit, set_node_term, just_commit_it, is_committed, is_connecting_top, set_fresh,
  get_commit_height, get_commit_top, next_height,
}
use ofgp_core.BlockStore.Commit.{Extends, commit_block_with_check-Explains}
use ofgp_core.Db.Chain.{IsLinked, IsLinked-same, top_of_chain}
use ofgp_core.BlockStore.Votes.{assert_committed, commit_fresh, handle_commit_msg}
use ofgp_core.BlockStore.Keeps.{handle_wrong_height-same}
use ofgp_core.BlockStore.Defs.{
  Event, update_votie, reconfig_events, raise_term, commit_block, committed, refused, BlockStore,
  ProgressMsg, handle_wrong_height_progress_msg, commit_block_with_check, msg_term, msg_height,
  commit_msg,
}

-- A block that can be committed: it is new and connects to the top, it has a type that the commit
-- knows, and the database has a term and a vote.
pub record IsCommittable (db : Db) (bp : BlockPack) : Type 0 where
  pub new : is_committed db (block_id bp) ≡ false
  pub connects : is_connecting_top db bp ≡ some true
  pub txs : is_txs_block bp ≡ true
  pub term : ltb bp.init.term int64_limit ≡ true
  pub node_term : is_some db.term ≡ true
  pub votie : is_some db.votie ≡ true

commit_block_total :
    (c : Cluster) (db : Db) (tasks : List Event) (bp : BlockPack)
    → IsCommittable db bp
    → c.quorum_n ≤ length bp.commits
    → (db' : Db) × (events : List Event) × (commit_block c db tasks bp
        ≡ some (committed db' events))
unfolding commit_block just_commit_it raise_term set_node_term update_votie reconfig_events
commit_block_total c db tasks bp v q = elim (Option-cases (commit_block c db tasks bp)) [
  | inl n ↦ ground (arith, v.new, v.txs, v.term, v.node_term, v.votie)
  | inr (refused e, r) ↦ ground (arith, v.new, v.txs, v.term, v.node_term, v.votie)
  | inr (committed db' events, r) ↦ (db', events, r)
]

pub commit_block_with_check-committed :
    (c : Cluster) (db : Db) (tasks : List Event) (bp : BlockPack)
    → IsCommittable db bp
    → c.quorum_n ≤ length bp.commits
    → (db' : Db) × (events : List Event) × (commit_block_with_check c db tasks bp
        ≡ some (committed db' events))
unfolding commit_block_with_check
commit_block_with_check-committed c db tasks bp v q =
    let (db', events, run) = commit_block_total c db tasks bp v q in
    (db', events, ground (arith, v.new, v.connects))

-- The state in which no commit message panics: the chain is linked, a term and a vote are stored, and the
-- block of the round, if there is one, can be committed.
pub record IsReady (db : Db) : Type 0 where
  pub linked : IsLinked db
  pub node_term : is_some db.term ≡ true
  pub fresh : Holds (IsCommittable db) db.fresh

handle_wrong_height_total :
    (bs : BlockStore) (tasks : List Event) (msg : ProgressMsg) (t : ℕ)
    → IsLinked bs.db
    → bs.db.term ≡ some t
    → nat_eq (msg_term msg) t ≡ true
    → nat_eq (msg_height msg) (next_height bs.db) ≡ false
    → (events : List Event) × (handle_wrong_height_progress_msg bs tasks msg ≡ some (bs, events))
unfolding handle_wrong_height_progress_msg get_commit_top next_height get_commit_height
handle_wrong_height_total bs tasks msg t v e same other =
    let (h, b, rest, chain, at) = top_of_chain bs.db.commit_chain v.chain in
    by_cases h b rest chain at (Option-cases (handle_wrong_height_progress_msg bs tasks msg))
  where
    by_cases :
        (h : ℕ) (b : BlockPack) (rest : List (ℕ × BlockPack))
        → bs.db.commit_chain ≡ (h, b) ∷ rest
        → b.init.height ≡ h
        → (handle_wrong_height_progress_msg bs tasks msg ≡ none)
          ⊎ ((r : BlockStore × List Event) × (handle_wrong_height_progress_msg bs tasks msg
                ≡ some r))
        → (events : List Event) × (handle_wrong_height_progress_msg bs tasks msg
            ≡ some (bs, events))
    by_cases h b rest chain at (inl n) = ground arith
    by_cases h b rest chain at (inr ((bs', events), r)) = (
      events,
      r ∙ ap (λ s. some (s, events)) (handle_wrong_height-same bs bs' tasks events msg r),
    )

commit_fresh_total :
    (c : Cluster) (bs : BlockStore) (msg : CommitMsg) (fresh : BlockPack)
    → IsCommittable bs.db fresh
    → is_some (commit_fresh c bs msg fresh) ≡ true
unfolding commit_fresh
commit_fresh_total c bs msg fresh v = elim (Bool-cases (ltb (length fresh'.commits) c.quorum_n)) [
  | inl few ↦ ground arith
  | inr enough ↦
      let (db', events, run) =
        commit_block_with_check-committed c (set_fresh bs.db (some fresh')) [] fresh' committable
          (ground arith) in
      ground arith
]
  where
    fresh' : BlockPack
    fresh' = record fresh { commits = insert msg.node_id msg fresh.commits }

    committable : IsCommittable (set_fresh bs.db (some fresh')) fresh'
    committable =
        unfold is_committed is_connecting_top get_commit_top in
        record {
          new = v.new;
          connects = v.connects;
          txs = v.txs;
          term = v.term;
          node_term = v.node_term;
          votie = v.votie;
        }

-- No commit message panics, whatever it holds, where the chain is linked, the database has a term,
-- and the block of the round, if there is one, can be committed: `assert.ErrorIsNil` finds no
-- error.
pub handle_commit_msg_total :
    (c : Cluster) (bs : BlockStore) (msg : CommitMsg)
    → IsReady bs.db
    → is_some (handle_commit_msg c bs msg) ≡ true
unfolding handle_commit_msg
handle_commit_msg_total c bs msg v = elim (Option-cases bs.db.term) [
  | inl n ↦ ground (arith, v.node_term)
  | inr (term, t) ↦
      elim (Bool-cases (nat_eq msg.term term && not (nat_eq msg.height (next_height bs.db)))) [
        | inl wrong ↦
            let (events, run) =
              handle_wrong_height_total bs [] (commit_msg msg) term v.linked t (ground arith)
                (ground arith) in
            ground (arith, run)
        | inr right ↦ elim (Option-cases bs.db.fresh) [
          | inl n ↦ ground arith
          | inr (fresh, f) ↦
              let total =
                commit_fresh_total c bs msg fresh
                  (Holds-some (IsCommittable bs.db) bs.db.fresh v.fresh f) in
              ground (arith, total)
        ]
      ]
]

-- The block with the message of one more node.
abbrev pub with_commit : CommitMsg → BlockPack → BlockPack
with_commit msg fresh = record fresh { commits = insert msg.node_id msg fresh.commits }

-- Where the chain is linked, the database has a term, and the block of the round can be committed, a
-- commit message for that block, of the node's term and the next height, that completes its quorum and
-- is of a node that has sent none puts the block on the chain: with that message it is the new top of the
-- chain, which is linked, and all that was there is below it; the round is over; and the term has not
-- fallen and is at least that of the block.
pub handle_commit_msg-committed :
    (c : Cluster) (bs : BlockStore) (msg : CommitMsg) (fresh : BlockPack)
    → IsReady bs.db
    → bs.db.fresh ≡ some fresh
    → bs.db.term ≡ some msg.term
    → msg.height ≡ next_height bs.db
    → msg.block_id ≡ block_id fresh
    → lookup msg.node_id fresh.commits ≡ none
    → c.quorum_n ≤ length fresh.commits + 1
    → (bs' : BlockStore) × (events : List Event) × (handle_commit_msg c bs msg ≡ some (bs', events))
      × Extends c bs.db bs'.db (with_commit msg fresh)
unfolding handle_commit_msg commit_fresh assert_committed
handle_commit_msg-committed c bs msg fresh v f t h same unseen quorum =
    let can = Holds-some (IsCommittable bs.db) bs.db.fresh v.fresh f in
    let enough : c.quorum_n ≤ length (with_commit msg fresh).commits =
      omega (arith, quorum, grown) in
    let (db', events, run) =
      commit_block_with_check-committed c db₁ [] (with_commit msg fresh) (committable can) enough in
    let ext =
      commit_block_with_check-Explains c db₁ [] (with_commit msg fresh) (committed db' events)
        (IsLinked-same bs.db db₁ refl refl v.linked) run in
    (
      record bs { db = db' },
      events,
      ground
          (arith, f, t, h, same, unseen, enough, run, bytes_eq_iff msg.block_id (block_id fresh)),
      record {
        chain = unfold next_height get_commit_height in ext.chain;
        linked = ext.linked;
        quorum = ext.quorum;
        fresh = ext.fresh;
        term = ext.term;
        block_term = ext.block_term;
      },
    )
  where
    db₁ : Db
    db₁ = set_fresh bs.db (some (with_commit msg fresh))

    grown : length (with_commit msg fresh).commits ≡ length fresh.commits + 1
    grown = ground (arith, length-insert msg.node_id msg fresh.commits, unseen)

    committable : IsCommittable bs.db fresh → IsCommittable db₁ (with_commit msg fresh)
    committable can =
        unfold is_committed is_connecting_top get_commit_top in
        record {
          new = can.new;
          connects = can.connects;
          txs = can.txs;
          term = can.term;
          node_term = can.node_term;
          votie = can.votie;
        }
