-- ===== src/BlockStore/Advance.antt =====
-- The steps of the consensus of primitives/blockstore.go, with what each may do to the chain.
use ofgp_core.Base.{
  ℕ_eq, bytes_Eq, Option-cases, insert, ◌≡◌, inl, inr, some, List, arith, ◌⊎◌, [], length, ◌≤◌, ◌∷◌,
  ℕ, refl, sym, subst, lookup, nat_eq, nat_eq_iff, Bool-cases, ◌<◌, ◌∙◌, false,
}
use ofgp_core.Db.Chain.{IsLinked, IsLinked-same, IsChain, lookup_above}
use ofgp_core.BlockStore.Init.{handle_init_msg}
use ofgp_core.BlockStore.Accuse.{handle_weak_accuse, handle_strong_accuse}
use ofgp_core.TxStore.Defs.{TxStore}
use ofgp_core.TxStore.Validate.{Watchers}
use ofgp_core.Proto.Types.{
  BlockPack, CommitMsg, Digest, PrepareMsg, InitMsg, WeakAccuse, StrongAccuse,
}
use ofgp_core.Cluster.Defs.{Cluster}
use ofgp_core.Db.Defs.{Db, set_fresh, next_height}
use ofgp_core.BlockStore.Defs.{BlockStore, Event, commit_block_with_check, committed, refused}
use ofgp_core.BlockStore.Votes.{commit_fresh, handle_commit_msg, handle_prepare_msg}
use ofgp_core.BlockStore.Commit.{
  NotBelow, stored, commit_block_with_check-Explains, NotBelow-refl, NotBelow-trans,
}
use ofgp_core.BlockStore.Keeps.{
  Keeps, Keeps-same, handle_commit_msg_cases, Keeps-if_same, handle_prepare_msg-Keeps,
  handle_weak_accuse-Keeps, handle_strong_accuse-Keeps, handle_init_msg-Keeps,
}

-- What a handler may do with the chain: nothing, or one block more, with a quorum of commits.
pub record Advances (c : Cluster) (db db' : Db) : Type 0 where
  pub chain :
      (db'.commit_chain ≡ db.commit_chain)
      ⊎ ((bp : BlockPack) × (db'.commit_chain ≡ (next_height db, bp) ∷ db.commit_chain)
          × (c.quorum_n ≤ length bp.commits))
  pub linked : IsLinked db'
  pub term : NotBelow db.term db'.term

pub Keeps-Advances : (c : Cluster) (db db' : Db) → IsLinked db → Keeps db db' → Advances c db db'
Keeps-Advances c db db' v k = record {
  chain = inl k.chain;
  linked = IsLinked-same db db' k.chain k.index v;
  term = k.term;
}

commit_fresh-Advances :
    (c : Cluster) (bs bs' : BlockStore) (msg : CommitMsg) (fresh : BlockPack) (events : List Event)
    → IsLinked bs.db
    → commit_fresh c bs msg fresh ≡ some (bs', events)
    → Advances c bs.db bs'.db
unfolding commit_fresh
commit_fresh-Advances c bs bs' msg fresh events v e =
    elim (Option-cases (commit_block_with_check c (set_fresh bs.db (some fresh')) [] fresh')) [
      | inl n ↦
          Keeps-Advances c bs.db bs'.db v
            (Keeps-same bs.db bs'.db (ground arith) (ground arith) (ground arith))
      | inr (refused err, e₂) ↦
          Keeps-Advances c bs.db bs'.db v
            (Keeps-same bs.db bs'.db (ground arith) (ground arith) (ground arith))
      | inr (committed db' events', e₂) ↦ elim (ends db' events' e₂) [
        | inl (chain, index, term) ↦
            Keeps-Advances c bs.db bs'.db v (Keeps-same bs.db bs'.db chain index term)
        | inr same ↦ subst (Advances c bs.db) (sym same) (grows db' events' e₂)
      ]
    ]
  where
    fresh' : BlockPack
    fresh' = record fresh { commits = insert msg.node_id msg fresh.commits }

    ends :
        (db' : Db) (events' : List Event)
        → commit_block_with_check c (set_fresh bs.db (some fresh')) [] fresh'
          ≡ some (committed db' events')
        → ((bs'.db.commit_chain ≡ bs.db.commit_chain)
            × (bs'.db.commit_hs_by_ids ≡ bs.db.commit_hs_by_ids)
            × (bs'.db.term ≡ bs.db.term))
          ⊎ (bs'.db ≡ db')
    ends db' events' e₂ = ground arith

    grows :
        (db' : Db) (events' : List Event)
        → commit_block_with_check c (set_fresh bs.db (some fresh')) [] fresh'
          ≡ some (committed db' events')
        → Advances c bs.db db'
    grows db' events' e₂ =
        let x =
          commit_block_with_check-Explains c (set_fresh bs.db (some fresh')) [] fresh'
            (committed db' events')
            (IsLinked-same bs.db (set_fresh bs.db (some fresh')) refl refl v) e₂ in
        record {
          chain = inr (stored fresh', unfold next_height in x.chain, x.quorum);
          linked = x.linked;
          term = x.term;
        }

-- Over a linked chain, a commit message that is handled leaves the chain as it is or puts one block
-- on it, with the commits of a quorum; the chain stays linked, and the term does not fall.
pub handle_commit_msg-Advances :
    (c : Cluster) (bs bs' : BlockStore) (msg : CommitMsg) (events : List Event)
    → IsLinked bs.db
    → handle_commit_msg c bs msg ≡ some (bs', events)
    → Advances c bs.db bs'.db
handle_commit_msg-Advances c bs bs' msg events v e =
    elim (handle_commit_msg_cases c bs bs' msg events e) [
      | inl same ↦ Keeps-Advances c bs.db bs'.db v (Keeps-if_same bs.db bs'.db same)
      | inr (fresh, f, run) ↦ commit_fresh-Advances c bs bs' msg fresh events v run
    ]

module _ (sha256 : List ℕ → Digest) where
  -- A message that reaches its handler. The transactions that the node knows, what the chains tell
  -- it and the time are its own at each step.
  pub data Step (c : Cluster) : BlockStore → BlockStore → Type 0 where
    on_init :
        {bs bs' : BlockStore} (ts : TxStore) (w : Watchers) (init : InitMsg) (events : List Event)
        → handle_init_msg sha256 c ts w bs init ≡ some (bs', events)
        → Step c bs bs'
    on_prepare :
        {bs bs' : BlockStore} (msg : PrepareMsg) (events : List Event)
        → handle_prepare_msg c bs msg ≡ some (bs', events)
        → Step c bs bs'
    on_commit :
        {bs bs' : BlockStore} (msg : CommitMsg) (events : List Event)
        → handle_commit_msg c bs msg ≡ some (bs', events)
        → Step c bs bs'
    on_weak_accuse :
        {bs bs' : BlockStore} (now : ℕ) (msg : WeakAccuse) (events : List Event)
        → handle_weak_accuse c now bs msg ≡ some (bs', events)
        → Step c bs bs'
    on_strong_accuse :
        {bs bs' : BlockStore} (msg : StrongAccuse) (events : List Event)
        → handle_strong_accuse bs msg ≡ some (bs', events)
        → Step c bs bs'

  pub data Steps (c : Cluster) : BlockStore → BlockStore → Type 0 where
    stop : {bs : BlockStore} → Steps c bs bs
    next : {bs bs' bs'' : BlockStore} → Step c bs bs' → Steps c bs' bs'' → Steps c bs bs''

  pub Step-Advances :
      (c : Cluster) {bs bs' : BlockStore} → IsLinked bs.db → Step c bs bs' → Advances c bs.db bs'.db
  Step-Advances c {bs} {bs'} v (on_init ts w init events e) =
      Keeps-Advances c bs.db bs'.db v (handle_init_msg-Keeps sha256 c ts w bs bs' events init e)
  Step-Advances c {bs} {bs'} v (on_prepare msg events e) =
      Keeps-Advances c bs.db bs'.db v (handle_prepare_msg-Keeps c bs bs' msg events e)
  Step-Advances c {bs} {bs'} v (on_commit msg events e) =
      handle_commit_msg-Advances c bs bs' msg events v e
  Step-Advances c {bs} {bs'} v (on_weak_accuse now msg events e) =
      Keeps-Advances c bs.db bs'.db v (handle_weak_accuse-Keeps c now bs bs' msg events e)
  Step-Advances c {bs} {bs'} v (on_strong_accuse msg events e) =
      Keeps-Advances c bs.db bs'.db v (handle_strong_accuse-Keeps bs bs' msg events e)

-- `new` is `old` with blocks put on it, each with a quorum of commits.
pub data Grown (c : Cluster) : List (ℕ × BlockPack) → List (ℕ × BlockPack) → Type 0 where
  same : {m : List (ℕ × BlockPack)} → Grown c m m
  put :
      {old new : List (ℕ × BlockPack)} (h : ℕ) (bp : BlockPack)
      → c.quorum_n ≤ length bp.commits
      → Grown c old new
      → Grown c old ((h, bp) ∷ new)

Grown-trans : (c : Cluster) (l m n : List (ℕ × BlockPack)) → Grown c l m → Grown c m n → Grown c l n
Grown-trans c l m n p same = p
Grown-trans c l m n p (put h bp q g) = put h bp q (Grown-trans c l m _ p g)

Advances-Grown :
    (c : Cluster) (db db' : Db) → Advances c db db' → Grown c db.commit_chain db'.commit_chain
Advances-Grown c db db' a = elim a.chain [
  | inl e ↦ subst (Grown c db.commit_chain) (sym e) same
  | inr (bp, e, q) ↦ subst (Grown c db.commit_chain) (sym e) (put (next_height db) bp q same)
]

nothing :
    {c : Cluster} (old : List (ℕ × BlockPack)) (k : ℕ) (b : BlockPack)
    → Grown c old []
    → lookup k old ≡ some b
    → ⊥
unfolding lookup
nothing _ k b same e = ground arith

put_keeps :
    (h j k : ℕ) (bp a b : BlockPack) (m : List (ℕ × BlockPack))
    → IsChain ((h, bp) ∷ (j, a) ∷ m)
    → lookup k ((j, a) ∷ m) ≡ some b
    → lookup k ((h, bp) ∷ (j, a) ∷ m) ≡ some b
put_keeps h j k bp a b m v ih = elim (Bool-cases (nat_eq h k)) [
  | inl at ↦ absurd (found_above (omega (v.0, (nat_eq_iff h k).0 at, arith)))
  | inr n ↦ skips n ∙ ih
]
  where
    skips : nat_eq h k ≡ false → lookup k ((h, bp) ∷ (j, a) ∷ m) ≡ lookup k ((j, a) ∷ m)
    skips n = unfold lookup in rw n refl

    found_above : j < k → ⊥
    found_above l = ground (arith, ih, lookup_above m j k a v.4 l)

-- Over a linked chain a block is found at its height until the end.
pub Grown-lookup :
    (c : Cluster) (old new : List (ℕ × BlockPack)) (k : ℕ) (b : BlockPack)
    → IsChain new
    → Grown c old new
    → lookup k old ≡ some b
    → lookup k new ≡ some b
Grown-lookup c old _ k b v same e = e
Grown-lookup c old ((h, bp) ∷ []) k b v (put _ _ q g) e = absurd (nothing old k b g e)
Grown-lookup c old ((h, bp) ∷ (j, a) ∷ m) k b v (put _ _ q g) e =
    put_keeps h j k bp a b m v (Grown-lookup c old ((j, a) ∷ m) k b v.4 g e)

module _ (sha256 : List ℕ → Digest) where
  -- Where the chain is linked, it is after any run of the handlers of a cluster: then it is the
  -- chain of before with blocks put on it, each with the commits of a quorum, and the term of the
  -- node has not fallen.
  pub Steps-Grown :
      (c : Cluster) (bs bs' : BlockStore)
      → IsLinked bs.db
      → Steps sha256 c bs bs'
      → IsLinked bs'.db
        × Grown c bs.db.commit_chain bs'.db.commit_chain
        × NotBelow bs.db.term bs'.db.term
  Steps-Grown c bs _ v stop = (v, same, NotBelow-refl bs.db.term)
  Steps-Grown c bs bs'' v (next {bs' = bs'} step steps) =
      let a = Step-Advances sha256 c v step in
      let (linked, grown, term) = Steps-Grown c bs' bs'' a.linked steps in
      (
        linked,
        Grown-trans c _ _ _ (Advances-Grown c bs.db bs'.db a) grown,
        NotBelow-trans bs.db.term bs'.db.term bs''.db.term a.term term,
      )
