-- ===== src/BlockStore/Keeps.antt =====
-- The handlers of primitives/blockstore.go other than the commit of a block: the chain stays, and the
-- term does not fall.
use ofgp_core.Base.{
  ℕ_eq, bytes_Eq, Option-cases, insert, ℕ, ◌≡◌, refl, inl, inr, some, List, arith, sym, subst, ◌⊎◌,
  [], nat_eq, Bool-cases, ap, ltb, ◌∙◌, Bool, true, false,
}
use ofgp_core.Proto.Types.{
  Block, PrepareMsg, BlockPack, WeakAccuse, StrongAccuse, CommitMsg, Digest, InitMsg,
}
use ofgp_core.Cluster.Defs.{Cluster}
use ofgp_core.Proto.Blocks.{new_block_pack}
use ofgp_core.Db.Defs.{Db, set_node_term, set_fresh, next_height}
use ofgp_core.BlockStore.Defs.{
  BlockStore, ProgressMsg, Event, handle_wrong_height_progress_msg, update_votie, prepare_msg,
  commit_msg, init_msg,
}
use ofgp_core.BlockStore.Commit.{NotBelow, NotBelow-refl, update_votie_only_votie, NotBelow-trans}
use ofgp_core.BlockStore.Votes.{prepare_fresh, handle_prepare_msg, commit_fresh, handle_commit_msg}
use ofgp_core.BlockStore.Accuse.{handle_weak_accuse, handle_strong_accuse}
use ofgp_core.BlockStore.Init.{
  handle_current_init, adopt, accepts, is_supported, handle_init_msg, update_node_term_with_init,
}
use ofgp_core.TxStore.Defs.{TxStore}
use ofgp_core.TxStore.Validate.{Watchers, validate_txs}

-- No block is committed, and the term does not fall.
pub record Keeps (db db' : Db) : Type 0 where
  pub chain : db'.commit_chain ≡ db.commit_chain
  pub index : db'.commit_hs_by_ids ≡ db.commit_hs_by_ids
  pub term : NotBelow db.term db'.term

Keeps-refl : (db : Db) → Keeps db db
Keeps-refl db = record { chain = refl; index = refl; term = NotBelow-refl db.term }

-- A handler that changes at most these fields of the database keeps the chain.
pub Keeps-same :
    (db db' : Db)
    → db'.commit_chain ≡ db.commit_chain
    → db'.commit_hs_by_ids ≡ db.commit_hs_by_ids
    → db'.term ≡ db.term
    → Keeps db db'
Keeps-same db db' e i t = record { chain = e; index = i; term = rw t (NotBelow-refl db.term) }

pub handle_wrong_height-same :
    (bs bs' : BlockStore) (tasks events : List Event) (msg : ProgressMsg)
    → handle_wrong_height_progress_msg bs tasks msg ≡ some (bs', events)
    → bs' ≡ bs
unfolding handle_wrong_height_progress_msg
handle_wrong_height-same bs bs' tasks events msg e = ground arith

Keeps-trans : (db₁ db₂ db₃ : Db) → Keeps db₁ db₂ → Keeps db₂ db₃ → Keeps db₁ db₃
Keeps-trans db₁ db₂ db₃ p q = record {
  chain = q.chain ∙ p.chain;
  index = q.index ∙ p.index;
  term = NotBelow-trans db₁.term db₂.term db₃.term p.term q.term;
}

pub update_node_term_with_init-Keeps :
    (c : Cluster) (db db' : Db) (updated : Bool) (tasks tasks' : List Event) (init : InitMsg)
    → update_node_term_with_init c db tasks init ≡ some (updated, db', tasks')
    → Keeps db db'
unfolding update_node_term_with_init set_node_term
update_node_term_with_init-Keeps c db db' updated tasks tasks' init e = record {
  chain = ground arith;
  index = ground arith;
  term = ground arith;
}

prepare_fresh-Keeps :
    (c : Cluster) (bs bs' : BlockStore) (msg : PrepareMsg) (fresh : BlockPack) (events : List Event)
    → prepare_fresh c bs msg fresh ≡ some (bs', events)
    → Keeps bs.db bs'.db
unfolding prepare_fresh
prepare_fresh-Keeps c bs bs' msg fresh events e =
    elim (Option-cases (update_votie c (set_fresh bs.db (some fresh')) fresh')) [
      | inl n ↦ Keeps-same bs.db bs'.db (ground arith) (ground arith) (ground arith)
      | inr (db₂, e₂) ↦
          let only = update_votie_only_votie c (set_fresh bs.db (some fresh')) db₂ fresh' e₂ in
          Keeps-same bs.db bs'.db (ground (arith, only)) (ground (arith, only))
            (ground (arith, only))
    ]
  where
    fresh' : BlockPack
    fresh' = record fresh { prepares = insert msg.node_id msg fresh.prepares }

-- A prepare that is for the node's term and height, and meets a block, goes to `prepare_fresh`; the
-- others do not touch the database.
pub handle_prepare_msg_cases :
    (c : Cluster) (bs bs' : BlockStore) (msg : PrepareMsg) (events : List Event)
    → handle_prepare_msg c bs msg ≡ some (bs', events)
    → (bs'.db ≡ bs.db)
      ⊎ ((fresh : BlockPack) × (bs.db.fresh ≡ some fresh)
          × (prepare_fresh c bs msg fresh ≡ some (bs', events)))
unfolding handle_prepare_msg
handle_prepare_msg_cases c bs bs' msg events e = elim (Option-cases bs.db.fresh) [
  | inl n ↦ inl (ground (arith, handle_wrong_height-same bs bs' [] events (prepare_msg msg)))
  | inr (fresh, f) ↦
      elim (Option-cases (handle_wrong_height_progress_msg bs [] (prepare_msg msg))) [
        | inl n ↦ ground arith
        | inr ((bs₂, events₂), e₂) ↦
            ground (arith, handle_wrong_height-same bs bs₂ [] events₂ (prepare_msg msg) e₂)
      ]
]

pub handle_commit_msg_cases :
    (c : Cluster) (bs bs' : BlockStore) (msg : CommitMsg) (events : List Event)
    → handle_commit_msg c bs msg ≡ some (bs', events)
    → (bs'.db ≡ bs.db)
      ⊎ ((fresh : BlockPack) × (bs.db.fresh ≡ some fresh)
          × (commit_fresh c bs msg fresh ≡ some (bs', events)))
unfolding handle_commit_msg
handle_commit_msg_cases c bs bs' msg events e = elim (Option-cases bs.db.fresh) [
  | inl n ↦ inl (ground (arith, handle_wrong_height-same bs bs' [] events (commit_msg msg)))
  | inr (fresh, f) ↦ elim (Option-cases (handle_wrong_height_progress_msg bs [] (commit_msg msg))) [
    | inl n ↦ ground arith
    | inr ((bs₂, events₂), e₂) ↦
        ground (arith, handle_wrong_height-same bs bs₂ [] events₂ (commit_msg msg) e₂)
  ]
]

pub Keeps-if_same : (db db' : Db) → db' ≡ db → Keeps db db'
Keeps-if_same db db' e = subst (Keeps db) (sym e) (Keeps-refl db)

pub handle_prepare_msg-Keeps :
    (c : Cluster) (bs bs' : BlockStore) (msg : PrepareMsg) (events : List Event)
    → handle_prepare_msg c bs msg ≡ some (bs', events)
    → Keeps bs.db bs'.db
handle_prepare_msg-Keeps c bs bs' msg events e =
    elim (handle_prepare_msg_cases c bs bs' msg events e) [
      | inl same ↦ Keeps-if_same bs.db bs'.db same
      | inr (fresh, f, run) ↦ prepare_fresh-Keeps c bs bs' msg fresh events run
    ]

pub handle_weak_accuse-Keeps :
    (c : Cluster) (now : ℕ) (bs bs' : BlockStore) (msg : WeakAccuse) (events : List Event)
    → handle_weak_accuse c now bs msg ≡ some (bs', events)
    → Keeps bs.db bs'.db
unfolding handle_weak_accuse
handle_weak_accuse-Keeps c now bs bs' msg events e =
    Keeps-same bs.db bs'.db (ground arith) (ground arith) (ground arith)

pub handle_strong_accuse-Keeps :
    (bs bs' : BlockStore) (msg : StrongAccuse) (events : List Event)
    → handle_strong_accuse bs msg ≡ some (bs', events)
    → Keeps bs.db bs'.db
unfolding handle_strong_accuse set_node_term
handle_strong_accuse-Keeps bs bs' msg events e = record {
  chain = ground arith;
  index = ground arith;
  term = ground arith;
}

module _ (sha256 : List ℕ → Digest) where
  handle_current_init-Keeps :
      (c : Cluster) (ts : TxStore) (w : Watchers) (bs bs' : BlockStore) (tasks events : List Event)
      (init : InitMsg)
      → handle_current_init sha256 c ts w bs tasks init ≡ some (bs', events)
      → Keeps bs.db bs'.db
  unfolding handle_current_init adopt
  handle_current_init-Keeps c ts w bs bs' tasks events init e =
      elim (Bool-cases (nat_eq init.height (next_height bs.db))) [
        | inr n ↦ Keeps-if_same bs.db bs'.db (
            ap (λ b. b.db)
              (handle_wrong_height-same bs bs' tasks events (init_msg init) (ground arith)))
        | inl at ↦ elim (Option-cases (validate_txs sha256 ts w init.block.txs)) [
          | inl n ↦ ground arith
          | inr ((validity, txs'), e₂) ↦
              let fresh = new_block_pack (record init { block = record block { txs = txs' } }) in
              elim (Option-cases (accepts c bs.db fresh validity)) [
                | inl n ↦ ground arith
                | inr (accepted, e₃) ↦ elim (Option-cases (is_supported c bs.db init)) [
                  | inl n ↦ Keeps-same bs.db bs'.db (ground arith) (ground arith) (ground arith)
                  | inr (supported, e₄) ↦
                      Keeps-same bs.db bs'.db (ground arith) (ground arith) (ground arith)
                ]
              ]
        ]
      ]
    where
      block : Block
      block = init.block

  pub handle_init_msg-Keeps :
      (c : Cluster) (ts : TxStore) (w : Watchers) (bs bs' : BlockStore) (events : List Event)
      (init : InitMsg)
      → handle_init_msg sha256 c ts w bs init ≡ some (bs', events)
      → Keeps bs.db bs'.db
  unfolding handle_init_msg
  handle_init_msg-Keeps c ts w bs bs' events init e = elim (Option-cases bs.db.term) [
    | inl n ↦ ground arith
    | inr (term, t) ↦ elim (Option-cases (update_node_term_with_init c bs.db [] init)) [
      | inl n ↦ elim (Bool-cases (ltb term init.term)) [
        | inl l ↦ Keeps-same bs.db bs'.db (ground arith) (ground arith) (ground arith)
        | inr l ↦ stays term t l
      ]
      | inr ((updated, db', tasks), e₂) ↦ elim (Bool-cases (ltb term init.term)) [
        | inl l ↦ raises term t l db' tasks updated e₂
        | inr l ↦ stays term t l
      ]
    ]
  ]
    where
      stays : (term : ℕ) → bs.db.term ≡ some term → ltb term init.term ≡ false → Keeps bs.db bs'.db
      stays term t l = elim (Bool-cases (nat_eq init.term term)) [
        | inl same ↦ handle_current_init-Keeps c ts w bs bs' [] events init (ground arith)
        | inr other ↦ Keeps-same bs.db bs'.db (ground arith) (ground arith) (ground arith)
      ]

      raises :
          (term : ℕ)
          → bs.db.term ≡ some term
          → ltb term init.term ≡ true
          → (db' : Db) (tasks : List Event) (updated : Bool)
          → update_node_term_with_init c bs.db [] init ≡ some (updated, db', tasks)
          → Keeps bs.db bs'.db
      raises term t l db' tasks false e₂ =
          Keeps-same bs.db bs'.db (ground arith) (ground arith) (ground arith)
      raises term t l db' tasks true e₂ = elim (Bool-cases (ltb (next_height bs.db) init.height)) [
        | inl above ↦ Keeps-same bs.db bs'.db (ground arith) (ground arith) (ground arith)
        | inr inside ↦
            Keeps-trans bs.db db' bs'.db
              (update_node_term_with_init-Keeps c bs.db db' true [] tasks init e₂)
              (handle_current_init-Keeps c ts w (record bs { db = db' }) bs' tasks events init
                (ground arith))
      ]
