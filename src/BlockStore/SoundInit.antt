-- ===== src/BlockStore/SoundInit.antt =====
-- primitives/blockstore.go: `handleInitMsg` keeps the state sound in which no commit message panics.
use ofgp_core.Base.{
  ℕ_eq, bytes_Eq, ltb, nat_eq, Bool-cases, Option-cases, is_some, ℕ, ◌≡◌, refl, sym, ap, subst, ◌⊎◌,
  inl, inr, true, false, none, some, List, [], arith,
}
use ofgp_core.Proto.Types.{
  Digest, Transaction, Block, CommitMsg, InitMsg, BlockPack, WeakAccuse, StrongAccuse,
}
use ofgp_core.Proto.Blocks.{is_txs_block, new_block_pack}
use ofgp_core.Cluster.Defs.{equal, Cluster}
use ofgp_core.Db.Defs.{Db, int64_limit, set_node_term, set_fresh, next_height}
use ofgp_core.TxStore.Defs.{TxStore, Validity}
use ofgp_core.TxStore.Validate.{Watchers, validate_txs}
use ofgp_core.BlockStore.Votes.{handle_commit_msg}
use ofgp_core.BlockStore.Init.{
  update_node_term_with_init, with_cached, adopt, accepts, is_supported, handle_current_init,
  handle_init_msg,
}
use ofgp_core.BlockStore.Accuse.{handle_weak_accuse, handle_strong_accuse}
use ofgp_core.BlockStore.Keeps.{
  handle_wrong_height-same, update_node_term_with_init-Keeps, handle_prepare_msg_cases,
  handle_commit_msg_cases, handle_weak_accuse-Keeps, handle_strong_accuse-Keeps,
}
use ofgp_core.BlockStore.Progress.{IsCommittable, handle_commit_msg_total}
use ofgp_core.BlockStore.Advance.{
  Step, on_init, on_prepare, on_commit, on_weak_accuse, on_strong_accuse, Steps, stop, next,
}
use ofgp_core.BlockStore.Sound.{
  IsSound, IsCommittable-same, SameRound, IsSound-same, some_stays, round_stays,
  prepare_fresh-IsSound, commit_fresh-IsSound,
}
use ofgp_core.BlockStore.Defs.{BlockStore, Event, init_msg}
use ofgp_core.Db.Chain.{IsLinked-same}

-- The message proposes a block of transactions, and its term is an int64.
abbrev pub ProposesTxs : InitMsg → Type 0
ProposesTxs init = (is_txs_block (new_block_pack init) ≡ true) × (ltb init.term int64_limit ≡ true)

-- What the checks let through can be committed.
accepts-IsCommittable :
    (c : Cluster) (db : Db) (bp : BlockPack) (validity : Validity)
    → accepts c db bp validity ≡ some true
    → is_txs_block bp ≡ true
    → ltb bp.init.term int64_limit ≡ true
    → is_some db.term ≡ true
    → is_some db.votie ≡ true
    → IsCommittable db bp
unfolding accepts
accepts-IsCommittable c db bp validity e txs term node_term votie = record {
  new = ground arith;
  connects = ground arith;
  txs = txs;
  term = term;
  node_term = node_term;
  votie = votie;
}

module _ (sha256 : List ℕ → Digest) where
  handle_current_init-IsSound :
      (c : Cluster) (ts : TxStore) (w : Watchers) (bs bs' : BlockStore) (tasks events : List Event)
      (init : InitMsg)
      → ProposesTxs init
      → IsSound bs.db
      → handle_current_init sha256 c ts w bs tasks init ≡ some (bs', events)
      → IsSound bs'.db
  unfolding handle_current_init adopt
  handle_current_init-IsSound c ts w bs bs' tasks events init p v e =
      elim (Bool-cases (nat_eq init.height (next_height bs.db))) [
        | inr n ↦
            subst IsSound
              (sym (
                ap (λ b. b.db)
                  (handle_wrong_height-same bs bs' tasks events (init_msg init) (ground arith))))
              v
        | inl at ↦ elim (Option-cases (validate_txs sha256 ts w init.block.txs)) [
          | inl n ↦ ground arith
          | inr ((validity, txs'), e₂) ↦
              elim (Option-cases (accepts c bs.db (proposed txs') validity)) [
                | inl n ↦ ground arith
                | inr (false, e₃) ↦ stays (ground arith)
                | inr (true, e₃) ↦ elim (Option-cases (is_supported c bs.db init)) [
                  | inl n ↦ ground arith
                  | inr (false, e₄) ↦ stays (ground arith)
                  | inr (true, e₄) ↦ adopts txs' validity e₃ (ground arith)
                ]
              ]
        ]
      ]
    where
      block : Block
      block = init.block

      proposed : List Transaction → BlockPack
      proposed txs' = new_block_pack (record init { block = record block { txs = txs' } })

      stays : bs'.db ≡ bs.db → IsSound bs'.db
      stays e = subst IsSound (sym e) v

      adopts :
          (txs' : List Transaction) (validity : Validity)
          → accepts c bs.db (proposed txs') validity ≡ some true
          → bs'.db ≡ set_fresh bs.db (some (with_cached bs (proposed txs')))
          → IsSound bs'.db
      adopts txs' validity accepted end =
          let v₀ =
            accepts-IsCommittable c bs.db (proposed txs') validity accepted p.0 p.1
              v.ready.node_term v.votie in
          subst IsSound (sym end) (record {
            ready = record {
              linked =
                  IsLinked-same bs.db (set_fresh bs.db (some (with_cached bs (proposed txs')))) refl
                    refl v.ready.linked;
              node_term = v.ready.node_term;
              fresh =
                  IsCommittable-same bs.db (set_fresh bs.db (some (with_cached bs (proposed txs'))))
                    (proposed txs') (with_cached bs (proposed txs')) refl refl v.ready.node_term
                    v.votie (unfold with_cached in refl) v₀;
            };
            votie = v.votie;
          })

  handle_init_msg-IsSound :
      (c : Cluster) (ts : TxStore) (w : Watchers) (bs bs' : BlockStore) (events : List Event)
      (init : InitMsg)
      → ProposesTxs init
      → IsSound bs.db
      → handle_init_msg sha256 c ts w bs init ≡ some (bs', events)
      → IsSound bs'.db
  unfolding handle_init_msg
  handle_init_msg-IsSound c ts w bs bs' events init p v e = elim (Option-cases bs.db.term) [
    | inl n ↦ ground arith
    | inr (term, t) ↦ elim (Bool-cases (ltb term init.term)) [
      | inl l ↦ elim (Option-cases (update_node_term_with_init c bs.db [] init)) [
        | inl n ↦ stays (ground arith)
        | inr ((false, db', tasks), e₂) ↦ stays (ground arith)
        | inr ((true, db', tasks), e₂) ↦ elim (Bool-cases (ltb (next_height bs.db) init.height)) [
          | inl above ↦ stays (ground arith)
          | inr inside ↦
              handle_current_init-IsSound c ts w (record bs { db = db' }) bs' tasks events init p
                (raised db' tasks e₂) (ground arith)
        ]
      ]
      | inr l ↦ elim (Bool-cases (nat_eq init.term term)) [
        | inl equal ↦ handle_current_init-IsSound c ts w bs bs' [] events init p v (ground arith)
        | inr other ↦ stays (ground arith)
      ]
    ]
  ]
    where
      stays : bs'.db ≡ bs.db → IsSound bs'.db
      stays e = subst IsSound (sym e) v

      raised :
          (db' : Db) (tasks : List Event)
          → update_node_term_with_init c bs.db [] init ≡ some (true, db', tasks)
          → IsSound db'
      raised db' tasks e₂ =
          let keeps = update_node_term_with_init-Keeps c bs.db db' true [] tasks init e₂ in
          IsSound-same bs.db db' v keeps
            (some_stays bs.db.term db'.term keeps.term v.ready.node_term)
            (unfold update_node_term_with_init set_node_term in ground (arith, v.votie))
            (inl (unfold update_node_term_with_init set_node_term in ground arith))

handle_weak_accuse-IsSound :
    (c : Cluster) (now : ℕ) (bs bs' : BlockStore) (msg : WeakAccuse) (events : List Event)
    → IsSound bs.db
    → handle_weak_accuse c now bs msg ≡ some (bs', events)
    → IsSound bs'.db
handle_weak_accuse-IsSound c now bs bs' msg events v e =
    let keeps = handle_weak_accuse-Keeps c now bs bs' msg events e in
    IsSound-same bs.db bs'.db v keeps
      (some_stays bs.db.term bs'.db.term keeps.term v.ready.node_term)
      (unfold handle_weak_accuse in ground (arith, v.votie))
      (round_stays bs.db bs'.db (unfold handle_weak_accuse in ground arith))

handle_strong_accuse-IsSound :
    (bs bs' : BlockStore) (msg : StrongAccuse) (events : List Event)
    → IsSound bs.db
    → handle_strong_accuse bs msg ≡ some (bs', events)
    → IsSound bs'.db
handle_strong_accuse-IsSound bs bs' msg events v e =
    let keeps = handle_strong_accuse-Keeps bs bs' msg events e in
    IsSound-same bs.db bs'.db v keeps
      (some_stays bs.db.term bs'.db.term keeps.term v.ready.node_term)
      (unfold handle_strong_accuse set_node_term in ground (arith, v.votie)) (round fresh_cases)
  where
    fresh_cases : (bs'.db.fresh ≡ bs.db.fresh) ⊎ (bs'.db.fresh ≡ none)
    fresh_cases = unfold handle_strong_accuse set_node_term in ground arith

    round : (bs'.db.fresh ≡ bs.db.fresh) ⊎ (bs'.db.fresh ≡ none) → SameRound bs.db bs'.db
    round (inl stays) = round_stays bs.db bs'.db stays
    round (inr gone) = inl gone

module _ (sha256 : List ℕ → Digest) where
  -- An init message that is handled proposes transactions.
  abbrev pub SendsTxs : {c : Cluster} {bs bs' : BlockStore} → Step sha256 c bs bs' → Type 0
  SendsTxs (on_init ts w init events e) = ProposesTxs init
  SendsTxs _ = Unit

  -- Soundness (a linked chain, a term, a vote, and a block of the round that can be committed) is kept by
  -- every handled message, if an init proposes a block of transactions and its term is an int64; so no
  -- commit message panics after it.
  pub Step-IsSound :
      (c : Cluster) (bs bs' : BlockStore) (step : Step sha256 c bs bs')
      → SendsTxs step
      → IsSound bs.db
      → IsSound bs'.db × ((msg : CommitMsg) → is_some (handle_commit_msg c bs' msg) ≡ true)
  Step-IsSound c bs bs' step p v =
      let sound = by_step bs bs' step p v in
      (sound, λ msg. handle_commit_msg_total c bs' msg sound.ready)
    where
      by_step :
          (bs bs' : BlockStore) (step : Step sha256 c bs bs')
          → SendsTxs step
          → IsSound bs.db
          → IsSound bs'.db
      by_step bs bs' (on_init ts w init events e) p v =
          handle_init_msg-IsSound sha256 c ts w bs bs' events init p v e
      by_step bs bs' (on_prepare msg events e) p v =
          elim (handle_prepare_msg_cases c bs bs' msg events e) [
            | inl stays ↦ subst IsSound (sym stays) v
            | inr (fresh, f, run) ↦ prepare_fresh-IsSound c bs bs' msg fresh events v f e run
          ]
      by_step bs bs' (on_commit msg events e) p v =
          elim (handle_commit_msg_cases c bs bs' msg events e) [
            | inl stays ↦ subst IsSound (sym stays) v
            | inr (fresh, f, run) ↦ commit_fresh-IsSound c bs bs' msg fresh events v f run
          ]
      by_step bs bs' (on_weak_accuse now msg events e) p v =
          handle_weak_accuse-IsSound c now bs bs' msg events v e
      by_step bs bs' (on_strong_accuse msg events e) p v =
          handle_strong_accuse-IsSound bs bs' msg events v e

module _ (sha256 : List ℕ → Digest) where
  -- Every init message of a run proposes transactions.
  abbrev pub AllSendTxs : {c : Cluster} {bs bs' : BlockStore} → Steps sha256 c bs bs' → Type 0
  AllSendTxs stop = Unit
  AllSendTxs (next step steps) = SendsTxs sha256 step × AllSendTxs steps

  -- Where the state is sound (the chain is linked, there are a term and a vote, and the block of the
  -- round, if any, can be committed), it is after any run of the handlers of a cluster whose init messages
  -- propose blocks of transactions in a term that is an int64; no commit message panics then.
  pub Steps-IsSound :
      (c : Cluster) (bs bs' : BlockStore) (steps : Steps sha256 c bs bs')
      → AllSendTxs steps
      → IsSound bs.db
      → IsSound bs'.db × ((msg : CommitMsg) → is_some (handle_commit_msg c bs' msg) ≡ true)
  Steps-IsSound c bs _ stop p v = (v, λ msg. handle_commit_msg_total c bs msg v.ready)
  Steps-IsSound c bs bs'' (next {bs' = bs'} step steps) p v =
      Steps-IsSound c bs' bs'' steps p.1 (Step-IsSound sha256 c bs bs' step p.0 v).0
