-- ===== src/Node/Leader/Safe.antt =====
-- node/leader.go: a run of the loop `Run`: who proposes, and on which votes.
use ofgp_core.Proto.MsgIds.{init_msg_id}
use ofgp_core.Base.{
  ℕ_eq, bytes_Eq, ◌>>=◌, nat_eq, if◌then◌else◌, ◌==◌, All, is_some, assert_true, >>=-eq-some, Holds,
  Holds-some, Holds->>=, Holds-if, ℕ, String, ◌≡◌, refl, ap, ◌∙◌, Bool, true, false, not, ◌&&◌,
  ◌||◌, Option, none, some, List, [], ◌∷◌, ◌++◌, arith,
}
use ofgp_core.Proto.Types.{Digest, Transaction, Block, Votie, Vote, InitMsg, BlockPack}
use ofgp_core.Proto.Blocks.{block_id, init_block_id}
use ofgp_core.Proto.Votes.{get_max_votie}
use ofgp_core.Cluster.Defs.{Cluster}
use ofgp_core.Db.Defs.{Db, get_node_term, get_commit_top}
use ofgp_core.Node.Leader.Defs.{
  Leader, LeaderEvent, is_in_charge, ready_to_init_new_block, do_heatbeat, new_init,
}
use ofgp_core.Node.Leader.Propose.{
  block_to_init, init_of_block, sign_init, try_create_block_impl, try_create_block, propose,
}
use ofgp_core.Node.Leader.Loop.{
  LeaderInput, finish_init, on_tick, leader_step, tick, term_changed, new_committed, new_vote,
  node_host, leave_node, no_txs,
}
use ofgp_core.Node.Leader.Pool.{InitingFor, IsVoting, is_in_charge-InCharge, ByLeader}
use ofgp_core.Node.Leader.Steps.{
  Kept, IsVoting-IsScanning, scan_vote_pool-Kept, All-snoc, update_term-Kept, add_vote-Kept,
}

-- Changes of the state that the votes and the charge do not depend on.
finish_init-IsVoting :
    (c : Cluster) (ld : Leader) (bp : BlockPack) → IsVoting c ld → IsVoting c (finish_init ld bp)
unfolding finish_init
finish_init-IsVoting c ld bp v = by_initing ld.initing
  where
    ended : IsVoting c (record ld { initing = none })
    ended = record { cast = v.cast; distinct = v.distinct; pooled = v.pooled; initing = tt }

    by_test : (t : Bool) → IsVoting c (if t then record ld { initing = none } else ld)
    by_test true = ended
    by_test false = v

    by_initing :
        (o : Option InitMsg)
        → IsVoting c (elim o [
          | none ↦ ld
          | some init ↦
              if block_id bp == init_block_id init then record ld { initing = none } else ld
        ])
    by_initing none = v
    by_initing (some init) = by_test (block_id bp == init_block_id init)

aside-IsVoting :
    (c : Cluster) (ld : Leader) (host : String) (leaving : Option ℕ)
    → IsVoting c ld
    → IsVoting c (record ld { new_node_host = host; leaving_node_id = leaving })
unfolding is_in_charge
aside-IsVoting c ld host leaving v = record {
  cast = v.cast;
  distinct = v.distinct;
  pooled = v.pooled;
  initing = same_charge ld.initing v.initing;
}
  where
    aside : Leader
    aside = record ld { new_node_host = host; leaving_node_id = leaving }

    same_charge : (o : Option InitMsg) → InitingFor c ld o → InitingFor c aside o
    same_charge none i = tt
    same_charge (some init) i = i

module _ (sha256 : List ℕ → Digest) (sign : Digest → Option (List ℕ))
    (encode_vote : Option Vote → List ℕ) where
  sign_init-Kept :
      (c : Cluster) (ld : Leader) (init : InitMsg)
      → IsVoting c ld
      → is_in_charge c ld ≡ some true
      → init.term ≡ ld.term
      → Kept c (sign_init sha256 sign encode_vote ld init)
  unfolding sign_init is_in_charge
  sign_init-Kept c ld init v charged same = by_signature (sign (init_msg_id sha256 init))
    where
      by_signature :
          (o : Option (List ℕ))
          → Kept c (elim o [
            | none ↦ (ld, [])
            | some sig ↦
                let init' = record init { sig = sig } in
                (record ld { initing = some init' }, new_init init' ∷ [])
          ])
      by_signature none = (v, tt)
      by_signature (some sig) = (
        record {
          cast = v.cast;
          distinct = v.distinct;
          pooled = v.pooled;
          initing = (same, charged);
        },
        ((refl, is_in_charge-InCharge c ld charged), tt),
      )

  try_create_block-Kept :
      (c : Cluster) (db : Db) (ld : Leader) (now : ℕ) (txs : List Transaction)
      → IsVoting c ld
      → is_in_charge c ld ≡ some true
      → Holds (Kept c) (try_create_block sha256 sign encode_vote c db ld now txs)
  unfolding try_create_block try_create_block_impl init_of_block
  try_create_block-Kept c db ld now txs v charged =
      Holds->>= (Kept c) (ready_to_init_new_block c ld) _ λ ready er.
        Holds->>= (Kept c) (assert_true ready) _ λ u eu.
          Holds->>= (Kept c) (get_node_term db) _ λ term et.
            Holds-if (Kept c) (not (nat_eq term ld.term) || is_some db.fresh) _ _ (λ h. (v, tt))
              λ h. Holds->>= (Kept c) (get_commit_top db) _ λ top ep.
                Holds->>= (Kept c) (get_max_votie ld.votes) _ λ max_votie em.
                  Holds->>= (Kept c)
                    (block_to_init sha256 sign encode_vote c db ld top max_votie now txs) _
                    λ block eb. proposed top max_votie block
    where
      proposed :
          (top : BlockPack) (max_votie : Votie) (block : Option Block)
          → Kept c (propose sha256 sign encode_vote ld top max_votie block)
      proposed top max_votie none = (v, tt)
      proposed top max_votie (some block) =
          sign_init-Kept c ld (init_of_block sha256 sign encode_vote ld top max_votie block) v
            charged refl

  on_tick-Kept :
      (c : Cluster) (db : Db) (ld : Leader) (now : ℕ) (txs : List Transaction)
      → IsVoting c ld
      → Holds (Kept c) (on_tick sha256 sign encode_vote c db ld now txs)
  unfolding on_tick ready_to_init_new_block
  on_tick-Kept c db ld now txs v =
      Holds->>= (Kept c) (is_in_charge c ld >>= λ t. some (t && not (is_some ld.initing))) _
        λ ready er.
          Holds-if (Kept c) ready _ _
            (λ is_ready. Holds->>= (Kept c) (tried ready) _ λ r er'.
              beaten r
                (Holds-some (Kept c) (tried ready) (tried-Kept (in_charge ready er is_ready)) er'))
            (λ no. (v, tt))
    where
      tried : Bool → Option (Leader × List LeaderEvent)
      tried t =
          if no_txs txs
          then some (ld, [])
          else try_create_block sha256 sign encode_vote c db ld now txs

      in_charge :
          (ready : Bool)
          → (is_in_charge c ld >>= λ t. some (t && not (is_some ld.initing))) ≡ some ready
          → ready ≡ true
          → is_in_charge c ld ≡ some true
      in_charge ready e is_ready =
          let (t, et, e') = >>=-eq-some (is_in_charge c ld) _ e in
          et ∙ ap some (ground (arith, e', is_ready))

      tried-Kept : is_in_charge c ld ≡ some true → Holds (Kept c) (tried true)
      tried-Kept charged =
          Holds-if (Kept c) (no_txs txs) _ _ (λ h. (v, tt))
            λ h. try_create_block-Kept c db ld now txs v charged

      beaten :
          (r : Leader × List LeaderEvent) → Kept c r → Kept c (r.0, r.1 ++ do_heatbeat r.0 ∷ [])
      beaten r k = (k.0, All-snoc c r.0 r.1 (do_heatbeat r.0) k.1 (refl, refl))

  -- In a cluster that does not change, every message of the loop keeps this: the votes that count are of
  -- different nodes and for the present term, those that wait are for a term up to 500 ahead, and a block
  -- is being proposed only in the present term by a leader in charge. Whenever the leader says that it
  -- has become one, or proposes a block, it is the leader of its term and has the votes of a quorum.
  pub leader_step-Kept :
      (c : Cluster) (db : Db) (ld ld' : Leader) (input : LeaderInput) (events : List LeaderEvent)
      → IsVoting c ld
      → leader_step sha256 sign encode_vote c db ld input ≡ some (ld', events)
      → IsVoting c ld' × All (ByLeader c ld') events
  unfolding leader_step
  leader_step-Kept c db ld ld' input events v e =
      Holds-some (Kept c) (leader_step sha256 sign encode_vote c db ld input) (kept input) e
    where
      kept : (i : LeaderInput) → Holds (Kept c) (leader_step sha256 sign encode_vote c db ld i)
      kept (tick now txs) = on_tick-Kept c db ld now txs v
      kept (term_changed term) = update_term-Kept c db ld term v
      kept (new_committed bp) = Holds->>= (Kept c) (is_in_charge c ld) _ λ t et.
          Holds-if (Kept c) t _ _ (λ h. (finish_init-IsVoting c ld bp v, tt))
            λ h. scan_vote_pool-Kept c db ld (IsVoting-IsScanning c ld v)
      kept (new_vote vote) = add_vote-Kept c db ld vote v
      kept (node_host host) = (aside-IsVoting c ld host ld.leaving_node_id v, tt)
      kept (leave_node node_id) = (aside-IsVoting c ld ld.new_node_host node_id v, tt)
