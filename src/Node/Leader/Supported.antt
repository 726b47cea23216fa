-- ===== src/Node/Leader/Supported.antt =====
-- node/leader.go with primitives/blockstore.go: the followers take the votes of a leader's proposal.
use ofgp_core.BlockStore.Defs.{is_init_supported_by_votes}
use ofgp_core.BlockStore.Init.{is_supported}
use ofgp_core.Proto.MsgIds.{init_msg_id}
use ofgp_core.Cluster.Leader.{leader_node_of_term}
use ofgp_core.Base.{
  ℕ_eq, bytes_Eq, String_eq, Bool-cases, ◌==◌, beq_refl, bytes_eq_iff, length, All, Map, ℕ, ◌+◌,
  ◌<◌, ◌≡◌, subst, ◌⊎◌, inl, inr, Bool, true, not, ◌&&◌, ◌||◌, Option, some, List, [], ◌∷◌, arith,
  Option-cases, >>=-eq-some, ◌≤◌, refl, none,
}
use ofgp_core.Proto.Types.{Digest, Transaction, Block, Votie, Vote, BlockPack, InitMsg}
use ofgp_core.Proto.Blocks.{block_id, to_votie, has_less_term_height_than}
use ofgp_core.Proto.Feed.{feed_block_body, feed_block_fields, update_block_id}
use ofgp_core.Proto.Create.{create_txs_block, create_reconfig_block, create_leave_reconfig_block}
use ofgp_core.Proto.Votes.{get_max_votie, VotedFor, get_max_votie-max}
use ofgp_core.Cluster.Defs.{Cluster}
use ofgp_core.Db.Defs.{Db, get_commit_top}
use ofgp_core.Node.Leader.Defs.{Leader, is_in_charge, ready_to_init_new_block, new_init}
use ofgp_core.Node.Leader.Propose.{
  new_block, block_to_init, init_of_block, sign_init, try_create_block_impl, try_create_block,
}

-- What the vote of a node in step with the top is for: a block below the top, the top, or a block that
-- follows the top, under the next height.
abbrev pub Placed : BlockPack → Votie → Type 0
Placed top v =
    (has_less_term_height_than v (to_votie top) ≡ true)
    ⊎ (v.block.id ≡ block_id top)
    ⊎ ((v.block.prev_block_id ≡ block_id top) × (v.height ≡ top.init.height + 1))

VotedFor-Placed :
    (top : BlockPack) (m : Votie) (votes : Map ℕ Vote)
    → All (λ (e : ℕ × Vote). Placed top e.1.votie) votes
    → VotedFor m votes
    → Placed top m
VotedFor-Placed top m [] h v = absurd v
VotedFor-Placed top m ((k, vote) ∷ votes) h (inl e) = subst (Placed top) e h.0
VotedFor-Placed top m ((k, vote) ∷ votes) h (inr v) = VotedFor-Placed top m votes h.1 v

-- The largest of some votes is for a block in its place.
max_votie-Placed :
    (top : BlockPack) (votes : Map ℕ Vote)
    → 0 < length votes
    → All (λ (e : ℕ × Vote). Placed top e.1.votie) votes
    → (m : Votie) × (get_max_votie votes ≡ some m) × Placed top m
max_votie-Placed top [] le h = absurd (omega arith)
max_votie-Placed top ((k, vote) ∷ votes) le h =
    let (m, e, voted, above) = get_max_votie-max k vote votes in
    (m, e, VotedFor-Placed top m ((k, vote) ∷ votes) h voted)

-- The test of `isInitSupportedByVotes` on the largest block voted for and the proposed one.
abbrev fits : BlockPack → Votie → Block → Bool
fits top m block =
    has_less_term_height_than m (to_votie top)
    || m.block.id == block_id top
    || m.block.id == block.id

module _ (sha256 : List ℕ → Digest) (sign : Digest → Option (List ℕ))
    (encode_vote : Option Vote → List ℕ) where
  create_txs_block-made :
      (now : ℕ) (id : Digest) (txs : List Transaction)
      → (b : Block) × (create_txs_block sha256 now id txs ≡ some b) × (b.prev_block_id ≡ id)
  unfolding create_txs_block update_block_id feed_block_fields feed_block_body
  create_txs_block-made now id txs = (_, refl, refl)

  create_leave_reconfig_block-made :
      (now : ℕ) (id : Digest) (n : ℕ)
      → (b : Block) × (create_leave_reconfig_block sha256 now id n ≡ some b)
        × (b.prev_block_id ≡ id)
  unfolding create_leave_reconfig_block create_reconfig_block update_block_id feed_block_fields
      feed_block_body
  create_leave_reconfig_block-made now id n = (_, refl, refl)

  -- A block of transactions, or of the node that leaves, can always be made.
  new_block-made :
      (c : Cluster) (db : Db) (ld : Leader) (top : BlockPack) (now : ℕ) (txs : List Transaction)
      → get_commit_top db ≡ some top
      → ld.new_node_host ≡ ""
      → (b : Block) × (new_block sha256 sign encode_vote c db ld now txs ≡ some (some b))
        × (b.prev_block_id ≡ block_id top)
  unfolding new_block
  new_block-made c db ld top now txs e h = by_leaving (Option-cases ld.leaving_node_id)
    where
      by_leaving :
          (ld.leaving_node_id ≡ none) ⊎ ((n : ℕ) × (ld.leaving_node_id ≡ some n))
          → (b : Block) × (new_block sha256 sign encode_vote c db ld now txs ≡ some (some b))
            × (b.prev_block_id ≡ block_id top)
      by_leaving (inl l) =
          let (b, made, prev) = create_txs_block-made now (block_id top) txs in
          (b, rw (e, h, l, made), prev)
      by_leaving (inr (n, l)) =
          let (b, made, prev) = create_leave_reconfig_block-made now (block_id top) n in
          (b, rw (e, h, l, made), prev)

  block_to_init-fits :
      (c : Cluster) (db : Db) (ld : Leader) (top : BlockPack) (m : Votie) (now : ℕ)
      (txs : List Transaction)
      → get_commit_top db ≡ some top
      → ld.new_node_host ≡ ""
      → Placed top m
      → (b : Block) × (block_to_init sha256 sign encode_vote c db ld top m now txs ≡ some (some b))
        × (b.prev_block_id ≡ block_id top)
        × (fits top m b ≡ true)
  unfolding block_to_init
  block_to_init-fits c db ld top m now txs e h p =
      elim (Bool-cases
        (has_less_term_height_than (to_votie top) m && not (m.block.id == block_id top))) [
          | inl above ↦ (
            m.block,
            ground (
              arith,
              bytes_eq_iff m.block.prev_block_id (block_id top),
              bytes_eq_iff m.block.id (block_id top),
            ),
            ground (arith, bytes_eq_iff m.block.id (block_id top)),
            ground (arith, beq_refl m.block.id),
          )
          | inr not_above ↦
              let (b, made, prev) = new_block-made c db ld top now txs e h in
              (b, rw not_above made, prev, ground (arith, bytes_eq_iff m.block.id (block_id top)))
        ]

  is_supported-fits :
      (c : Cluster) (db : Db) (top : BlockPack) (m : Votie) (ld : Leader) (b : Block) (sig : List ℕ)
      → get_commit_top db ≡ some top
      → get_max_votie ld.votes ≡ some m
      → c.quorum_n ≤ length ld.votes
      → fits top m b ≡ true
      → is_supported c db (record (init_of_block sha256 sign encode_vote ld top m b) { sig = sig })
        ≡ some true
  unfolding is_supported is_init_supported_by_votes init_of_block
  is_supported-fits c db top m ld b sig e em q f = ground (arith, e, em, q, f)

  try_create_block-proposes :
      (c : Cluster) (db : Db) (ld : Leader) (top : BlockPack) (now : ℕ) (txs : List Transaction)
      (m : Votie) (b : Block) (sig : List ℕ)
      → ready_to_init_new_block c ld ≡ some true
      → db.term ≡ some ld.term
      → db.fresh ≡ none
      → get_commit_top db ≡ some top
      → get_max_votie ld.votes ≡ some m
      → block_to_init sha256 sign encode_vote c db ld top m now txs ≡ some (some b)
      → sign (init_msg_id sha256 (init_of_block sha256 sign encode_vote ld top m b)) ≡ some sig
      → let init = record (init_of_block sha256 sign encode_vote ld top m b) { sig = sig } in
        try_create_block sha256 sign encode_vote c db ld now txs
        ≡ some (record ld { initing = some init }, new_init init ∷ [])
  unfolding try_create_block try_create_block_impl sign_init
  try_create_block-proposes c db ld top now txs m b sig ready et ef ed em made given =
      ground (arith, ready, et, ef, ed, em, made, given)

  -- A leader that is in charge and has nothing to propose yet, and whose signer works, proposes a block
  -- whenever it tries: in its term, at the next height and above the top; and at every node with the same
  -- top the votes that come with the proposal are found to support it. This holds where the node's term is
  -- the leader's, no block is being agreed on, no node is joining, a quorum is at least one vote, and every
  -- vote is for a block below the top, for the top, or for one at the next height that names the top.
  pub try_create_block-is_supported :
      (c : Cluster) (db follower : Db) (ld : Leader) (top : BlockPack) (now : ℕ)
      (txs : List Transaction)
      → ((d : Digest) → (sig : List ℕ) × (sign d ≡ some sig))
      → ready_to_init_new_block c ld ≡ some true
      → 0 < c.quorum_n
      → db.term ≡ some ld.term
      → db.fresh ≡ none
      → get_commit_top db ≡ some top
      → get_commit_top follower ≡ some top
      → ld.new_node_host ≡ ""
      → All (λ (e : ℕ × Vote). Placed top e.1.votie) ld.votes
      → (init : InitMsg) × (try_create_block sha256 sign encode_vote c db ld now txs
          ≡ some (record ld { initing = some init }, new_init init ∷ []))
        × (init.term ≡ ld.term)
        × (init.height ≡ top.init.height + 1)
        × (init.block.prev_block_id ≡ block_id top)
        × (is_supported c follower init ≡ some true)
  unfolding ready_to_init_new_block is_in_charge init_of_block
  try_create_block-is_supported c db follower ld top now txs signs ready q et ef ed ew host placed =
      let (n, en, e₁) = >>=-eq-some (is_in_charge c ld) _ ready in
      let (l, el, e₂) = >>=-eq-some (leader_node_of_term c ld.term) _ en in
      let votes : c.quorum_n ≤ length ld.votes = ground (arith, e₁, e₂) in
      let (m, em, p) = max_votie-Placed top ld.votes (omega (arith, q, votes)) placed in
      let (b, made, prev, fit) = block_to_init-fits c db ld top m now txs ed host p in
      let (sig, given) =
        signs (init_msg_id sha256 (init_of_block sha256 sign encode_vote ld top m b)) in
      (
        record (init_of_block sha256 sign encode_vote ld top m b) { sig = sig },
        try_create_block-proposes c db ld top now txs m b sig ready et ef ed em made given,
        refl,
        refl,
        prev,
        is_supported-fits c follower top m ld b sig ew em votes fit,
      )
