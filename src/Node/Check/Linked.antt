-- ===== src/Node/Check/Linked.antt =====
-- node/msg_validation.go: the blocks of a sync response that `checkSyncUpResponse` accepts.
use ofgp_core.Base.{
  ℕ_eq, >>=-eq-some, ℕ, ◌≡◌, subst, Bool, true, Option, some, List, [], ◌∷◌, refl, sym, ap, ◌∙◌,
}
use ofgp_core.Proto.Types.{Digest, Block, InitMsg, BlockPack, BlockType, unknown, genesis, bch}
use ofgp_core.Proto.Feed.{feed_block_body, feed_block_fields, update_block_id}
use ofgp_core.Cluster.Defs.{Cluster}
use ofgp_core.Node.Check.Result.{>>=-eq-accepted, must-accepted, accepted}
use ofgp_core.Node.Check.Basic.{check_block_fields, check_block, check_node_id}
use ofgp_core.Node.Check.Votes.{CheckMode, init_signature}
use ofgp_core.Node.Check.Packs.{follows, pack_matches, mode_before}

module _ (sha256 : List ℕ → Digest) (verify : List ℕ → Digest → List ℕ → Bool) where
  -- The identifier of the block is the hash of its fields.
  abbrev pub HasOwnId : Block → Type 0
  HasOwnId block = update_block_id sha256 block ≡ some block

  feed_block_body_any_id :
      (t : BlockType) (b : Block) (id : Digest)
      → feed_block_body sha256 t (record b { id = id }) ≡ feed_block_body sha256 t b
  unfolding feed_block_body
  feed_block_body_any_id unknown b id = refl
  feed_block_body_any_id genesis b id = refl
  feed_block_body_any_id BlockType.txs b id = refl
  feed_block_body_any_id bch b id = refl
  feed_block_body_any_id BlockType.reconfig b id = refl

  update_block_id_again :
      (b : Block) (id : Digest)
      → update_block_id sha256 (record b { id = id }) ≡ update_block_id sha256 b
  unfolding update_block_id feed_block_fields
  update_block_id_again b id = rw (feed_block_body_any_id b.type b id)

  update_block_id-HasOwnId : (b b' : Block) → update_block_id sha256 b ≡ some b' → HasOwnId b'
  unfolding update_block_id
  update_block_id-HasOwnId b b' e =
      let (feed, ef, same) = >>=-eq-some (feed_block_fields sha256 "Block" b) _ e in
      let this = set_id feed same in
      subst HasOwnId this (update_block_id_again b (sha256 feed) ∙ e ∙ ap some (sym this))
    where
      set_id :
          (feed : List ℕ)
          → some (record b { id = sha256 feed }) ≡ some b'
          → record b { id = sha256 feed } ≡ b'
      set_id feed same = cc same

  pub check_block-HasOwnId :
      (b b' : Block) → check_block sha256 verify b ≡ accepted b' → HasOwnId b'
  unfolding check_block
  check_block-HasOwnId b b' e =
      let (u, eu, e') = >>=-eq-accepted (check_block_fields b.type b) _ e in
      update_block_id-HasOwnId b b' (must-accepted (update_block_id sha256 b) e')

  -- What `checkInit` has seen of an init message.
  pub record IsCheckedInit (c : Cluster) (mode : CheckMode) (msg : InitMsg) : Type 0 where
    pub own_id : HasOwnId msg.block
    pub known : check_node_id c msg.node_id ≡ true
    pub signature : init_signature sha256 verify c mode msg ≡ true

  -- What `checkInitedBlockPack` has seen of a block pack: in the full mode also that each prepare and
  -- commit is a signed one for the block.
  pub record IsCheckedPack (c : Cluster) (mode : CheckMode) (bp : BlockPack) : Type 0 where
    pub init : IsCheckedInit c mode bp.init
    pub matches : pack_matches sha256 verify c mode bp ≡ true

  -- Each block follows the one before it and has its own identifier, and the last is checked in full.
  abbrev pub IsChain : Cluster → Option BlockPack → List BlockPack → Type 0
  IsChain c prev [] = Unit
  IsChain c prev (bp ∷ rest) =
      (follows prev bp ≡ true) × IsCheckedPack c (mode_before rest) bp × IsChain c (some bp) rest
