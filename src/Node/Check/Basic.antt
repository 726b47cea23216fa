-- ===== src/Node/Check/Basic.antt =====
-- node/msg_validation.go: the checks of blocks, prepares, commits and accuses. Terms and heights are
-- natural numbers here, so that `checkTerm` and `checkHeight` hold; a message or a block that is nil is
-- not a value of its type. `verify` stands for btcec's check of a signature in crypto/verify.go.
use ofgp_core.Base.{
  ℕ_eq, ltb, nat_eq, bytes_eq, length, get_elem?, Map, is_some, codes, ℕ, String, Bool, true, false,
  not, ◌&&◌, none, some, List, [], ◌∷◌,
}
use ofgp_core.Proto.Types.{
  Digest, BchBlockHeader, BlockType, Block, PrepareMsg, CommitMsg, WeakAccuse, StrongAccuse,
  unknown, genesis, bch,
}
use ofgp_core.Proto.Feed.{prepare_msg_id, commit_msg_id, weak_accuse_id, update_block_id}
use ofgp_core.Cluster.Defs.{Cluster}
use ofgp_core.Node.Check.Result.{◌>>=◌, ◌>>◌, Check, require, must, rejected}

unfoldable pub check_node_id : Cluster → ℕ → Bool
check_node_id c id = ltb id (length c.node_list)

unfoldable pub check_digest : Digest → Bool
check_digest d = nat_eq (length d) 32

-- The length of the text is that of its codes, which are its bytes where it is an address.
unfoldable pub check_host : String → Bool
check_host host = ltb (length (codes host)) 22

unfoldable pub check_bch_block_header : BchBlockHeader → Bool
unfolding check_digest
check_bch_block_header header = check_digest header.block_id && check_digest header.prev_id

-- `primitives.GenesisBlockPack` has this time.
abbrev pub genesis_time : ℕ
genesis_time = 1534766888

abbrev no_digest : Digest → Bool
no_digest [] = true
no_digest (x ∷ d) = false

-- The nil pointer of a BCH block without a header is reached only behind a digest of the right length.
unfoldable pub check_block_fields : BlockType → Block → Check (Unit {0})
unfolding check_digest
check_block_fields unknown block = rejected
check_block_fields genesis block = require (
    nat_eq block.timestamp_ms genesis_time
    && no_digest block.prev_block_id
    && nat_eq (length block.txs) 0
    && not (is_some block.reconfig))
check_block_fields BlockType.txs block =
    require (check_digest block.prev_block_id && not (is_some block.bch_block_header))
check_block_fields BlockType.reconfig block =
    require (check_digest block.prev_block_id && not (is_some block.bch_block_header))
check_block_fields bch block = do
  require (check_digest block.prev_block_id)
  header ← must block.bch_block_header
  require (check_bch_block_header header && not (is_some block.reconfig))

-- `crypto.Verify` with the public key of the node at the index.
unfoldable pub verify_node :
    (List ℕ → Digest → List ℕ → Bool) → Cluster → ℕ → Digest → List ℕ → Bool
verify_node verify c id digest sig = elim (get_elem? c.node_list id) [
  | none ↦ false
  | some node ↦ verify node.public_key digest sig
]

module _ (sha256 : List ℕ → Digest) (verify : List ℕ → Digest → List ℕ → Bool) where
  unfoldable pub check_block : Block → Check Block
  unfolding check_block_fields
  check_block block = do check_block_fields block.type block; must (update_block_id sha256 block)

  unfoldable pub check_prepare : Cluster → PrepareMsg → Bool
  unfolding check_digest check_node_id verify_node
  check_prepare c msg =
      check_digest msg.block_id
      && check_node_id c msg.node_id
      && verify_node verify c msg.node_id (prepare_msg_id sha256 msg) msg.sig

  unfoldable pub check_commit : Cluster → CommitMsg → Bool
  unfolding check_digest check_node_id verify_node
  check_commit c msg =
      check_digest msg.block_id
      && check_node_id c msg.node_id
      && verify_node verify c msg.node_id (commit_msg_id sha256 msg) msg.sig

  unfoldable pub check_weak_accuse : Cluster → WeakAccuse → Bool
  unfolding check_node_id verify_node
  check_weak_accuse c msg =
      check_node_id c msg.node_id
      && verify_node verify c msg.node_id (weak_accuse_id sha256 msg) msg.sig

  -- The loops over the prepares and the commits of a vote, of a block pack and of `checkPrepares` and
  -- `checkCommits`: each is from the node it stands under and for the block.
  unfoldable pub prepares_match : Cluster → ℕ → ℕ → Digest → Map ℕ PrepareMsg → Bool
  unfolding check_prepare
  prepares_match c term height id [] = true
  prepares_match c term height id ((node_id, prepare) ∷ prepares) =
      check_prepare c prepare
      && nat_eq node_id prepare.node_id
      && nat_eq prepare.term term
      && nat_eq prepare.height height
      && bytes_eq id prepare.block_id
      && prepares_match c term height id prepares

  unfoldable pub commits_match : Cluster → ℕ → ℕ → Digest → Map ℕ CommitMsg → Bool
  unfolding check_commit
  commits_match c term height id [] = true
  commits_match c term height id ((node_id, commit) ∷ commits) =
      check_commit c commit
      && nat_eq node_id commit.node_id
      && nat_eq commit.term term
      && nat_eq commit.height height
      && bytes_eq id commit.block_id
      && commits_match c term height id commits

  unfoldable pub check_prepares : Cluster → ℕ → ℕ → Digest → Map ℕ PrepareMsg → Bool
  unfolding prepares_match
  check_prepares c term height id prepares =
      not (nat_eq (length prepares) 0) && prepares_match c term height id prepares

  unfoldable pub check_commits : Cluster → ℕ → ℕ → Digest → Map ℕ CommitMsg → Bool
  unfolding commits_match
  check_commits c term height id commits =
      not (nat_eq (length commits) 0) && commits_match c term height id commits

  unfoldable pub accuses_match : Cluster → Map ℕ WeakAccuse → Bool
  unfolding check_weak_accuse
  accuses_match c [] = true
  accuses_match c ((node_id, wa) ∷ was) =
      check_weak_accuse c wa && nat_eq node_id wa.node_id && accuses_match c was

  unfoldable pub check_strong_accuse : Cluster → StrongAccuse → Bool
  unfolding accuses_match
  check_strong_accuse c msg =
      not (ltb (length msg.weak_accuses) c.accuse_quorum_n) && accuses_match c msg.weak_accuses
