-- ===== src/Node/Sync/Vouched.antt =====
-- node/sync_daemon.go: what a synchronised block comes with, and what a join of a known node does.
use ofgp_core.Proto.MsgIds.{init_msg_id}
use ofgp_core.Base.{
  ℕ_eq, bytes_Eq, ltb, nat_eq, Bool-cases, Option-cases, bytes_eq, Map, lookup, ℕ, ◌+◌, ◌≤◌, ◌<◌,
  ◌≡◌, subst, inl, inr, Bool, true, false, not, some, List, arith,
}
use ofgp_core.Proto.Types.{Digest, Block, Vote, InitMsg, BlockPack}
use ofgp_core.Proto.Blocks.{block_id}
use ofgp_core.Proto.Feed.{update_block_id}
use ofgp_core.Cluster.Defs.{Cluster}
use ofgp_core.Db.Defs.{Db, next_height, is_committed, get_commit_by_id}
use ofgp_core.Db.Chain.{IsLinked, get_commit_by_height-IsLinked}
use ofgp_core.Node.Check.Result.{must, >>=-eq-accepted, require-accepted, must-accepted, accepted}
use ofgp_core.Node.Check.Basic.{check_node_id, verify_node, check_block, check_commits}
use ofgp_core.Node.Check.Votes.{check_votes, check_init_msg, init_signature, check_full}
use ofgp_core.Node.Check.Linked.{HasOwnId, check_block-HasOwnId}
use ofgp_core.Node.Sync.Check.{check_block_pack}

module _ (sha256 : List ℕ → Digest) (verify : List ℕ → Digest → List ℕ → Bool)
    (committed_cnt : Digest → ℕ) where
  -- What `checkInitMsg` has seen of an init message.
  record IsCheckedMsg (c : Cluster) (msg : InitMsg) : Type 0 where
    own_id : HasOwnId sha256 verify msg.block
    signature : verify_node verify c msg.node_id (init_msg_id sha256 msg) msg.sig ≡ true

  check_init_msg-IsCheckedMsg :
      (c : Cluster) (msg msg' : InitMsg)
      → check_init_msg sha256 verify c msg ≡ accepted msg'
      → IsCheckedMsg c msg'
  unfolding check_init_msg
  check_init_msg-IsCheckedMsg c msg msg' e =
      let (b, eb, e1) = >>=-eq-accepted (check_block sha256 verify msg.block) _ e in
      let (n, e2) = require-accepted (check_node_id c msg.node_id) _ e1 in
      let (votes, ev, e3) = >>=-eq-accepted (check_votes sha256 verify c msg.term msg.votes) _ e2 in
      let (s, e4) =
        require-accepted
          (init_signature sha256 verify c check_full (record msg { block = b; votes = votes })) _
          e3 in
      subst (IsCheckedMsg c) (checked b votes e4)
        (record { own_id = check_block-HasOwnId sha256 verify msg.block b eb; signature = s })
    where
      checked :
          (b : Block) (votes : Map ℕ Vote)
          → accepted (record msg { block = b; votes = votes }) ≡ accepted msg'
          → record msg { block = b; votes = votes } ≡ msg'
      checked b votes e = cc e

  -- What speaks for a block of a sync response at a database.
  pub record IsVouched (c : Cluster) (db : Db) (accuse_quorum_n : ℕ) (bp : BlockPack) : Type 0 where
    pub own_id : HasOwnId sha256 verify bp.init.block
    pub from_leader :
        verify_node verify c bp.init.node_id (init_msg_id sha256 bp.init) bp.init.sig ≡ true
    pub commits :
        check_commits sha256 verify c bp.init.term bp.init.height (block_id bp) bp.commits ≡ true
    pub new : is_committed db (block_id bp) ≡ false
    pub at_most_next : bp.init.height ≤ next_height db
    pub peers : accuse_quorum_n ≤ committed_cnt (block_id bp)

  -- A block that is found in a linked chain is below the next height.
  found_below :
      (db : Db) (id : Digest) (b : BlockPack)
      → IsLinked db
      → get_commit_by_id db id ≡ some b
      → b.init.height < next_height db
  unfolding get_commit_by_id
  found_below db id b v e = elim (Option-cases (lookup id db.commit_hs_by_ids)) [
    | inl n ↦ ground (arith, n, e)
    | inr (h, found) ↦ elim (Bool-cases (ltb h (next_height db))) [
      | inl lt ↦
          let (a, at, height) = (get_commit_by_height-IsLinked db h v).0 (ground (arith, lt)) in
          ground (arith, found, e, at, height, lt)
      | inr ge ↦
          ground (arith, found, e, (get_commit_by_height-IsLinked db h v).1 (ground (arith, ge)))
    ]
  ]

  -- A block of a sync response that `checkBlockPack` accepts on a linked chain has the hash of its fields as
  -- its identifier, is from a known node under its signature, comes with at least one commit and only
  -- with signed ones for it, is not committed yet, leaves no gap above the top, and is committed by as many
  -- peers as an accuse needs.
  pub check_block_pack-IsVouched :
      (c : Cluster) (db : Db) (accuse_quorum_n : ℕ) (bp bp' : BlockPack)
      → IsLinked db
      → check_block_pack sha256 verify committed_cnt c db accuse_quorum_n bp ≡ accepted bp'
      → IsVouched c db accuse_quorum_n bp'
  unfolding check_block_pack
  check_block_pack-IsVouched c db accuse_quorum_n bp bp' v e =
      let (init, ei, e1) = >>=-eq-accepted (check_init_msg sha256 verify c bp.init) _ e in
      let (block, eb, e2) = >>=-eq-accepted (must (update_block_id sha256 init.block)) _ e1 in
      let (same, e3) = require-accepted (bytes_eq init.block.id block.id) _ e2 in
      let (commits, e4) =
        require-accepted
          (check_commits sha256 verify c init.term init.height init.block.id bp.commits) _ e3 in
      let (pre, e5) = require-accepted (is_committed db init.block.prev_block_id) _ e4 in
      let (not_yet, e6) = require-accepted (not (is_committed db init.block.id)) _ e5 in
      let (below, eq, e7) =
        >>=-eq-accepted (must (get_commit_by_id db init.block.prev_block_id)) _ e6 in
      let (height, e8) = require-accepted (nat_eq init.height (below.init.height + 1)) _ e7 in
      let (peers, e9) =
        require-accepted (not (ltb (committed_cnt init.block.id) accuse_quorum_n)) _ e8 in
      let msg = check_init_msg-IsCheckedMsg c bp.init init ei in
      let top =
        found_below db init.block.prev_block_id below v
          (must-accepted (get_commit_by_id db init.block.prev_block_id) eq) in
      subst (IsVouched c db accuse_quorum_n) (whole init e9) (record {
        own_id = msg.own_id;
        from_leader = msg.signature;
        commits = commits;
        new = ground (arith, not_yet);
        at_most_next = ground (arith, height, top);
        peers = ground (arith, peers);
      })
    where
      whole :
          (init : InitMsg)
          → accepted (record bp { init = init }) ≡ accepted bp'
          → record bp { init = init } ≡ bp'
      whole init e = cc e
