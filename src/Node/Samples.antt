-- ===== src/Node/Samples.antt =====
-- The values that the tests of node/ share: a cluster of three nodes, all of which a quorum needs.
use ofgp_core.Base.{ℕ_eq, String_eq, bytes_Eq, ◌==◌, ℕ, refl, Bool, true, List, [], ◌∷◌}
use ofgp_core.Samples.{cluster, block}
use ofgp_core.Proto.Types.{Digest, BlockType, Block, PrepareMsg, CommitMsg}
use ofgp_core.Proto.Blocks.{}
use ofgp_core.Cluster.Defs.{NodeInfo, Cluster}
use ofgp_core.Cluster.Invariant.{IsValid}

-- A digest of the right length, which the hash of this example always gives.
abbrev pub a_digest : Digest
a_digest =
    0 ∷ 1 ∷ 2 ∷ 3 ∷ 4 ∷ 5 ∷ 6 ∷ 7 ∷ 8 ∷ 9 ∷ 10 ∷ 11 ∷ 12 ∷ 13 ∷ 14 ∷ 15 ∷ 16 ∷ 17 ∷ 18 ∷ 19 ∷ 20
    ∷ 21 ∷ 22 ∷ 23 ∷ 24 ∷ 25 ∷ 26 ∷ 27 ∷ 28 ∷ 29 ∷ 30 ∷ 31 ∷ []

abbrev pub one_hash : List ℕ → Digest
one_hash bytes = a_digest

-- A signature of one byte, the node's key.
abbrev pub verify_key : List ℕ → Digest → List ℕ → Bool
verify_key key digest sig = key == sig

abbrev pub node : ℕ → NodeInfo
node i = record { id = i; name = []; url = ""; public_key = i ∷ []; is_normal = true }

abbrev pub nodes : Cluster
nodes = record cluster { quorum_n = 3; node_list = node 0 ∷ node 1 ∷ node 2 ∷ [] }

pub nodes-IsValid : IsValid nodes
nodes-IsValid = record {
  counted = refl;
  total = refl;
  numbered = (refl, (refl, (refl, tt)));
  faulty = refl;
  quorum = refl;
  accuse_quorum = refl;
}

abbrev pub a_block : Block
a_block = block BlockType.txs a_digest a_digest

abbrev pub commit_of : ℕ → ℕ → CommitMsg
commit_of term n = record {
  term = term;
  height = 1;
  block_id = a_digest;
  node_id = n;
  sig = n ∷ [];
}

abbrev pub prepare_of : ℕ → ℕ → PrepareMsg
prepare_of term n = record {
  term = term;
  height = 1;
  block_id = a_digest;
  node_id = n;
  sig = n ∷ [];
}
