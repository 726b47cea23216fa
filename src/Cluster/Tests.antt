-- ===== src/Cluster/Tests.antt =====
-- The functions of cluster/params.go at concrete inputs, and the theorems at inputs that meet
-- their hypotheses.
use ofgp_core.Base.{
  ltb, nat_eq, get_elem?, codes, format_int, ℕ, ◌<◌, String, ◌≡◌, refl, Bool, true, false, none,
  some, [], ◌∷◌, arith, ◌+◌,
}
use ofgp_core.Cluster.Defs.{
  Cluster, NodeInfo, MultiSigInfo, update_quorums, server_name, delete_node, recover_node,
}
use ofgp_core.Cluster.Quorum.{quorums_meet}
use ofgp_core.Cluster.Leader.{leader_node_of_term, FirstNormal, leader_node_of_term-first}
use ofgp_core.Cluster.Invariant.{IsValid, normal_count}
use ofgp_core.Cluster.Restored.{Restores, recover_node-delete_node}

abbrev node : ℕ → Bool → NodeInfo
node i b = record { id = i; name = server_name i; url = ""; public_key = []; is_normal = b }

abbrev no_address : MultiSigInfo
no_address = record {
  btc_address = "";
  btc_redeem_script = [];
  bch_address = "";
  bch_redeem_script = [];
}

abbrev unset : Cluster
unset = record {
  cluster_size = 0;
  total_node_count = 0;
  quorum_n = 0;
  accuse_quorum_n = 0;
  max_faulty_n = 0;
  node_list = [];
  cluster_snapshot = none;
  node_signers = [];
  multi_sig_snapshot = [];
  curr_multi_sig = no_address;
  init_node_height = 0;
}

-- Four nodes, of which the second has left.
abbrev three_of_four : Cluster
three_of_four = record unset {
  cluster_size = 3;
  total_node_count = 4;
  quorum_n = 3;
  accuse_quorum_n = 1;
  node_list = node 0 true ∷ node 1 false ∷ node 2 true ∷ node 3 true ∷ [];
}

three_of_four-IsValid : IsValid three_of_four
three_of_four-IsValid = omega arith

abbrev key : String
key = "04a2"

server_name_twelve : server_name 12 ≡ codes "server12"
unfolding server_name format_int
server_name_twelve = refl

-- A term of the node that has left goes to the next one.
leader_of_one : leader_node_of_term three_of_four 5 ≡ some 2
unfolding leader_node_of_term
leader_of_one = refl

-- The test of the repository expects the quorum 2 at three nodes; the code has 3.
quorum_of_three : (update_quorums (record unset { cluster_size = 3 })).quorum_n ≡ 3
unfolding update_quorums
quorum_of_three = refl

leader_node_of_term-first_example :
    (r : ℕ) × (j : ℕ) × (leader_node_of_term three_of_four 5 ≡ some r)
    × (r < 4)
    × FirstNormal three_of_four 1 j r
leader_node_of_term-first_example =
    leader_node_of_term-first three_of_four 5 2 refl (omega arith) refl

quorums_meet_example :
    (i : ℕ) × (a : ℕ) × (get_elem? (0 ∷ 1 ∷ 2 ∷ 3 ∷ []) i ≡ some a)
    × (ltb a 3 ≡ true)
    × (ltb 0 a ≡ true)
    × (nat_eq a 1 ≡ false)
unfolding update_quorums
quorums_meet_example =
    quorums_meet (record unset { cluster_size = 4 }) (0 ∷ 1 ∷ 2 ∷ 3 ∷ []) (λ a. ltb a 3)
      (λ a. ltb 0 a) (λ a. nat_eq a 1) (omega arith) refl (omega arith) (omega arith) (omega arith)

recover_node-delete_node_example :
    (b : Cluster) × (d : Cluster) × (delete_node three_of_four 2 ≡ some b)
    × (normal_count b.node_list + 1 ≡ 3)
    × (b.cluster_size + 1 ≡ 3)
    × (recover_node b 2 ≡ some d)
    × Restores three_of_four d
recover_node-delete_node_example =
    recover_node-delete_node three_of_four 2 (node 2 true) (omega arith) (omega arith) refl refl
