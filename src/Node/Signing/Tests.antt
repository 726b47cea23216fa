-- ===== src/Node/Signing/Tests.antt =====
-- The theorems about node/node_sign.go at concrete inputs.
use ofgp_core.Node.Samples.{nodes}
use ofgp_core.Db.Defs.{get_sign_msg, is_sign_failed, marked}
use ofgp_core.Node.Signing.Defs.{SignedResultCache, Signing}
use ofgp_core.Node.Signing.Save.{
  ChainWatchers, gather_sigs, send_tx_to_chain, count_result, sign_quorums, decide, save_result,
  do_save, save_all, sent, broadcast, signed_tx,
}
use ofgp_core.Node.Signing.Counts.{Collected}
use ofgp_core.Node.Signing.Quorum.{do_save-Collected}
use ofgp_core.Node.Signing.Once.{do_save_once}
use ofgp_core.Base.{
  ℕ_eq, String_eq, bytes_Eq, lookup, ℕ, ◌≡◌, refl, true, false, [], ◌∷◌, arith, insert, none, List,
}
use ofgp_core.Samples.{db, watched, pool}
use ofgp_core.Proto.Types.{SignTxRequest, CodeType, SignedResult}
use ofgp_core.Proto.Blocks.{is_transfer_tx}
use ofgp_core.Proto.Feed.{}

-- A transaction to sign, with the results of two of the nodes.
abbrev request : SignTxRequest
request = record {
  term = 0;
  node_id = 0;
  multisig_address = "";
  watched_tx = watched "w";
  newly_tx = record { payload = 9 ∷ []; amount = 5; timestamp = 0 };
  sig = [];
  time = 0;
}

abbrev result_of : ℕ → SignedResult
result_of n = record {
  code = CodeType.signed;
  node_id = n;
  tx_id = "w";
  to = "btc";
  term = 0;
  signatures = (n ∷ []) ∷ [];
  sig = [];
}

abbrev two_results : SignedResultCache
two_results = record {
  cache = (2, result_of 2) ∷ (0, result_of 0) ∷ [];
  total_count = 2;
  signed_count = 2;
  err_cnt = 0;
  done_time = 0;
  init_time = 0;
  done_flag = false;
}

abbrev signing : Signing
signing = record {
  db = record db { sign_msgs = ("w", request) ∷ [] };
  caches = ("w", two_results) ∷ [];
  waiting_confirm_txs = [];
  proposals = record { db = []; ts = pool };
}

abbrev chain_watchers : ChainWatchers
chain_watchers = record {
  verify_sign = λ chain tx sigs node_id. true;
  send = λ chain tx sigs. sent;
  get_cluster_snapshot = λ address. none;
}

-- The third result sends the transaction, with the signatures in the order of the nodes.
sends :
    (do_save chain_watchers nodes 7 signing (result_of 1)).1
    ≡ broadcast "btc" (9 ∷ []) (((0 ∷ []) ∷ []) ∷ ((1 ∷ []) ∷ []) ∷ ((2 ∷ []) ∷ []) ∷ [])
      ∷ signed_tx "w" "btc"
      ∷ []
unfolding do_save save_result count_result sign_quorums decide send_tx_to_chain gather_sigs
    is_sign_failed marked get_sign_msg is_transfer_tx lookup insert
sends = refl

do_save-Collected_example :
    Collected chain_watchers nodes signing.db "w"
      (do_save chain_watchers nodes 7 signing (result_of 1))
unfolding lookup
do_save-Collected_example =
    do_save-Collected chain_watchers nodes 7 signing (result_of 1)
      (
        record {
          known = (omega arith, (omega arith, tt));
          distinct = (refl, (refl, tt));
          counted = refl;
        },
        tt,
      )
      (omega arith)

-- The two results that come after the sending, one of them again.
abbrev later : List (ℕ × SignedResult)
later = (8, result_of 2) ∷ (9, result_of 1) ∷ (9, result_of 2) ∷ []

do_save_once_example :
    (save_all chain_watchers nodes "w"
      (do_save chain_watchers nodes 7 signing (result_of 1)).0
      later).1
    ≡ []
unfolding do_save save_result count_result sign_quorums decide send_tx_to_chain gather_sigs
    is_sign_failed marked get_sign_msg is_transfer_tx lookup insert
do_save_once_example =
    do_save_once chain_watchers nodes 7 signing (result_of 1) later "btc" (9 ∷ [])
      (((0 ∷ []) ∷ []) ∷ ((1 ∷ []) ∷ []) ∷ ((2 ∷ []) ∷ []) ∷ []) (signed_tx "w" "btc" ∷ []) sends
      (refl, (refl, (refl, tt)))
