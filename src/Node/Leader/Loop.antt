-- ===== src/Node/Leader/Loop.antt =====
-- node/leader.go: the loop `Run` as a step for each message of its channels, and what other goroutines
-- call.
use ofgp_core.Base.{
  ℕ_eq, bytes_Eq, ◌>>=◌, if◌then◌else◌, ◌==◌, ℕ, String, Bool, true, false, Option, none, some,
  List, [], ◌∷◌, ◌++◌,
}
use ofgp_core.Proto.Types.{Digest, Transaction, Vote, BlockPack}
use ofgp_core.Proto.Blocks.{block_id, init_block_id}
use ofgp_core.Cluster.Defs.{Cluster}
use ofgp_core.Db.Defs.{Db}
use ofgp_core.Node.Leader.Defs.{
  Leader, LeaderEvent, is_in_charge, ready_to_init_new_block, do_heatbeat, scan_vote_pool,
  update_term, add_vote,
}
use ofgp_core.Node.Leader.Propose.{try_create_block}

-- `tick` has the time and the transactions of the pool at it.
pub data LeaderInput : Type 0 where
  tick : ℕ → List Transaction → LeaderInput
  term_changed : ℕ → LeaderInput
  new_committed : BlockPack → LeaderInput
  new_vote : Vote → LeaderInput
  node_host : String → LeaderInput
  leave_node : Option ℕ → LeaderInput

abbrev pub no_txs : List Transaction → Bool
no_txs [] = true
no_txs (tx ∷ txs) = false

-- A block committed while the leader is in charge ends the proposal of it.
unfoldable pub finish_init : Leader → BlockPack → Leader
finish_init ld bp = elim ld.initing [
  | none ↦ ld
  | some init ↦ if block_id bp == init_block_id init then record ld { initing = none } else ld
]

module _ (sha256 : List ℕ → Digest) (sign : Digest → Option (List ℕ))
    (encode_vote : Option Vote → List ℕ) where
  unfoldable pub on_tick :
      Cluster → Db → Leader → ℕ → List Transaction → Option (Leader × List LeaderEvent)
  on_tick c db ld now txs = do
    ready ← ready_to_init_new_block c ld
    if ready
        then (do
          (ld', events) ←
              if no_txs txs
              then some (ld, [])
              else try_create_block sha256 sign encode_vote c db ld now txs
          some (ld', events ++ do_heatbeat ld' ∷ []))
        else some (ld, [])

  unfoldable pub leader_step :
      Cluster → Db → Leader → LeaderInput → Option (Leader × List LeaderEvent)
  unfolding on_tick finish_init
  leader_step c db ld (tick now txs) = on_tick c db ld now txs
  leader_step c db ld (term_changed term) = update_term c db ld term
  leader_step c db ld (new_committed bp) = do
    in_charge ← is_in_charge c ld
    if in_charge then some (finish_init ld bp, []) else scan_vote_pool c db ld
  leader_step c db ld (new_vote vote) = add_vote c db ld vote
  leader_step c db ld (node_host host) = some (record ld { new_node_host = host }, [])
  leader_step c db ld (leave_node node_id) = some (record ld { leaving_node_id = node_id }, [])
