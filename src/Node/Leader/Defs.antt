-- ===== src/Node/Leader/Defs.antt =====
-- node/leader.go: the votes of a leader. The database of the block store is read at the time of a step;
-- `none` is a panic. Go meets the votes of the pool in any order, here in that of the list.
use ofgp_core.Base.{
  ℕ_eq, bytes_Eq, ◌>>=◌, ◌>>◌, ltb, leb, nat_eq, if◌then◌else◌, ◌==◌, length, Map, is_some, or_nil,
  lookup, insert, assert_true, ℕ, ◌+◌, String, Bool, not, ◌&&◌, ◌||◌, Option, none, some, List, [],
  ◌∷◌, ◌++◌,
}
use ofgp_core.Proto.Types.{Vote, InitMsg, BlockPack}
use ofgp_core.Proto.Blocks.{block_id, to_votie, has_less_term_height_than}
use ofgp_core.Cluster.Defs.{Cluster}
use ofgp_core.Cluster.Leader.{leader_node_of_term}
use ofgp_core.Db.Defs.{Db, get_node_term, get_commit_top}

pub record Leader : Type 0 where
  pub node_id : ℕ
  pub term : ℕ
  pub votes : Map ℕ Vote
  pub initing : Option InitMsg
  pub vote_pool : Map ℕ (Map ℕ Vote)
  pub new_node_host : String
  pub leaving_node_id : Option ℕ

pub data LeaderEvent : Type 0 where
  become_leader : ℕ → LeaderEvent
  retire : ℕ → LeaderEvent
  new_init : InitMsg → LeaderEvent
  heartbeat : ℕ → Map ℕ Vote → LeaderEvent

abbrev pub vote_pool_term_range : ℕ
vote_pool_term_range = 500

unfoldable pub new_leader : ℕ → Db → Option Leader
new_leader node_id db = do
  term ← get_node_term db
  some (record {
    node_id = node_id;
    term = term;
    votes = [];
    initing = none;
    vote_pool = [];
    new_node_host = "";
    leaving_node_id = none;
  })

unfoldable pub is_in_charge : Cluster → Leader → Option Bool
is_in_charge c ld = do
  leader ← leader_node_of_term c ld.term
  some (nat_eq leader ld.node_id && leb c.quorum_n (length ld.votes))

unfoldable pub ready_to_init_new_block : Cluster → Leader → Option Bool
unfolding is_in_charge
ready_to_init_new_block c ld = do
  in_charge ← is_in_charge c ld
  some (in_charge && not (is_some ld.initing))

-- `doHeatbeat` broadcasts the votes of the term.
abbrev pub do_heatbeat : Leader → LeaderEvent
do_heatbeat ld = heartbeat ld.term ld.votes

-- The votes for terms that are over leave the pool.
unfoldable pub drop_old : ℕ → Map ℕ (Map ℕ Vote) → Map ℕ (Map ℕ Vote)
drop_old term [] = []
drop_old term ((t, votes) ∷ pool) =
    let rest = drop_old term pool in if ltb t term then rest else (t, votes) ∷ rest

-- A vote counts if its block is below the top, the top, or one that follows the top.
unfoldable pub is_usable : BlockPack → Vote → Bool
is_usable top vote =
    has_less_term_height_than vote.votie (to_votie top)
    || vote.votie.block.id == block_id top
    || vote.votie.block.prev_block_id == block_id top

-- The loop over the pool of the term: a node that has voted is passed over.
unfoldable pub gather_votes : BlockPack → Map ℕ Vote → Map ℕ Vote → Map ℕ Vote
unfolding is_usable
gather_votes top [] votes = votes
gather_votes top ((node_id, vote) ∷ pool) votes = gather_votes top pool (
    if is_some (lookup node_id votes)
    then votes
    else if is_usable top vote
    then insert node_id vote votes
    else votes)

-- The end of `scanVotePool`.
unfoldable pub after_gather : Cluster → Leader → Option (Leader × List LeaderEvent)
unfolding is_in_charge
after_gather c ld = do
  in_charge ← is_in_charge c ld
  if in_charge
      then (do
        assert_true (not (is_some ld.initing))
        some (ld, become_leader ld.term ∷ do_heatbeat ld ∷ []))
      else some (ld, [])

unfoldable pub scan_vote_pool : Cluster → Db → Leader → Option (Leader × List LeaderEvent)
unfolding drop_old gather_votes after_gather
scan_vote_pool c db ld =
    let cleaned = record ld { vote_pool = drop_old ld.term ld.vote_pool } in
    do
      in_charge ← is_in_charge c cleaned
      if in_charge then some (cleaned, []) else (do
        top ← get_commit_top db
        let pool = or_nil (lookup ld.term cleaned.vote_pool)
        after_gather c (record cleaned { votes = gather_votes top pool cleaned.votes }))

unfoldable pub update_term : Cluster → Db → Leader → ℕ → Option (Leader × List LeaderEvent)
unfolding scan_vote_pool
update_term c db ld new_term = if leb new_term ld.term then some (ld, []) else do
  was_in_charge ← is_in_charge c ld
  (ld', events) ← scan_vote_pool c db (record ld { term = new_term; votes = []; initing = none })
  in_charge ← is_in_charge c ld'
  some (ld', (if was_in_charge && not in_charge then events ++ retire new_term ∷ [] else events))

-- `votePool[term][nodeId] = vote`.
unfoldable pub pool_vote : Vote → Map ℕ (Map ℕ Vote) → Map ℕ (Map ℕ Vote)
pool_vote vote pool =
    insert vote.term (insert vote.node_id vote (or_nil (lookup vote.term pool))) pool

unfoldable pub add_vote : Cluster → Db → Leader → Vote → Option (Leader × List LeaderEvent)
unfolding scan_vote_pool pool_vote
add_vote c db ld vote =
    if leb ld.term vote.term && leb vote.term (ld.term + vote_pool_term_range)
    then scan_vote_pool c db (record ld { vote_pool = pool_vote vote ld.vote_pool })
    else some (ld, [])

-- The vote of a node that has joined is moved to the present term, and counts where it is usable.
unfoldable pub just_add_vote : Db → Leader → Vote → Option Leader
unfolding pool_vote is_usable
just_add_vote db ld vote =
    let moved = record vote { term = ld.term } in
    let pooled = record ld { vote_pool = pool_vote moved ld.vote_pool } in
    if is_some (lookup vote.node_id ld.votes) then some pooled else do
      top ← get_commit_top db
      some (
          if is_usable top moved
          then record pooled { votes = insert vote.node_id moved ld.votes }
          else pooled)
