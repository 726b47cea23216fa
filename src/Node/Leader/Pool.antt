-- ===== src/Node/Leader/Pool.antt =====
-- node/leader.go: what the loop keeps of the votes, whatever messages come in.
use ofgp_core.Db.Defs.{Db, get_commit_top}
use ofgp_core.Cluster.Leader.{leader_node_of_term}
use ofgp_core.Base.{
  ℕ_eq, if◌then◌else◌, All, Map, lookup, insert, UniqueKeys, ℕ, ◌+◌, ◌≤◌, ◌≡◌, subst, inl, inr,
  Bool, true, false, Option, none, some, [], ◌∷◌, arith, ltb, Option-cases, length, is_some, or_nil,
  insert-UniqueKeys, ◌>>=◌, >>=-eq-some, refl, sym, ap, ◌∙◌, List, ◌>>◌, assert_true, Holds,
  Holds->>=, ◌⊎◌, not, insert-All, lookup-All,
}
use ofgp_core.Proto.Types.{Vote, InitMsg, BlockPack}
use ofgp_core.Cluster.Defs.{Cluster}
use ofgp_core.Node.Leader.Defs.{
  Leader, vote_pool_term_range, is_in_charge, LeaderEvent, drop_old, is_usable, gather_votes,
  after_gather, scan_vote_pool, become_leader, retire, new_init, heartbeat, do_heatbeat,
}

-- A vote for the term, under the number of the node that casts it.
abbrev pub VoteOf : ℕ → ℕ × Vote → Type 0
VoteOf term (node_id, vote) = (vote.term ≡ term) × (vote.node_id ≡ node_id)

-- The votes of a term that is not over, and not too far ahead.
abbrev pub PooledFor : ℕ → ℕ × Map ℕ Vote → Type 0
PooledFor now (term, votes) =
    (now ≤ term) × (term ≤ now + vote_pool_term_range) × All (VoteOf term) votes

abbrev pub InitingFor : Cluster → Leader → Option InitMsg → Type 0
InitingFor c ld none = Unit
InitingFor c ld (some init) = (init.term ≡ ld.term) × (is_in_charge c ld ≡ some true)

pub record IsVoting (c : Cluster) (ld : Leader) : Type 0 where
  pub cast : All (VoteOf ld.term) ld.votes
  pub distinct : UniqueKeys ld.votes
  pub pooled : All (PooledFor ld.term) ld.vote_pool
  pub initing : InitingFor c ld ld.initing

-- The node leads the term, and a quorum has voted for it.
abbrev pub InCharge : Cluster → Leader → Type 0
InCharge c ld = (leader_node_of_term c ld.term ≡ some ld.node_id) × (c.quorum_n ≤ length ld.votes)

pub is_in_charge-InCharge :
    (c : Cluster) (ld : Leader) → is_in_charge c ld ≡ some true → InCharge c ld
unfolding is_in_charge
is_in_charge-InCharge c ld e =
    let (n, en, e') = >>=-eq-some (leader_node_of_term c ld.term) _ e in
    (en ∙ ap some (ground (arith, e')), ground (arith, e'))

-- What an event of the leader says holds of the state it comes with.
abbrev pub ByLeader : Cluster → Leader → LeaderEvent → Type 0
ByLeader c ld (become_leader term) = (term ≡ ld.term) × InCharge c ld
ByLeader c ld (retire term) = term ≡ ld.term
ByLeader c ld (new_init init) = (ld.initing ≡ some init) × InCharge c ld
ByLeader c ld (heartbeat term votes) = (term ≡ ld.term) × (votes ≡ ld.votes)

-- A vote of the pool before the terms that are over have left it.
abbrev pub Within : ℕ → ℕ × Map ℕ Vote → Type 0
Within now (term, votes) = (term ≤ now + vote_pool_term_range) × All (VoteOf term) votes

drop_old-PooledFor :
    (now : ℕ) (pool : Map ℕ (Map ℕ Vote))
    → All (Within now) pool
    → All (PooledFor now) (drop_old now pool)
unfolding drop_old
drop_old-PooledFor now [] h = tt
drop_old-PooledFor now ((t, votes) ∷ pool) h =
    by_cases (ltb t now) refl (drop_old-PooledFor now pool h.1)
  where
    by_cases :
        (b : Bool)
        → ltb t now ≡ b
        → All (PooledFor now) (drop_old now pool)
        → All (PooledFor now) (if b then drop_old now pool else (t, votes) ∷ drop_old now pool)
    by_cases true e rest = rest
    by_cases false e rest = ((ground arith, h.0.0, h.0.1), rest)

gather_votes-cast :
    (term : ℕ) (top : BlockPack) (pool votes : Map ℕ Vote)
    → All (VoteOf term) pool
    → All (VoteOf term) votes × UniqueKeys votes
    → All (VoteOf term) (gather_votes top pool votes) × UniqueKeys (gather_votes top pool votes)
unfolding gather_votes
gather_votes-cast term top [] votes p h = h
gather_votes-cast term top ((k, vote) ∷ pool) votes p h =
    gather_votes-cast term top pool _ p.1 (added (is_some (lookup k votes)) (is_usable top vote))
  where
    added :
        (a b : Bool)
        → let votes' = if a then votes else if b then insert k vote votes else votes in
          All (VoteOf term) votes' × UniqueKeys votes'
    added true b = h
    added false true =
        (insert-All (VoteOf term) k vote votes p.0 h.0, insert-UniqueKeys k vote votes h.1)
    added false false = h

pub or_nil-VoteOf :
    (term now : ℕ) (pool : Map ℕ (Map ℕ Vote))
    → All (PooledFor now) pool
    → All (VoteOf term) (or_nil (lookup term pool))
or_nil-VoteOf term now pool h = elim (Option-cases (lookup term pool)) [
  | inl n ↦ subst (λ o. All (VoteOf term) (or_nil o)) (sym n) tt
  | inr (votes, e) ↦
      subst (λ o. All (VoteOf term) (or_nil o)) (sym e) (lookup-All (PooledFor now) term pool h e).2
]

-- A state that has votes for its term alone, with the pool before `scanVotePool` cleans it.
pub record IsScanning (c : Cluster) (ld : Leader) : Type 0 where
  pub cast : All (VoteOf ld.term) ld.votes
  pub distinct : UniqueKeys ld.votes
  pub within : All (Within ld.term) ld.vote_pool
  pub initing : InitingFor c ld ld.initing

-- Without charge of the term nothing is proposed.
not_initing :
    (c : Cluster) (ld : Leader)
    → InitingFor c ld ld.initing
    → is_in_charge c ld ≡ some false
    → ld.initing ≡ none
not_initing c ld i e = elim (Option-cases ld.initing) [
  | inl n ↦ n
  | inr (init, s) ↦
      let (t, charged) = subst (InitingFor c ld) s i in absurd (clash (sym e ∙ charged))
]
  where
    clash : some false ≡ some true → ⊥
    clash h = cc h

-- A step that ends in the term keeps the votes in order, and its events say what holds.
abbrev pub Fine : Cluster → ℕ → Leader × List LeaderEvent → Type 0
Fine c term (ld, events) = IsVoting c ld × All (ByLeader c ld) events × (ld.term ≡ term)

after_gather-Fine :
    (c : Cluster) (ld : Leader)
    → (is_in_charge c ld ≡ some false → IsVoting c ld)
    → (is_in_charge c ld ≡ some true → ld.initing ≡ none → IsVoting c ld)
    → Holds (Fine c ld.term) (after_gather c ld)
unfolding after_gather
after_gather-Fine c ld not_yet charged =
    Holds->>= (Fine c ld.term) (is_in_charge c ld) _ λ t e. by_charge t e
  where
    elected :
        is_in_charge c ld ≡ some true
        → ld.initing ≡ none
        → Fine c ld.term (ld, become_leader ld.term ∷ do_heatbeat ld ∷ [])
    elected e n = (charged e n, ((refl, is_in_charge-InCharge c ld e), ((refl, refl), tt)), refl)

    by_charge :
        (t : Bool)
        → is_in_charge c ld ≡ some t
        → Holds (Fine c ld.term) (
            if t
            then (do
              assert_true (not (is_some ld.initing))
              some (ld, become_leader ld.term ∷ do_heatbeat ld ∷ []))
            else some (ld, []))
    by_charge false e = (not_yet e, tt, refl)
    by_charge true e = by_initing (Option-cases ld.initing)
      where
        by_initing :
            (ld.initing ≡ none) ⊎ ((i : InitMsg) × (ld.initing ≡ some i))
            → Holds (Fine c ld.term) (
                assert_true (not (is_some ld.initing))
                >> some (ld, become_leader ld.term ∷ do_heatbeat ld ∷ []))
        by_initing (inl n) =
            Holds->>= (Fine c ld.term) (assert_true (not (is_some ld.initing))) _ λ u h. elected e n
        by_initing (inr (i, s)) =
            subst
              (λ (o : Option InitMsg). Holds (Fine c ld.term) (
                assert_true (not (is_some o))
                >> some (ld, become_leader ld.term ∷ do_heatbeat ld ∷ [])))
              (sym s) tt

pub none-InitingFor : (c : Cluster) (ld : Leader) → ld.initing ≡ none → InitingFor c ld ld.initing
none-InitingFor c ld n = subst (InitingFor c ld) (sym n) tt

pub scan_vote_pool-Fine :
    (c : Cluster) (db : Db) (ld : Leader)
    → IsScanning c ld
    → Holds (Fine c ld.term) (scan_vote_pool c db ld)
unfolding scan_vote_pool
scan_vote_pool-Fine c db ld v =
    Holds->>= (Fine c ld.term) (is_in_charge c cleaned) _ λ t e. by_charge t e
  where
    cleaned : Leader
    cleaned = record ld { vote_pool = drop_old ld.term ld.vote_pool }

    pool : Map ℕ Vote
    pool = or_nil (lookup ld.term cleaned.vote_pool)

    pooled_for : All (PooledFor ld.term) cleaned.vote_pool
    pooled_for = drop_old-PooledFor ld.term ld.vote_pool v.within

    gathered :
        (top : BlockPack)
        → ld.initing ≡ none
        → IsVoting c (record cleaned { votes = gather_votes top pool cleaned.votes })
    gathered top n =
        let (cast, distinct) =
          gather_votes-cast ld.term top pool ld.votes
            (or_nil-VoteOf ld.term ld.term cleaned.vote_pool pooled_for) (v.cast, v.distinct) in
        record {
          cast = cast;
          distinct = distinct;
          pooled = pooled_for;
          initing =
              none-InitingFor c (record cleaned { votes = gather_votes top pool cleaned.votes }) n;
        }

    by_charge :
        (t : Bool)
        → is_in_charge c cleaned ≡ some t
        → Holds (Fine c ld.term) (
            if t then some (cleaned, []) else (do
              top ← get_commit_top db
              after_gather c (record cleaned { votes = gather_votes top pool cleaned.votes })))
    by_charge true e = (
      record { cast = v.cast; distinct = v.distinct; pooled = pooled_for; initing = v.initing },
      tt,
      refl,
    )
    by_charge false e = Holds->>= (Fine c ld.term) (get_commit_top db) _ λ top et.
        after_gather-Fine c (record cleaned { votes = gather_votes top pool cleaned.votes })
          (λ h. gathered top (not_initing c ld v.initing e)) (λ h n. gathered top n)
