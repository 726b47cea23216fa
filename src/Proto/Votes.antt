-- ===== src/Proto/Votes.antt =====
-- proto/pbtypes_ext.go: `GetMaxVotie`.
use ofgp_core.Base.{
  if◌then◌else◌, Bool-cases, All, Map, ℕ, ◌≡◌, refl, ◌⊎◌, inl, inr, false, Option, none, some, [],
  ◌∷◌, arith,
}
use ofgp_core.Proto.Types.{Vote, Votie}
use ofgp_core.Proto.Blocks.{has_less_term_height_than}

-- One round of the loop, with the result so far.
abbrev larger_votie : Option Votie → Vote → Option Votie
larger_votie none vote = some vote.votie
larger_votie (some rst) vote =
    if has_less_term_height_than rst vote.votie then some vote.votie else some rst

max_votie_from : Option Votie → Map ℕ Vote → Option Votie
max_votie_from rst [] = rst
max_votie_from rst ((node_id, vote) ∷ votes) = max_votie_from (larger_votie rst vote) votes

-- The votes are met in the order of the list, which stands for any order of Go's iteration.
unfoldable pub get_max_votie : Map ℕ Vote → Option Votie
unfolding max_votie_from
get_max_votie votes = max_votie_from none votes

-- No vote of the list is for a later term, or a larger height of the term, than `m`.
abbrev pub NoneAbove : Votie → Map ℕ Vote → Type 0
NoneAbove m = All (λ entry. has_less_term_height_than m entry.1.votie ≡ false)

-- `m` is what some vote of the list is for.
abbrev pub VotedFor : Votie → Map ℕ Vote → Type 0
VotedFor m [] = ⊥
VotedFor m ((node_id, vote) ∷ votes) = (vote.votie ≡ m) ⊎ VotedFor m votes

less_trans :
    (u v w : Votie)
    → has_less_term_height_than v u ≡ false
    → has_less_term_height_than w v ≡ false
    → has_less_term_height_than w u ≡ false
less_trans u v w h k = ground arith

less_irrefl : (v : Votie) → has_less_term_height_than v v ≡ false
less_irrefl v = ground arith

max_votie_from-max :
    (r : Votie) (votes : Map ℕ Vote)
    → (m : Votie) × (max_votie_from (some r) votes ≡ some m)
      × (has_less_term_height_than m r ≡ false)
      × NoneAbove m votes
      × ((r ≡ m) ⊎ VotedFor m votes)
unfolding max_votie_from
max_votie_from-max r [] = (r, refl, less_irrefl r, tt, inl refl)
max_votie_from-max r ((node_id, vote) ∷ votes) =
    elim (Bool-cases (has_less_term_height_than r vote.votie)) [
      | inl e ↦
          let (m, eq, above, none_above, voted) = max_votie_from-max vote.votie votes in
          (
            m,
            rw e eq,
            less_trans r vote.votie m (ground arith) above,
            (above, none_above),
            inr voted,
          )
      | inr e ↦
          let (m, eq, above, none_above, voted) = max_votie_from-max r votes in
          (m, rw e eq, above, (less_trans vote.votie r m e above, none_above), later_vote voted)
    ]
  where
    later_vote :
        {m : Votie} → (r ≡ m) ⊎ VotedFor m votes → (r ≡ m) ⊎ ((vote.votie ≡ m) ⊎ VotedFor m votes)
    later_vote (inl e) = inl e
    later_vote (inr v) = inr (inr v)

-- Over any votes, in whatever order they are met, `GetMaxVotie` returns a block that one of the votes
-- is for and that no vote exceeds in term and height.
pub get_max_votie-max :
    (node_id : ℕ) (vote : Vote) (rest : Map ℕ Vote)
    → let votes = (node_id, vote) ∷ rest in
      (m : Votie) × (get_max_votie votes ≡ some m) × VotedFor m votes × NoneAbove m votes
unfolding get_max_votie
get_max_votie-max node_id vote rest =
    let (m, eq, above, none_above, voted) = max_votie_from-max vote.votie rest in
    (m, eq, voted, (above, none_above))
