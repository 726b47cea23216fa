-- ===== src/Node/Leader/Steps.antt =====
-- node/leader.go: what every step of the loop `Run` keeps.
use ofgp_core.Base.{
  ℕ_eq, All, Map, or_nil, lookup, Holds, ℕ, ◌≤◌, Option, List, [], ◌∷◌, arith, leb, if◌then◌else◌,
  insert, Holds-some, Holds->>=, Holds-if, Holds-map, ◌+◌, ◌≡◌, refl, sym, Bool, true, false, not,
  ◌&&◌, none, some, ◌++◌, insert-All,
}
use ofgp_core.Proto.Types.{Vote, InitMsg}
use ofgp_core.Cluster.Defs.{Cluster}
use ofgp_core.Db.Defs.{Db}
use ofgp_core.Node.Leader.Defs.{
  Leader, update_term, add_vote, LeaderEvent, vote_pool_term_range, is_in_charge, scan_vote_pool,
  pool_vote, retire,
}
use ofgp_core.Node.Leader.Pool.{
  VoteOf, PooledFor, IsVoting, ByLeader, Within, InitingFor, or_nil-VoteOf, IsScanning, Fine,
  scan_vote_pool-Fine,
}

module _ {ℓ} {A : Type ℓ} where
  All-map : (P Q : A → Type 0) (m : List A) → ((a : A) → P a → Q a) → All P m → All Q m
  All-map P Q [] f h = tt
  All-map P Q (a ∷ m) f h = (f a h.0, All-map P Q m f h.1)

PooledFor-Within :
    (now later : ℕ) (pool : Map ℕ (Map ℕ Vote))
    → now ≤ later
    → All (PooledFor now) pool
    → All (Within later) pool
PooledFor-Within now later pool le =
    All-map (PooledFor now) (Within later) pool λ e h. (omega (arith, h.1), h.2)

pool_vote-Within :
    (now : ℕ) (vote : Vote) (pool : Map ℕ (Map ℕ Vote))
    → vote.term ≤ now + vote_pool_term_range
    → All (PooledFor now) pool
    → All (Within now) (pool_vote vote pool)
unfolding pool_vote
pool_vote-Within now vote pool le h =
    insert-All (Within now) vote.term (insert vote.node_id vote (or_nil (lookup vote.term pool)))
      pool
      (
        le,
        insert-All (VoteOf vote.term) vote.node_id vote (or_nil (lookup vote.term pool))
            (refl, refl) (or_nil-VoteOf vote.term now pool h),
      )
      (PooledFor-Within now now pool (omega arith) h)

-- What a step keeps, and what its events say.
abbrev pub Kept : Cluster → Leader × List LeaderEvent → Type 0
Kept c (ld, events) = IsVoting c ld × All (ByLeader c ld) events

pub IsVoting-IsScanning : (c : Cluster) (ld : Leader) → IsVoting c ld → IsScanning c ld
IsVoting-IsScanning c ld v = record {
  cast = v.cast;
  distinct = v.distinct;
  within = PooledFor-Within ld.term ld.term ld.vote_pool (omega arith) v.pooled;
  initing = v.initing;
}

pub scan_vote_pool-Kept :
    (c : Cluster) (db : Db) (ld : Leader)
    → IsScanning c ld
    → Holds (Kept c) (scan_vote_pool c db ld)
scan_vote_pool-Kept c db ld v =
    Holds-map (scan_vote_pool c db ld) (λ r h. (h.0, h.1)) (scan_vote_pool-Fine c db ld v)

pub All-snoc :
    (c : Cluster) (ld : Leader) (events : List LeaderEvent) (e : LeaderEvent)
    → All (ByLeader c ld) events
    → ByLeader c ld e
    → All (ByLeader c ld) (events ++ e ∷ [])
All-snoc c ld [] e h k = (k, tt)
All-snoc c ld (f ∷ events) e h k = (h.0, All-snoc c ld events e h.1 k)

pub update_term-Kept :
    (c : Cluster) (db : Db) (ld : Leader) (term : ℕ)
    → IsVoting c ld
    → Holds (Kept c) (update_term c db ld term)
unfolding update_term
update_term-Kept c db ld term v =
    Holds-if (Kept c) (leb term ld.term) _ _ (λ le. (v, tt))
      λ gt. Holds->>= (Kept c) (is_in_charge c ld) _ λ was ew.
        Holds->>= (Kept c) (scan_vote_pool c db entered) _ λ r er.
          Holds->>= (Kept c) (is_in_charge c r.0) _ λ charged ec.
            finished (was && not charged) r
              (Holds-some (Fine c term) (scan_vote_pool c db entered) (scanned gt) er)
  where
    entered : Leader
    entered = record ld { term = term; votes = []; initing = none }

    scanned : leb term ld.term ≡ false → Holds (Fine c term) (scan_vote_pool c db entered)
    scanned gt = scan_vote_pool-Fine c db entered (record {
      cast = tt;
      distinct = tt;
      within = PooledFor-Within ld.term term ld.vote_pool (ground arith) v.pooled;
      initing = tt;
    })

    finished :
        (b : Bool) (r : Leader × List LeaderEvent)
        → Fine c term r
        → Kept c (r.0, (if b then r.1 ++ retire term ∷ [] else r.1))
    finished true r f = (f.0, All-snoc c r.0 r.1 (retire term) f.1 (sym f.2))
    finished false r f = (f.0, f.1)

pub add_vote-Kept :
    (c : Cluster) (db : Db) (ld : Leader) (vote : Vote)
    → IsVoting c ld
    → Holds (Kept c) (add_vote c db ld vote)
unfolding add_vote
add_vote-Kept c db ld vote v =
    Holds-if (Kept c) (leb ld.term vote.term && leb vote.term (ld.term + vote_pool_term_range)) _ _
      (λ near. scan_vote_pool-Kept c db pooled (record {
        cast = v.cast;
        distinct = v.distinct;
        within = pool_vote-Within ld.term vote ld.vote_pool (ground arith) v.pooled;
        initing = same_charge ld.initing v.initing;
      }))
      (λ far. (v, tt))
  where
    pooled : Leader
    pooled = record ld { vote_pool = pool_vote vote ld.vote_pool }

    same_charge : (o : Option InitMsg) → InitingFor c ld o → InitingFor c pooled o
    same_charge none i = tt
    same_charge (some init) i = i
