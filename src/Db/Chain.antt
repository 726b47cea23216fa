-- ===== src/Db/Chain.antt =====
-- The chain of committed blocks in primitives/dbops.go: what `JustCommitIt` keeps of it.
use ofgp_core.Base.{
  ℕ_eq, bytes_Eq, bytes_eq_iff, All, Map, lookup, insert, lookup-insert, ℕ, suc, ◌≤◌, ◌≡◌, refl,
  true, false, none, some, List, [], ◌∷◌, arith, nat_eq, Bool-cases, lookup-insert_self, ◌<◌, sym,
  ap, ◌∙◌, subst, inl, inr,
}
use ofgp_core.Proto.Types.{Digest, BlockPack}
use ofgp_core.Proto.Blocks.{block_id, prev_block_id}
use ofgp_core.Db.Defs.{
  Db, just_commit_it, next_height, is_committed, is_connecting_top, put_block, get_commit_by_height,
  init_db,
}

-- Each block stands under its height, right above the block before it, whose identifier it names
-- and whose term it does not go below; the first one has the height 0.
abbrev pub IsChain : List (ℕ × BlockPack) → Type 0
IsChain [] = ⊥
IsChain ((h, b) ∷ []) = (h ≡ 0) × (b.init.height ≡ 0)
IsChain ((h, b) ∷ (k, a) ∷ m) =
    (h ≡ suc k)
    × (b.init.height ≡ h)
    × (prev_block_id b ≡ block_id a)
    × (a.init.term ≤ b.init.term)
    × IsChain ((k, a) ∷ m)

-- The index under the prefix "H" gives the height of each block.
abbrev pub Indexed : Map Digest ℕ → List (ℕ × BlockPack) → Type 0
Indexed heights = All (λ entry. lookup (block_id entry.1) heights ≡ some entry.0)

pub record IsLinked (db : Db) : Type 0 where
  pub chain : IsChain db.commit_chain
  pub indexed : Indexed db.commit_hs_by_ids db.commit_chain

-- The top of a chain has the height that it stands under.
pub top_of_chain :
    (m : List (ℕ × BlockPack))
    → IsChain m
    → (h : ℕ) × (b : BlockPack) × (rest : List (ℕ × BlockPack)) × (m ≡ (h, b) ∷ rest)
      × (b.init.height ≡ h)
top_of_chain [] v = absurd v
top_of_chain ((h, b) ∷ []) v = (h, b, [], refl, omega arith)
top_of_chain ((h, b) ∷ (k, a) ∷ m) v = (h, b, (k, a) ∷ m, refl, v.1)

Indexed-insert :
    (heights : Map Digest ℕ) (id : Digest) (h : ℕ) (m : List (ℕ × BlockPack))
    → lookup id heights ≡ none
    → Indexed heights m
    → Indexed (insert id h heights) m
Indexed-insert heights id h [] new v = tt
Indexed-insert heights id h ((k, b) ∷ m) new v = (
  ground (arith, lookup-insert id (block_id b) h heights, bytes_eq_iff id (block_id b)),
  Indexed-insert heights id h m new v.1,
)

-- What connecting means, at a top block `b` under the key `h`.
record Connects (bp : BlockPack) (h : ℕ) (b : BlockPack) : Type 0 where
  prev : prev_block_id bp ≡ block_id b
  term : b.init.term ≤ bp.init.term
  height : bp.init.height ≡ suc h

connecting :
    (db : Db) (bp b : BlockPack) (h : ℕ) (rest : List (ℕ × BlockPack))
    → db.commit_chain ≡ (h, b) ∷ rest
    → b.init.height ≡ h
    → is_connecting_top db bp ≡ some true
    → Connects bp h b
unfolding is_connecting_top
connecting db bp b h rest e at c = ground (arith, bytes_eq_iff (prev_block_id bp) (block_id b))

put_block_above :
    (bp b : BlockPack) (h : ℕ) (rest : List (ℕ × BlockPack))
    → bp.init.height ≡ suc h
    → put_block bp.init.height bp ((h, b) ∷ rest) ≡ (suc h, bp) ∷ (h, b) ∷ rest
unfolding put_block
put_block_above bp b h rest e = ground arith

-- A block that is new and connects to the top is put on it: nothing that was there changes, and the
-- chain stays linked.
pub just_commit_it-IsLinked :
    (db : Db) (bp : BlockPack)
    → IsLinked db
    → is_committed db (block_id bp) ≡ false
    → is_connecting_top db bp ≡ some true
    → ((just_commit_it db bp).commit_chain ≡ (next_height db, bp) ∷ db.commit_chain)
      × IsLinked (just_commit_it db bp)
just_commit_it-IsLinked db bp v new connects =
    let (h, b, rest, e, at) = top_of_chain db.commit_chain v.chain in
    on_top h b rest e (connecting db bp b h rest e at connects)
  where
    not_yet : lookup (block_id bp) db.commit_hs_by_ids ≡ none
    not_yet = unfold is_committed in ground arith

    on_top :
        (h : ℕ) (b : BlockPack) (rest : List (ℕ × BlockPack))
        → db.commit_chain ≡ (h, b) ∷ rest
        → Connects bp h b
        → ((just_commit_it db bp).commit_chain ≡ (next_height db, bp) ∷ db.commit_chain)
          × IsLinked (just_commit_it db bp)
    on_top h b rest e c =
        unfold just_commit_it next_height in
        let grown : put_block bp.init.height bp db.commit_chain ≡ (suc h, bp) ∷ db.commit_chain =
          rw e (put_block_above bp b h rest c.height) in
        (
          rw grown (ground arith),
          record {
            chain = rw grown (
                subst (λ m. IsChain ((suc h, bp) ∷ m)) (sym e)
                  (refl, c.height, c.prev, c.term, subst IsChain e v.chain));
            indexed = rw grown (
              lookup-insert_self (block_id bp) bp.init.height db.commit_hs_by_ids
                  ∙ ap some c.height,
              Indexed-insert db.commit_hs_by_ids (block_id bp) bp.init.height db.commit_chain
                  not_yet v.indexed,
            );
          },
        )

-- `InitDB` leaves the chain of the first block alone, which has to have the height 0.
pub init_db-IsLinked :
    (db : Db) (first : BlockPack) → first.init.height ≡ 0 → IsLinked (init_db db first)
unfolding init_db put_block
init_db-IsLinked db first e = record {
  chain = (e, e);
  indexed = (lookup-insert_self (block_id first) first.init.height [], tt);
}

-- The keys of a chain fall by one from the top to 0.
pub lookup_above :
    (m : List (ℕ × BlockPack)) (h k : ℕ) (b : BlockPack)
    → IsChain ((h, b) ∷ m)
    → h < k
    → lookup k ((h, b) ∷ m) ≡ none
unfolding lookup
lookup_above [] h k b v l = ground arith
lookup_above ((j, a) ∷ m) h k b v l = ground (arith, lookup_above m j k a v.4 (omega (arith, v.0)))

lookup_below :
    (m : List (ℕ × BlockPack)) (h k : ℕ) (b : BlockPack)
    → IsChain ((h, b) ∷ m)
    → k ≤ h
    → (a : BlockPack) × (lookup k ((h, b) ∷ m) ≡ some a) × (a.init.height ≡ k)
unfolding lookup
lookup_below [] h k b v l = (b, ground arith, omega arith)
lookup_below ((j, a) ∷ m) h k b v l = elim (Bool-cases (nat_eq h k)) [
  | inl e ↦ (b, rw e refl, ground arith)
  | inr e ↦
      let (c, found, at) = lookup_below m j k a v.4 (ground (arith, v.0)) in (c, rw e found, at)
]

-- Over a linked chain there is a block of every height up to the top, and of none above, and each
-- has the height that it is asked for by.
pub get_commit_by_height-IsLinked :
    (db : Db) (k : ℕ)
    → IsLinked db
    → (k < next_height db
        → (b : BlockPack) × (get_commit_by_height db k ≡ some b) × (b.init.height ≡ k))
      × (next_height db ≤ k → get_commit_by_height db k ≡ none)
unfolding get_commit_by_height next_height
get_commit_by_height-IsLinked db k v = by_cases db.commit_chain refl v.chain
  where
    by_cases :
        (m : List (ℕ × BlockPack))
        → db.commit_chain ≡ m
        → IsChain m
        → (k < next_height db
            → (b : BlockPack) × (get_commit_by_height db k ≡ some b) × (b.init.height ≡ k))
          × (next_height db ≤ k → get_commit_by_height db k ≡ none)
    by_cases [] e w = absurd w
    by_cases ((h, b) ∷ m) e w = (
      (λ l.
          let (a, found, at) = lookup_below m h k b w (ground arith) in
          (a, ap (lookup k) e ∙ found, at)),
      λ l. ap (lookup k) e ∙ lookup_above m h k b w (ground arith),
    )

-- What is linked are the blocks and their index alone.
pub IsLinked-same :
    (db db' : Db)
    → db'.commit_chain ≡ db.commit_chain
    → db'.commit_hs_by_ids ≡ db.commit_hs_by_ids
    → IsLinked db
    → IsLinked db'
IsLinked-same db db' e i v = record {
  chain = subst IsChain (sym e) v.chain;
  indexed = rw (e, i) v.indexed;
}
