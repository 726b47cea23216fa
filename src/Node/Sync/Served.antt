-- ===== src/Node/Sync/Served.antt =====
-- primitives/blockstore.go with node/msg_validation.go: what a node answers to a sync request, as the node
-- that asks sees it.
use ofgp_core.Db.Defs.{Db, get_commit_height, next_height, get_commit_by_height}
use ofgp_core.Proto.Blocks.{block_id, prev_block_id}
use ofgp_core.BlockStore.Serve.{commits_from, has_more, gen_sync_up_response}
use ofgp_core.Base.{
  ℕ_eq, none, not, if◌then◌else◌, ◌&&◌, Option-cases, bytes_Eq, nat_eq, Bool-cases, lookup, ℕ, suc,
  ◌≡◌, ◌⊎◌, inl, inr, true, false, Option, some, List, [], ◌∷◌, arith, ltb, bytes_eq_iff, length,
  zero, ◌+◌, ◌≤◌, refl, ◌∙◌, subst, Bool,
}
use ofgp_core.Proto.Types.{BlockPack, SyncUpResponse}
use ofgp_core.Db.Chain.{IsChain, IsLinked, lookup_above, get_commit_by_height-IsLinked}
use ofgp_core.Node.Check.Packs.{follows}

-- Each block follows the one before it, by the test of `checkSyncUpResponse`.
abbrev pub AllFollow : Option BlockPack → List BlockPack → Type 0
AllFollow prev [] = Unit
AllFollow prev (bp ∷ rest) = (follows prev bp ≡ true) × AllFollow (some bp) rest

head_height :
    (h : ℕ) (b : BlockPack) (m : List (ℕ × BlockPack)) → IsChain ((h, b) ∷ m) → b.init.height ≡ h
head_height h b [] v = ground (arith, v)
head_height h b ((j, a) ∷ m) v = v.1

-- Neighbours in a chain follow each other.
neighbours :
    (m : List (ℕ × BlockPack)) (k : ℕ) (a b : BlockPack)
    → IsChain m
    → lookup k m ≡ some a
    → lookup (suc k) m ≡ some b
    → follows (some a) b ≡ true
unfolding lookup
neighbours [] k a b v ea eb = absurd v
neighbours ((h, b₀) ∷ []) k a b v ea eb = ground arith
neighbours ((h, b₀) ∷ (j, a₀) ∷ m) k a b v ea eb = elim (Bool-cases (nat_eq h (suc k))) [
  | inl top ↦ followed (ground (arith, v.0)) (ground (arith, v.0)) (ground arith)
  | inr below ↦
      neighbours ((j, a₀) ∷ m) k a b v.4 (not_top (Bool-cases (nat_eq h k))) (ground arith)
]
  where
    followed : a₀ ≡ a → b₀ ≡ b → h ≡ suc k → follows (some a) b ≡ true
    followed ea' eb' eh =
        subst (λ (x : BlockPack). follows (some x) b ≡ true) ea'
          (subst (λ (y : BlockPack). follows (some a₀) y ≡ true) eb'
            (ground (
              arith,
              v.0,
              v.1,
              v.2,
              v.3,
              head_height j a₀ m v.4,
              bytes_eq_iff (prev_block_id b₀) (block_id a₀),
            )))

    not_top : (nat_eq h k ≡ true) ⊎ (nat_eq h k ≡ false) → lookup k ((j, a₀) ∷ m) ≡ some a
    not_top (inl e) =
        ground (arith, e, eb, lookup_above ((j, a₀) ∷ m) h (suc k) b₀ v (ground (arith, e)))
    not_top (inr e) = ground arith

commits_from-AllFollow :
    (n k : ℕ) (db : Db) (a : BlockPack)
    → IsLinked db
    → get_commit_by_height db k ≡ some a
    → (bps : List BlockPack) × (commits_from n (k + 1) db ≡ some bps)
      × AllFollow (some a) bps
      × (ltb (k + n + 1) (next_height db) ≡ ltb (k + length bps + 1) (next_height db))
      × (length bps ≤ n)
unfolding commits_from get_commit_by_height
commits_from-AllFollow zero k db a v e = ([], refl, tt, refl, omega arith)
commits_from-AllFollow (suc n) k db a v e = elim (Bool-cases (ltb (k + 1) (next_height db))) [
  | inl lt ↦
      let (b, found, height) =
        (get_commit_by_height-IsLinked db (k + 1) v).0 (ground (arith, lt)) in
      let (bps, rest, follow, more, most) = commits_from-AllFollow n (k + 1) db b v found in
      (
        b ∷ bps,
        ground (arith, lt, found, rest),
        (neighbours db.commit_chain k a b v.chain e (at_next b found), follow),
        ground (arith, more),
        omega (arith, most),
      )
  | inr ge ↦ ([], ground (arith, ge), tt, ground (arith, ge), omega arith)
]
  where
    at_next :
        (b : BlockPack)
        → lookup (k + 1) db.commit_chain ≡ some b
        → lookup (suc k) db.commit_chain ≡ some b
    at_next b found = subst (λ (j : ℕ). lookup j db.commit_chain ≡ some b) (omega arith) found

has_more_lem :
    (db : Db) (base max_block_n : ℕ)
    → has_more (get_commit_height db) base max_block_n
      ≡ ltb (base + max_block_n + 1) (next_height db)
unfolding next_height
has_more_lem db base max_block_n = elim (Option-cases (get_commit_height db)) [
  | inl n ↦ ground (arith, n)
  | inr (h, at) ↦ ground (arith, at)
]

-- On a linked chain a node answers every request from a height at which it has a block: each block of
-- the answer follows the one before it, the first the block at that height, as the check of the node
-- that asks wants it; there are at most as many as allowed; and the answer says that there are more just
-- when the top is above the last of them.
pub gen_sync_up_response-AllFollow :
    (db : Db) (base max_block_n : ℕ) (need_fresh : Bool) (a : BlockPack)
    → IsLinked db
    → get_commit_by_height db base ≡ some a
    → (rsp : SyncUpResponse) × (gen_sync_up_response db base max_block_n need_fresh ≡ some rsp)
      × AllFollow (some a) rsp.commits
      × (length rsp.commits ≤ max_block_n)
      × (rsp.more ≡ ltb (base + length rsp.commits + 1) (next_height db))
unfolding gen_sync_up_response
gen_sync_up_response-AllFollow db base max_block_n need_fresh a v e =
    let (bps, found, follow, more, most) = commits_from-AllFollow max_block_n base db a v e in
    (
      record {
        commits = bps;
        more = has_more (get_commit_height db) base max_block_n;
        fresh =
            if not (has_more (get_commit_height db) base max_block_n) && need_fresh
            then db.fresh
            else none;
        strong_accuse =
            if not (has_more (get_commit_height db) base max_block_n) && need_fresh
            then db.last_term_accuse
            else none;
      },
      rw found refl,
      follow,
      most,
      has_more_lem db base max_block_n ∙ more,
    )
