-- ===== src/BlockStore/Safety.antt =====
-- primitives/blockstore.go: committed blocks are final, over any run of the handlers.
use ofgp_core.Base.{ℕ_eq, bytes_Eq, ltb, Bool-cases, ℕ, ◌<◌, ◌≡◌, inl, inr, some, List, arith}
use ofgp_core.Proto.Types.{Digest, BlockPack}
use ofgp_core.Cluster.Defs.{Cluster}
use ofgp_core.Db.Defs.{next_height, get_commit_by_height}
use ofgp_core.Db.Chain.{IsLinked, get_commit_by_height-IsLinked}
use ofgp_core.BlockStore.Defs.{BlockStore}
use ofgp_core.BlockStore.Advance.{Steps, Grown-lookup, Steps-Grown}

module _ (sha256 : List ℕ → Digest) where
  -- Where the chain is linked, a block that is found at a height is the one found there after any
  -- run of the handlers of a cluster, and the height stays below the next one to commit.
  pub get_commit_by_height-Steps :
      (c : Cluster) (bs bs' : BlockStore) (k : ℕ) (b : BlockPack)
      → IsLinked bs.db
      → Steps sha256 c bs bs'
      → get_commit_by_height bs.db k ≡ some b
      → (get_commit_by_height bs'.db k ≡ some b) × (k < next_height bs'.db)
  unfolding get_commit_by_height
  get_commit_by_height-Steps c bs bs' k b v steps e =
      let (linked, grown, term) = Steps-Grown sha256 c bs bs' v steps in
      let found = Grown-lookup c bs.db.commit_chain bs'.db.commit_chain k b linked.chain grown e in
      (found, below linked found)
    where
      below : IsLinked bs'.db → get_commit_by_height bs'.db k ≡ some b → k < next_height bs'.db
      below linked found = elim (Bool-cases (ltb k (next_height bs'.db))) [
        | inl l ↦ ground arith
        | inr n ↦
            ground (arith, (get_commit_by_height-IsLinked bs'.db k linked).1 (ground arith), found)
      ]
