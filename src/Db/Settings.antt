-- ===== src/Db/Settings.antt =====
-- primitives/dbops.go: what is kept under a name beside the consensus, over the bytes of LevelDB. A Go string
-- is its bytes here. LevelDB is any store of keys and values that reads what was written.
use ofgp_core.Base.{
  bytes_Eq, ◌==◌, is_some, if◌then◌else◌, codes, or_nil, ℕ_eq, ℕ, ◌≡◌, List, [], ◌++◌, Option, none,
  some, Bool,
}
use ofgp_core.Util.Codec.{ℤ, pos, i64_to_bytes, bytes_to_i64}

pub record KeyValueStore (D : Type 0) : Type 0 where
  pub put : List ℕ → List ℕ → D → D
  pub get : List ℕ → D → Option (List ℕ)
  pub delete : List ℕ → D → D
  pub get-put : (k j v : List ℕ) (d : D) → get j (put k v d) ≡ (if k == j then some v else get j d)
  pub get-delete : (k j : List ℕ) (d : D) → get j (delete k d) ≡ (if k == j then none else get j d)

-- An error of `Get` or of `BytesToI64` is 0.
unfoldable pub i64_or_zero : Option (List ℕ) → ℤ
unfolding bytes_to_i64
i64_or_zero none = pos 0
i64_or_zero (some data_bytes) = elim (bytes_to_i64 data_bytes) [ none ↦ pos 0 | some v ↦ v ]

module _ {D : Type 0} (store : KeyValueStore D) where
  unfoldable pub set_eth_proposal : D → List ℕ → D
  set_eth_proposal db proposal = store.put (codes "PP" ++ proposal) [] db

  unfoldable pub is_proposal_exist : D → List ℕ → Bool
  is_proposal_exist db proposal = is_some (store.get (codes "PP" ++ proposal) db)

  unfoldable pub delete_eth_proposal : D → List ℕ → D
  delete_eth_proposal db proposal = store.delete (codes "PP" ++ proposal) db

  unfoldable pub set_current_height : D → List ℕ → ℤ → D
  unfolding i64_to_bytes
  set_current_height db chain_type height =
      store.put (codes "CH" ++ chain_type) (i64_to_bytes height) db

  unfoldable pub get_current_height : D → List ℕ → ℤ
  unfolding i64_or_zero
  get_current_height db chain_type = i64_or_zero (store.get (codes "CH" ++ chain_type) db)

  unfoldable pub set_xin_block_height : D → ℤ → D
  unfolding i64_to_bytes
  set_xin_block_height db height = store.put (codes "XINHeight") (i64_to_bytes height) db

  unfoldable pub get_xin_block_height : D → ℤ
  unfolding i64_or_zero
  get_xin_block_height db = i64_or_zero (store.get (codes "XINHeight") db)

  unfoldable pub set_final_amount : D → ℤ → List ℕ → D
  unfolding i64_to_bytes
  set_final_amount db amount sc_tx_id = store.put (codes "FA" ++ sc_tx_id) (i64_to_bytes amount) db

  unfoldable pub get_final_amount : D → List ℕ → ℤ
  unfolding i64_or_zero
  get_final_amount db sc_tx_id = i64_or_zero (store.get (codes "FA" ++ sc_tx_id) db)

  unfoldable pub set_eth_tx_hash : D → List ℕ → List ℕ → D
  set_eth_tx_hash db proposal tx_hash = store.put (codes "ETHash" ++ proposal) tx_hash db

  unfoldable pub get_eth_tx_hash : D → List ℕ → List ℕ
  get_eth_tx_hash db proposal = or_nil (store.get (codes "ETHash" ++ proposal) db)
