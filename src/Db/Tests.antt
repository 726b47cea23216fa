-- ===== src/Db/Tests.antt =====
-- The theorems about the chain of primitives/dbops.go at concrete inputs.
use ofgp_core.Util.Codec.{pos, negsuc}
use ofgp_core.Db.Tables.{
  Tables, Setting, replay, write_all, Reads, write_all-Reads, put_height, put_amount,
}
use ofgp_core.Db.Settings.{
  KeyValueStore, i64_or_zero, is_proposal_exist, get_current_height, get_xin_block_height,
  get_final_amount, get_eth_tx_hash,
}
use ofgp_core.Db.Keys.{key_prefixes, keys_clash}
use ofgp_core.Samples.{genesis_block, second_block, empty_db, db}
use ofgp_core.Base.{
  ℕ_eq, bytes_Eq, lookup, insert, ◌≤◌, ◌<◌, ◌≡◌, refl, subst, none, some, ◌∷◌, Map, delete,
  lookup-insert, lookup-delete, codes, ℕ, false, List, [], ◌++◌, arith,
}
use ofgp_core.Proto.Types.{BlockPack}
use ofgp_core.Db.Defs.{
  put_block, just_commit_it, get_commit_top, next_height, get_commit_by_height, is_committed,
  is_connecting_top, init_db,
}
use ofgp_core.Db.Chain.{
  IsLinked, just_commit_it-IsLinked, init_db-IsLinked, get_commit_by_height-IsLinked,
}

init_db_makes_db : init_db empty_db genesis_block ≡ db
unfolding init_db put_block insert
init_db_makes_db = refl

db-IsLinked : IsLinked db
db-IsLinked = subst IsLinked init_db_makes_db (init_db-IsLinked empty_db genesis_block refl)

just_commit_it-IsLinked_example :
    ((just_commit_it db second_block).commit_chain
      ≡ (next_height db, second_block) ∷ db.commit_chain)
    × IsLinked (just_commit_it db second_block)
just_commit_it-IsLinked_example =
    just_commit_it-IsLinked db second_block db-IsLinked (unfold is_committed lookup in refl)
      (unfold is_connecting_top get_commit_top in refl)

get_commit_by_height-IsLinked_example :
    (0 < next_height db
      → (b : BlockPack) × (get_commit_by_height db 0 ≡ some b) × (b.init.height ≡ 0))
    × (next_height db ≤ 0 → get_commit_by_height db 0 ≡ none)
get_commit_by_height-IsLinked_example = get_commit_by_height-IsLinked db 0 db-IsLinked

-- LevelDB as a Go map: a store for the settings.
abbrev map_store : KeyValueStore (Map (List ℕ) (List ℕ))
map_store = record {
  put = insert;
  get = lookup;
  delete = delete;
  get-put = λ k j v d. lookup-insert k j v d;
  get-delete = λ k j d. lookup-delete k j d;
}

abbrev no_settings : Tables
no_settings = record {
  proposals = λ p. false;
  heights = λ chain. pos 0;
  xin_height = pos 0;
  amounts = λ id. pos 0;
  tx_hashes = λ p. [];
}

no_settings-Reads : Reads map_store [] no_settings
unfolding is_proposal_exist get_current_height get_xin_block_height get_final_amount get_eth_tx_hash
    i64_or_zero lookup
no_settings-Reads = record {
  proposals = λ p. refl;
  heights = λ chain. refl;
  xin_height = refl;
  amounts = λ id. refl;
  tx_hashes = λ p. refl;
}

-- The height of a chain of the name "1" and the amount of a transaction of the same name.
abbrev two_settings : List Setting
two_settings = put_height (codes "1") (pos 7) ∷ put_amount (codes "1") (negsuc 2) ∷ []

write_all-Reads_example :
    Reads map_store (write_all map_store two_settings []) (replay two_settings no_settings)
write_all-Reads_example =
    write_all-Reads map_store two_settings [] no_settings (omega arith, (omega arith, tt))
      no_settings-Reads

-- The key of the snapshot is that of the transaction "S".
keys_clash_example :
    (codes "MS" ≡ codes "MS") × (codes "M" ≡ codes "M") × (codes "S" ≡ codes "S" ++ [])
unfolding key_prefixes
keys_clash_example =
    keys_clash 12 16 (codes "MS") (codes "M") [] (codes "S") (omega arith) refl refl refl
