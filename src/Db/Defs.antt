-- ===== src/Db/Defs.antt =====
-- primitives/dbops.go. LevelDB is a record with a field for each key and each prefix of keys, whose
-- values are what the code marshals and unmarshals; a missing key is `none`. The blocks stand
-- under the prefix "B" in the order of their keys, the last key first: a height is written with
-- its most significant byte first (util/base.go), so that this is the order of the heights.
use ofgp_core.Base.{
  ℕ_eq, String_eq, bytes_Eq, ◌>>◌, ltb, leb, nat_eq, if◌then◌else◌, ◌==◌, Map, is_some, lookup,
  insert, delete, ◌>>=◌, assert_true, ℕ, ◌+◌, ◌^◌, String, Bool, false, ◌&&◌, ◌||◌, Option, none,
  some, List, [], ◌∷◌,
}
use ofgp_core.Proto.Types.{
  Digest, TxLookupEntry, Votie, BlockPack, WeakAccuse, StrongAccuse, JoinRequest, LeaveRequest,
  SignTxRequest,
}
use ofgp_core.Proto.Blocks.{to_votie, block_id, prev_block_id}

pub record Db : Type 0 where
  pub term : Option ℕ
  pub last_term_accuse : Option StrongAccuse
  pub weak_accuses : Option (Map ℕ WeakAccuse)
  pub fresh : Option BlockPack
  pub votie : Option Votie
  pub commit_chain : List (ℕ × BlockPack)
  pub commit_hs_by_ids : Map Digest ℕ
  pub txs : Map Digest TxLookupEntry
  pub tx_map : Map String Digest
  pub sign_msgs : Map String SignTxRequest
  pub sign_failed : List (String × ℕ)
  pub join_node_info : Option JoinRequest
  pub leave_node_info : Option LeaveRequest

-- The first number that is negative as an int64.
abbrev pub int64_limit : ℕ
int64_limit = 2 ^ 63

unfoldable pub set_node_term : Db → ℕ → Option Db
set_node_term db term = do assert_true (ltb term int64_limit); some (record db { term = some term })

-- Without a term in the database the code panics.
abbrev pub get_node_term : Db → Option ℕ
get_node_term db = db.term

abbrev pub set_last_term_accuse : Db → Option StrongAccuse → Db
set_last_term_accuse db accuse = record db { last_term_accuse = accuse }

abbrev pub set_weak_accuses : Db → Option (Map ℕ WeakAccuse) → Db
set_weak_accuses db weak_accuses = record db { weak_accuses = weak_accuses }

unfoldable pub get_weak_accuses : Db → Map ℕ WeakAccuse
get_weak_accuses db = elim db.weak_accuses [ none ↦ [] | some m ↦ m ]

abbrev pub set_fresh : Db → Option BlockPack → Db
set_fresh db fresh = record db { fresh = fresh }

abbrev pub set_votie : Db → Votie → Db
set_votie db votie = record db { votie = some votie }

-- A write of a block at a key of the prefix "B", the keys falling along the list.
unfoldable pub put_block : ℕ → BlockPack → List (ℕ × BlockPack) → List (ℕ × BlockPack)
put_block h bp [] = (h, bp) ∷ []
put_block h bp ((k, b) ∷ m) =
    if nat_eq h k
    then (h, bp) ∷ m
    else if ltb k h
    then (h, bp) ∷ (k, b) ∷ m
    else (k, b) ∷ put_block h bp m

unfoldable pub just_commit_it : Db → BlockPack → Db
unfolding put_block
just_commit_it db bp = record db {
  commit_chain = put_block bp.init.height bp db.commit_chain;
  commit_hs_by_ids = insert (block_id bp) bp.init.height db.commit_hs_by_ids;
}

abbrev last_height : List (ℕ × BlockPack) → Option ℕ
last_height [] = none
last_height ((h, bp) ∷ m) = some h

abbrev last_block : List (ℕ × BlockPack) → Option BlockPack
last_block [] = none
last_block ((h, bp) ∷ m) = some bp

-- `none` is the height -1 of a database without a block.
unfoldable pub get_commit_height : Db → Option ℕ
get_commit_height db = last_height db.commit_chain

unfoldable pub get_commit_top : Db → Option BlockPack
get_commit_top db = last_block db.commit_chain

-- `GetCommitHeight(db) + 1`.
unfoldable pub next_height : Db → ℕ
unfolding get_commit_height
next_height db = elim (get_commit_height db) [ none ↦ 0 | some h ↦ h + 1 ]

unfoldable pub get_commit_by_height : Db → ℕ → Option BlockPack
get_commit_by_height db height = lookup height db.commit_chain

unfoldable pub is_committed : Db → Digest → Bool
is_committed db id = is_some (lookup id db.commit_hs_by_ids)

unfoldable pub get_commit_by_id : Db → Digest → Option BlockPack
unfolding get_commit_by_height
get_commit_by_id db id = elim (lookup id db.commit_hs_by_ids) [
  | none ↦ none
  | some height ↦ get_commit_by_height db height
]

-- Without a top the code dereferences nil.
unfoldable pub is_connecting_top : Db → BlockPack → Option Bool
unfolding get_commit_top
is_connecting_top db bp = do
  top ← get_commit_top db
  some (
      prev_block_id bp == block_id top
      && leb top.init.term bp.init.term
      && nat_eq bp.init.height (top.init.height + 1))

-- The prefixes that `InitDB` does not delete are kept.
unfoldable pub init_db : Db → BlockPack → Db
unfolding just_commit_it
init_db db first =
    just_commit_it
      (record db {
        term = some 0;
        last_term_accuse = none;
        weak_accuses = none;
        fresh = none;
        votie = some (to_votie first);
        commit_chain = [];
        commit_hs_by_ids = [];
      })
      first

unfoldable pub set_tx_lookup_entry : Db → Digest → TxLookupEntry → Db
set_tx_lookup_entry db id entry = record db { txs = insert id entry db.txs }

unfoldable pub get_tx_lookup_entry : Db → Digest → Option TxLookupEntry
get_tx_lookup_entry db id = lookup id db.txs

unfoldable pub set_tx_id_map : Db → String → Digest → Db
set_tx_id_map db sc_tx_id id = record db { tx_map = insert sc_tx_id id db.tx_map }

unfoldable pub get_tx_id_by_sidechain_tx_id : Db → String → Option Digest
get_tx_id_by_sidechain_tx_id db sc_tx_id = lookup sc_tx_id db.tx_map

unfoldable pub set_sign_msg : Db → SignTxRequest → String → Db
set_sign_msg db msg msg_id = record db { sign_msgs = insert msg_id msg db.sign_msgs }

unfoldable pub get_sign_msg : Db → String → Option SignTxRequest
get_sign_msg db msg_id = lookup msg_id db.sign_msgs

unfoldable pub delete_sign_msg : Db → String → Db
delete_sign_msg db msg_id = record db { sign_msgs = delete msg_id db.sign_msgs }

-- The key joins the identifier and the term by "_": as a pair they are as distinct.
unfoldable pub mark_failed_sign_record : Db → String → ℕ → Db
mark_failed_sign_record db msg_id term = record db { sign_failed = (msg_id, term) ∷ db.sign_failed }

unfoldable pub marked : String → ℕ → List (String × ℕ) → Bool
marked msg_id term [] = false
marked msg_id term ((m, t) ∷ rest) = (m == msg_id && t == term) || marked msg_id term rest

unfoldable pub is_sign_failed : Db → String → ℕ → Bool
unfolding marked
is_sign_failed db msg_id term = marked msg_id term db.sign_failed
