-- ===== src/Proto/Blocks.antt =====
-- proto/pbtypes_ext.go: the methods of blocks and block packs, of watched transactions, and of
-- accuses.
use text.Mathlib.Text.{starts_with}
use ofgp_core.Base.{
  ℕ_eq, String_eq, ltb, nat_eq, ◌==◌, Map, ℕ, Bool, true, false, ◌&&◌, ◌||◌, Option, none, some,
  List, [], ◌∷◌,
}
use ofgp_core.Proto.Types.{
  Block, Digest, AddressInfo, WatchedTxInfo, BlockType, Votie, InitMsg, BlockPack, WeakAccuse,
  StrongAccuse,
}

-- `WatchedTxInfo.EqualTo` over the recharge lists, whose lengths are compared first.
abbrev pub same_recharges : List AddressInfo → List AddressInfo → Bool
same_recharges [] [] = true
same_recharges [] (b ∷ bs) = false
same_recharges (a ∷ as') [] = false
same_recharges (a ∷ as') (b ∷ bs) =
    (a.address == b.address && a.amount == b.amount) && same_recharges as' bs

-- Neither the fee nor the tokens are compared.
unfoldable pub watched_equal_to : WatchedTxInfo → WatchedTxInfo → Bool
watched_equal_to tx other =
    (tx.txid == other.txid
      && tx.amount == other.amount
      && tx.from == other.from
      && tx.to == other.to)
    && same_recharges tx.recharge_list other.recharge_list

unfoldable pub is_transfer_tx : WatchedTxInfo → Bool
is_transfer_tx tx = tx.from == tx.to && starts_with tx.txid "TransferTx"

unfoldable pub is_distribution_tx : WatchedTxInfo → Bool
is_distribution_tx tx = tx.from == tx.to && starts_with tx.txid "DistributionTx"

abbrev is_txs : BlockType → Bool
is_txs BlockType.txs = true
is_txs _ = false

abbrev is_genesis_type : BlockType → Bool
is_genesis_type BlockType.genesis = true
is_genesis_type _ = false

abbrev is_reconfig_type : BlockType → Bool
is_reconfig_type BlockType.reconfig = true
is_reconfig_type _ = false

-- `Block.IsGenesis`, and `IsTxsBlock` and `IsReconfigBlock` of a block pack.
abbrev pub is_genesis : Block → Bool
is_genesis b = is_genesis_type b.type

abbrev pub is_txs_block : BlockPack → Bool
is_txs_block bp = is_txs bp.init.block.type

abbrev pub is_reconfig_block : BlockPack → Bool
is_reconfig_block bp = is_reconfig_type bp.init.block.type

abbrev pub new_block_pack : InitMsg → BlockPack
new_block_pack init = record { init = init; prepares = []; commits = [] }

-- `BlockPack.BlockId` and `PrevBlockId`, and `InitMsg.BlockId`.
abbrev pub block_id : BlockPack → Digest
block_id bp = bp.init.block.id

abbrev pub prev_block_id : BlockPack → Digest
prev_block_id bp = bp.init.block.prev_block_id

abbrev pub init_block_id : InitMsg → Digest
init_block_id init = init.block.id

abbrev pub to_votie : BlockPack → Votie
to_votie bp = record {
  term = bp.init.term;
  height = bp.init.height;
  block = bp.init.block;
  prepares = bp.prepares;
  commits = bp.commits;
}

-- `Votie.HasLessTermHeightThan`.
abbrev pub has_less_term_height_than : Votie → Votie → Bool
has_less_term_height_than v other =
    ltb v.term other.term || (nat_eq v.term other.term && ltb v.height other.height)

unfoldable pub first_term : Map ℕ WeakAccuse → Option ℕ
first_term [] = none
first_term ((_, wa) ∷ m) = some wa.term

-- `StrongAccuse.Term`: the term of the entry that Go's iteration over the map meets first, here
-- the first of the list; without an entry it panics.
unfoldable pub accuse_term : StrongAccuse → Option ℕ
unfolding first_term
accuse_term sa = first_term sa.weak_accuses
