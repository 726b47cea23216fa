-- ===== src/Proto/Ids.antt =====
-- What the identifiers of proto/pbtypes_ext.go and `WatchedTxInfo.EqualTo` tell apart.
use mathlib.Core.Option
use ofgp_core.Base.{ℕ_eq, String_eq, ℕ, String, ◌≡◌, refl, ◌↔◌, true, some, List, [], ◌∷◌, arith}
use ofgp_core.Proto.Types.{
  Block, Digest, AddressInfo, WatchedTxInfo, Reconfig, BlockType, WeakAccuse,
}
use ofgp_core.Proto.Blocks.{same_recharges, watched_equal_to}
use ofgp_core.Proto.Feed.{
  feed_reconfig_fields, feed_weak_accuse_fields, reconfig_id, weak_accuse_id, feed_block_fields,
  update_block_id,
}

same_recharges_iff : (as' bs : List AddressInfo) → (same_recharges as' bs ≡ true) ↔ (as' ≡ bs)
same_recharges_iff [] [] = ground arith
same_recharges_iff [] (b ∷ bs) = ground arith
same_recharges_iff (a ∷ as') [] = ground arith
same_recharges_iff (a ∷ as') (b ∷ bs) =
    ground (arith, String_eq.beq_iff a.address b.address, same_recharges_iff as' bs)

-- `WatchedTxInfo.EqualTo` holds exactly of two transactions with the same identifier, amount,
-- chains and recharge list.
pub watched_equal_to_iff :
    (tx other : WatchedTxInfo)
    → (watched_equal_to tx other ≡ true) ↔ (
        (tx.txid ≡ other.txid)
        × (tx.amount ≡ other.amount)
        × (tx.from ≡ other.from)
        × (tx.to ≡ other.to)
        × (tx.recharge_list ≡ other.recharge_list))
unfolding watched_equal_to
watched_equal_to_iff tx other = ground (
  arith,
  String_eq.beq_iff tx.txid other.txid,
  String_eq.beq_iff tx.from other.from,
  String_eq.beq_iff tx.to other.to,
  same_recharges_iff tx.recharge_list other.recharge_list,
)

-- So it accepts a transaction of any other token and fee in place of the one that was watched.
pub watched_equal_to_any_token :
    (tx : WatchedTxInfo) (token_from token_to fee : ℕ)
    → watched_equal_to (record tx { token_from = token_from; token_to = token_to; fee = fee }) tx
      ≡ true
watched_equal_to_any_token tx token_from token_to fee =
    (watched_equal_to_iff _ tx).1 (refl, refl, refl, refl, refl)

module _ (sha256 : List ℕ → Digest) where
  -- Whatever the hash function, a reconfiguration block keeps its identifier when the public key and
  -- the vote of the node that joins are replaced.
  pub update_block_id_any_pubkey :
      (block : Block) (r : Reconfig) (pubkey : String) (vote : List ℕ)
      → block.type ≡ BlockType.reconfig
      → block.reconfig ≡ some r
      → let swapped = record block {
        reconfig = some (record r { pubkey = pubkey; vote = vote });
      } in
        Option.map (λ b. b.id) (update_block_id sha256 swapped)
        ≡ Option.map (λ b. b.id) (update_block_id sha256 block)
  unfolding update_block_id feed_block_fields reconfig_id feed_reconfig_fields
  update_block_id_any_pubkey block r pubkey vote t e = ground arith

  -- Whatever the hash function, an accuse keeps its identifier, which is what is signed, at any time.
  pub weak_accuse_id_any_time :
      (wa : WeakAccuse) (time : ℕ)
      → weak_accuse_id sha256 (record wa { time = time }) ≡ weak_accuse_id sha256 wa
  unfolding weak_accuse_id feed_weak_accuse_fields
  weak_accuse_id_any_time wa time = refl
