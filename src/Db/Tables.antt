-- ===== src/Db/Tables.antt =====
-- primitives/dbops.go: the settings over the bytes of the database as tables of their own.
use ofgp_core.Base.{
  bytes_Eq, ◌==◌, bytes_eq, bytes_eq_iff, Bool-cases, if◌then◌else◌, codes, ℕ_eq, ℕ, ◌≡◌, refl,
  List, [], ◌∷◌, ◌++◌, some, Bool, true, false, arith, inl, inr, All, is_some, or_nil, Option, none,
}
use ofgp_core.Util.Codec.{ℤ, IsI64, i64_to_bytes, bytes_to_i64-i64_to_bytes, bytes_to_i64, pos}
use ofgp_core.Db.Keys.{clash, clash-++}
use ofgp_core.Db.Settings.{
  KeyValueStore, i64_or_zero, set_eth_proposal, is_proposal_exist, delete_eth_proposal,
  set_current_height, get_current_height, set_xin_block_height, get_xin_block_height,
  set_final_amount, get_final_amount, set_eth_tx_hash, get_eth_tx_hash,
}

-- What the settings promise: a function for each table.
pub record Tables : Type 0 where
  pub proposals : List ℕ → Bool
  pub heights : List ℕ → ℤ
  pub xin_height : ℤ
  pub amounts : List ℕ → ℤ
  pub tx_hashes : List ℕ → List ℕ

pub data Setting : Type 0 where
  add_proposal drop_proposal : List ℕ → Setting
  put_height put_amount : List ℕ → ℤ → Setting
  put_xin_height : ℤ → Setting
  put_tx_hash : List ℕ → List ℕ → Setting

update {ℓ} : {A : Type ℓ} → (List ℕ → A) → List ℕ → A → List ℕ → A
update f k a j = if k == j then a else f j

unfoldable pub write_table : Setting → Tables → Tables
unfolding update
write_table (add_proposal p) t = record t { proposals = update t.proposals p true }
write_table (drop_proposal p) t = record t { proposals = update t.proposals p false }
write_table (put_height chain h) t = record t { heights = update t.heights chain h }
write_table (put_amount id a) t = record t { amounts = update t.amounts id a }
write_table (put_xin_height h) t = record t { xin_height = h }
write_table (put_tx_hash p hash) t = record t { tx_hashes = update t.tx_hashes p hash }

unfoldable pub replay : List Setting → Tables → Tables
unfolding write_table
replay [] t = t
replay (s ∷ ss) t = replay ss (write_table s t)

-- The numbers that are written are int64.
abbrev pub IsInRange : Setting → Type 0
IsInRange (put_height chain h) = IsI64 h
IsInRange (put_amount id a) = IsI64 a
IsInRange (put_xin_height h) = IsI64 h
IsInRange s = Unit

i64_or_zero-i64_to_bytes : (v : ℤ) → IsI64 v → i64_or_zero (some (i64_to_bytes v)) ≡ v
unfolding i64_or_zero
i64_or_zero-i64_to_bytes v h =
    decoded (bytes_to_i64 (i64_to_bytes v)) (bytes_to_i64-i64_to_bytes v h)
  where
    decoded : (o : Option ℤ) → o ≡ some v → (elim o as (λ x. ℤ) [ none ↦ pos 0 | some u ↦ u ]) ≡ v
    decoded o e = rw e refl

same_prefix : (p r s : List ℕ) → ((p ++ r) == (p ++ s)) ≡ (r == s)
same_prefix [] r s = refl
same_prefix (x ∷ p) r s = ground (arith, same_prefix p r s)

module _ {D : Type 0} (store : KeyValueStore D) where
  unfoldable pub write : Setting → D → D
  unfolding set_eth_proposal delete_eth_proposal set_current_height set_final_amount
      set_xin_block_height set_eth_tx_hash
  write (add_proposal p) db = set_eth_proposal store db p
  write (drop_proposal p) db = delete_eth_proposal store db p
  write (put_height chain h) db = set_current_height store db chain h
  write (put_amount id a) db = set_final_amount store db a id
  write (put_xin_height h) db = set_xin_block_height store db h
  write (put_tx_hash p hash) db = set_eth_tx_hash store db p hash

  unfoldable pub write_all : List Setting → D → D
  unfolding write
  write_all [] db = db
  write_all (s ∷ ss) db = write_all ss (write s db)

  -- The database reads as the tables say.
  pub record Reads (db : D) (t : Tables) : Type 0 where
    pub proposals : (p : List ℕ) → is_proposal_exist store db p ≡ t.proposals p
    pub heights : (chain : List ℕ) → get_current_height store db chain ≡ t.heights chain
    pub xin_height : get_xin_block_height store db ≡ t.xin_height
    pub amounts : (id : List ℕ) → get_final_amount store db id ≡ t.amounts id
    pub tx_hashes : (p : List ℕ) → get_eth_tx_hash store db p ≡ t.tx_hashes p

  other_key : (p q r s : List ℕ) → clash p q ≡ false → ((p ++ r) == (q ++ s)) ≡ false
  other_key p q r s e = elim (Bool-cases (bytes_eq (p ++ r) (q ++ s))) [
    | inl same ↦
        absurd (ground (arith, e, clash-++ p q r s ((bytes_eq_iff (p ++ r) (q ++ s)).0 same)))
    | inr apart ↦ apart
  ]

  module _ {A : Type 0} (decode : Option (List ℕ) → A) where
    -- A write under another prefix is not seen.
    put_other :
        (p q r s v : List ℕ) (d : D) (a : A)
        → clash p q ≡ false
        → decode (store.get (q ++ s) d) ≡ a
        → decode (store.get (q ++ s) (store.put (p ++ r) v d)) ≡ a
    put_other p q r s v d a apart e =
        rw (store.get-put (p ++ r) (q ++ s) v d, other_key p q r s apart) e

    delete_other :
        (p q r s : List ℕ) (d : D) (a : A)
        → clash p q ≡ false
        → decode (store.get (q ++ s) d) ≡ a
        → decode (store.get (q ++ s) (store.delete (p ++ r) d)) ≡ a
    delete_other p q r s d a apart e =
        rw (store.get-delete (p ++ r) (q ++ s) d, other_key p q r s apart) e

    -- A write under the same prefix is an update of the table.
    put_own :
        (p r s v : List ℕ) (d : D) (f : List ℕ → A) (a : A)
        → decode (some v) ≡ a
        → decode (store.get (p ++ s) d) ≡ f s
        → decode (store.get (p ++ s) (store.put (p ++ r) v d)) ≡ update f r a s
    unfolding update
    put_own p r s v d f a new old =
        rw (store.get-put (p ++ r) (p ++ s) v d, same_prefix p r s) (by_test (r == s))
      where
        by_test :
            (b : Bool)
            → decode (if b then some v else store.get (p ++ s) d) ≡ (if b then a else f s)
        by_test true = new
        by_test false = old

    delete_own :
        (p r s : List ℕ) (d : D) (f : List ℕ → A) (a : A)
        → decode none ≡ a
        → decode (store.get (p ++ s) d) ≡ f s
        → decode (store.get (p ++ s) (store.delete (p ++ r) d)) ≡ update f r a s
    unfolding update
    delete_own p r s d f a new old =
        rw (store.get-delete (p ++ r) (p ++ s) d, same_prefix p r s) (by_test (r == s))
      where
        by_test :
            (b : Bool) → decode (if b then none else store.get (p ++ s) d) ≡ (if b then a else f s)
        by_test true = new
        by_test false = old

  write-Reads :
      (w : Setting) (db : D) (t : Tables)
      → IsInRange w
      → Reads db t
      → Reads (write w db) (write_table w t)
  unfolding write write_table set_eth_proposal delete_eth_proposal set_current_height
      set_final_amount set_xin_block_height set_eth_tx_hash is_proposal_exist get_current_height
      get_xin_block_height get_final_amount get_eth_tx_hash
  write-Reads (add_proposal p) db t rng v = record {
    proposals = λ k. put_own is_some (codes "PP") p k [] db t.proposals true refl (v.proposals k);
    heights = λ k.
        put_other i64_or_zero (codes "PP") (codes "CH") p k [] db (t.heights k) refl (v.heights k);
    xin_height =
        put_other i64_or_zero (codes "PP") (codes "XINHeight") p [] [] db (t.xin_height) refl
          (v.xin_height);
    amounts = λ k.
        put_other i64_or_zero (codes "PP") (codes "FA") p k [] db (t.amounts k) refl (v.amounts k);
    tx_hashes = λ k.
        put_other or_nil (codes "PP") (codes "ETHash") p k [] db (t.tx_hashes k) refl
          (v.tx_hashes k);
  }
  write-Reads (drop_proposal p) db t rng v = record {
    proposals = λ k. delete_own is_some (codes "PP") p k db t.proposals false refl (v.proposals k);
    heights = λ k.
        delete_other i64_or_zero (codes "PP") (codes "CH") p k db (t.heights k) refl (v.heights k);
    xin_height =
        delete_other i64_or_zero (codes "PP") (codes "XINHeight") p [] db (t.xin_height) refl
          (v.xin_height);
    amounts = λ k.
        delete_other i64_or_zero (codes "PP") (codes "FA") p k db (t.amounts k) refl (v.amounts k);
    tx_hashes = λ k.
        delete_other or_nil (codes "PP") (codes "ETHash") p k db (t.tx_hashes k) refl
          (v.tx_hashes k);
  }
  write-Reads (put_height chain h) db t rng v = record {
    proposals = λ k.
        put_other is_some (codes "CH") (codes "PP") chain k (i64_to_bytes h) db (t.proposals k) refl
          (v.proposals k);
    heights = λ k.
        put_own i64_or_zero (codes "CH") chain k (i64_to_bytes h) db t.heights h
          (i64_or_zero-i64_to_bytes h rng) (v.heights k);
    xin_height =
        put_other i64_or_zero (codes "CH") (codes "XINHeight") chain [] (i64_to_bytes h) db
          (t.xin_height) refl (v.xin_height);
    amounts = λ k.
        put_other i64_or_zero (codes "CH") (codes "FA") chain k (i64_to_bytes h) db (t.amounts k)
          refl (v.amounts k);
    tx_hashes = λ k.
        put_other or_nil (codes "CH") (codes "ETHash") chain k (i64_to_bytes h) db (t.tx_hashes k)
          refl (v.tx_hashes k);
  }
  write-Reads (put_amount id a) db t rng v = record {
    proposals = λ k.
        put_other is_some (codes "FA") (codes "PP") id k (i64_to_bytes a) db (t.proposals k) refl
          (v.proposals k);
    heights = λ k.
        put_other i64_or_zero (codes "FA") (codes "CH") id k (i64_to_bytes a) db (t.heights k) refl
          (v.heights k);
    xin_height =
        put_other i64_or_zero (codes "FA") (codes "XINHeight") id [] (i64_to_bytes a) db
          (t.xin_height) refl (v.xin_height);
    amounts = λ k.
        put_own i64_or_zero (codes "FA") id k (i64_to_bytes a) db t.amounts a
          (i64_or_zero-i64_to_bytes a rng) (v.amounts k);
    tx_hashes = λ k.
        put_other or_nil (codes "FA") (codes "ETHash") id k (i64_to_bytes a) db (t.tx_hashes k) refl
          (v.tx_hashes k);
  }
  write-Reads (put_xin_height h) db t rng v = record {
    proposals = λ k.
        put_other is_some (codes "XINHeight") (codes "PP") [] k (i64_to_bytes h) db (t.proposals k)
          refl (v.proposals k);
    heights = λ k.
        put_other i64_or_zero (codes "XINHeight") (codes "CH") [] k (i64_to_bytes h) db
          (t.heights k) refl (v.heights k);
    xin_height =
        put_own i64_or_zero (codes "XINHeight") [] [] (i64_to_bytes h) db (λ j. t.xin_height) h
          (i64_or_zero-i64_to_bytes h rng) (v.xin_height);
    amounts = λ k.
        put_other i64_or_zero (codes "XINHeight") (codes "FA") [] k (i64_to_bytes h) db
          (t.amounts k) refl (v.amounts k);
    tx_hashes = λ k.
        put_other or_nil (codes "XINHeight") (codes "ETHash") [] k (i64_to_bytes h) db
          (t.tx_hashes k) refl (v.tx_hashes k);
  }
  write-Reads (put_tx_hash p hash) db t rng v = record {
    proposals = λ k.
        put_other is_some (codes "ETHash") (codes "PP") p k hash db (t.proposals k) refl
          (v.proposals k);
    heights = λ k.
        put_other i64_or_zero (codes "ETHash") (codes "CH") p k hash db (t.heights k) refl
          (v.heights k);
    xin_height =
        put_other i64_or_zero (codes "ETHash") (codes "XINHeight") p [] hash db (t.xin_height) refl
          (v.xin_height);
    amounts = λ k.
        put_other i64_or_zero (codes "ETHash") (codes "FA") p k hash db (t.amounts k) refl
          (v.amounts k);
    tx_hashes =
        λ k. put_own or_nil (codes "ETHash") p k hash db t.tx_hashes hash refl (v.tx_hashes k);
  }

  -- Over any store that reads what was written, any sequence of writes of the settings reads as the
  -- updates of separate tables, as the tables were before: no write is seen in another table or under
  -- another name, and a number in the range of an int64 comes back as it was.
  pub write_all-Reads :
      (ws : List Setting) (db : D) (t : Tables)
      → All IsInRange ws
      → Reads db t
      → Reads (write_all ws db) (replay ws t)
  unfolding write_all replay
  write_all-Reads [] db t rng v = v
  write_all-Reads (w ∷ ws) db t rng v =
      write_all-Reads ws (write w db) (write_table w t) rng.1 (write-Reads w db t rng.0 v)
