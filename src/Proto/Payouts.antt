-- ===== src/Proto/Payouts.antt =====
-- proto/pbtypes_ext.go: how much the addresses of a converted transaction get.
use ofgp_core.Base.{
  ltb, if◌then◌else◌, All, ℕ_eq, ℕ, ◌+◌, ◌<◌, ◌≡◌, Option, none, some, List, [], ◌∷◌, zero, suc,
  ◌-◌, refl, inl, inr, arith, Holds-some, ◌⊎◌, Holds, Holds-if, Holds->>=, ◌≤◌, Bool-cases, true,
  false,
}
use ofgp_core.Util.Codec.{ℤ, pos, negsuc}
use ofgp_core.Proto.Convert.{
  ForeignAddress, positive, is_empty, btc_recharge, ForeignTx, btc_to_pb_tx,
}

abbrev pub or_zero : Option ℕ → ℕ
or_zero none = 0
or_zero (some n) = n

-- The sum of the amounts that are above 0.
abbrev pub total : List (ForeignAddress ℤ) → ℕ
total [] = 0
total (info ∷ infos) = or_zero (positive info.amount) + total infos

abbrev pub min : ℕ → ℕ → ℕ
min a b = if ltb a b then a else b

abbrev pub IsPaid : ForeignAddress ℤ → Type 0
IsPaid info = (n : ℕ) × (positive info.amount ≡ some n)

positive-pos : (v : ℤ) (n : ℕ) → positive v ≡ some n → positive (pos n) ≡ some n
positive-pos (pos zero) n e = absurd (ground (arith, e))
positive-pos (pos (suc k)) zero e = absurd (ground (arith, e))
positive-pos (pos (suc k)) (suc n) e = refl
positive-pos (negsuc k) n e = absurd (ground (arith, e))

pub positive_all : (n : ℕ) → 0 < n → positive (pos n) ≡ some n
positive_all zero h = absurd (omega (arith, h))
positive_all (suc n) h = refl

-- What the loop for Bitcoin gives.
record IsShared (left : ℕ) (infos infos' : List (ForeignAddress ℤ)) : Type 0 where
  paid : All IsPaid infos'
  shared : total infos' ≡ min (total infos) left

whole :
    (n left : ℕ) (info : ForeignAddress ℤ) (infos : List (ForeignAddress ℤ))
    → 0 < left
    → positive info.amount ≡ some n
    → left ≤ n
    → IsShared left (info ∷ infos) (record { address = info.address; amount = pos left } ∷ [])
whole n left info infos h en ge = record {
  paid = ((left, positive_all left h), tt);
  shared = ground (arith, en, ge, positive_all left h);
}

cons-IsShared :
    (n left : ℕ) (info : ForeignAddress ℤ) (infos rest : List (ForeignAddress ℤ))
    → ltb n left ≡ true
    → positive info.amount ≡ some n
    → IsShared (left - n) infos rest
    → IsShared left (info ∷ infos) (record { address = info.address; amount = pos n } ∷ rest)
cons-IsShared n left info infos rest lt en v = record {
  paid = ((n, positive-pos info.amount n en), v.paid);
  shared = ground (arith, lt, en, positive-pos info.amount n en, v.shared);
}

btc_recharge-IsShared :
    (left : ℕ) (infos : List (ForeignAddress ℤ))
    → 0 < left
    → Holds (IsShared left infos) (btc_recharge left infos)
unfolding btc_recharge
btc_recharge-IsShared left [] h = record { paid = tt; shared = ground (arith, h) }
btc_recharge-IsShared left (info ∷ infos) h =
    Holds->>= (IsShared left (info ∷ infos)) (positive info.amount) _ λ n en.
      Holds-if (IsShared left (info ∷ infos)) (ltb n left) _ _
        (λ lt. Holds->>= (IsShared left (info ∷ infos)) (btc_recharge (left - n) infos) _ λ rest er.
          cons-IsShared n left info infos rest lt en (
            Holds-some (IsShared (left - n) infos) (btc_recharge (left - n) infos)
              (btc_recharge-IsShared (left - n) infos (ground (arith, lt))) er))
        (λ ge. whole n left info infos h en (ground (arith, ge)))

abbrev IsTaken : ForeignTx ℤ → ForeignTx ℤ → Type 0
IsTaken tx tx' =
    All IsPaid tx'.recharge_list
    × (total tx'.recharge_list ≡ min (total tx.recharge_list) (or_zero (positive tx.amount)))
    × (tx'.amount ≡ tx.amount)

positive_above : (v : ℤ) (n : ℕ) → positive v ≡ some n → 0 < n
positive_above (pos zero) n e = absurd (ground (arith, e))
positive_above (pos (suc k)) n e = ground (arith, e)
positive_above (negsuc k) n e = absurd (ground (arith, e))

IsTaken-with :
    (tx : ForeignTx ℤ) (n : ℕ) (rest : List (ForeignAddress ℤ))
    → positive tx.amount ≡ some n
    → (if is_empty tx.recharge_list then none else btc_recharge n tx.recharge_list) ≡ some rest
    → IsTaken tx (record tx { recharge_list = rest })
IsTaken-with tx n rest en er =
    let v =
      Holds-some (IsShared n tx.recharge_list) (btc_recharge n tx.recharge_list)
        (btc_recharge-IsShared n tx.recharge_list (positive_above tx.amount n en))
        (not_empty (Bool-cases (is_empty tx.recharge_list))) in
    (v.paid, ground (arith, en, v.shared), refl)
  where
    not_empty :
        (is_empty tx.recharge_list ≡ true) ⊎ (is_empty tx.recharge_list ≡ false)
        → btc_recharge n tx.recharge_list ≡ some rest
    not_empty (inl empty) = absurd (ground (arith, empty, er))
    not_empty (inr full) = ground (arith, full, er)

-- Where a transaction of Bitcoin is taken, every address gets a positive amount, and together they get
-- what they ask for or the amount of the transaction, whichever is less.
pub btc_to_pb_tx-total :
    (tx tx' : ForeignTx ℤ)
    → btc_to_pb_tx tx ≡ some tx'
    → All IsPaid tx'.recharge_list
      × (total tx'.recharge_list ≡ min (total tx.recharge_list) (or_zero (positive tx.amount)))
      × (tx'.amount ≡ tx.amount)
unfolding btc_to_pb_tx
btc_to_pb_tx-total tx tx' e = Holds-some (IsTaken tx) (btc_to_pb_tx tx) taken e
  where
    taken : Holds (IsTaken tx) (btc_to_pb_tx tx)
    taken = Holds->>= (IsTaken tx) (positive tx.amount) _ λ n en.
        Holds->>= (IsTaken tx)
          (if is_empty tx.recharge_list then none else btc_recharge n tx.recharge_list) _
          λ rest er. IsTaken-with tx n rest en er
