-- ===== src/Proto/Exact.antt =====
-- proto/pbtypes_ext.go: `EthToPbTx` where the addresses ask for no more than the amount.
use ofgp_core.Base.{ℕ_eq, ℕ, ◌+◌, ◌≡◌, List, [], ◌∷◌}
use ofgp_core.Util.Codec.{ℤ}
use ofgp_core.Proto.Convert.{ForeignAddress}
use ofgp_core.Proto.Payouts.{total}

-- What the addresses ask for together.
abbrev pub asked : List (ForeignAddress ℕ) → ℕ
asked [] = 0
asked (info ∷ infos) = info.amount + asked infos

abbrev PaysAsked : List (ForeignAddress ℕ) → List (ForeignAddress ℤ) → Type 0
PaysAsked infos infos' = total infos' ≡ asked infos
