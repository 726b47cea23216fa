-- ===== src/Base/Text.antt =====
-- What the code uses of Go's `strconv` and `encoding/hex`, over the bytes of an ASCII text.
use Prim.Native.Nat.{ℕ, zero, suc, ◌+◌, ◌-◌, ◌*◌, ◌/◌, ◌%◌}
use Prim.Native.Char.{code}
use Prim.Native.String.{String}
use mathlib.Core.Bool.{◌&&◌}
use mathlib.Core.List.{List, [], ◌∷◌}
use mathlib.Core.Option.{Option, none, some}
use ofgp_core.Base.Tests.{ltb, leb, if◌then◌else◌}
use ofgp_core.Base.Panic.{◌>>=◌}

-- The bytes of an ASCII text.
abbrev pub codes : String → List ℕ
codes String.[] = []
codes (String.◌∷◌ c s) = code c ∷ codes s

-- The decimal digits of `n`, in front of `acc`; a number has fewer digits than the fuel `suc n`.
digits_before : ℕ → ℕ → List ℕ → List ℕ
digits_before zero n acc = acc
digits_before (suc f) n acc =
    let more = digits_before f (n / 10) ((b'0' + n % 10) ∷ acc) in
    if ltb n 10 then (b'0' + n) ∷ acc else more

-- `strconv.FormatInt(n, 10)` of a number that is not negative.
unfoldable pub format_int : ℕ → List ℕ
unfolding digits_before
format_int n = digits_before (suc n) n []

hex_digit : ℕ → ℕ
hex_digit d = if ltb d 10 then b'0' + d else b'a' + (d - 10)

-- `hex.EncodeToString`.
unfoldable pub hex_encode : List ℕ → List ℕ
unfolding hex_digit
hex_encode [] = []
hex_encode (b ∷ bs) = hex_digit (b / 16) ∷ hex_digit (b % 16) ∷ hex_encode bs

from_hex_digit : ℕ → Option ℕ
from_hex_digit c =
    if leb b'0' c && leb c b'9'
    then some (c - b'0')
    else if leb b'a' c && leb c b'f'
    then some (c - b'a' + 10)
    else if leb b'A' c && leb c b'F'
    then some (c - b'A' + 10)
    else none

-- `hex.DecodeString`, with `none` for its error.
unfoldable pub hex_decode : List ℕ → Option (List ℕ)
unfolding from_hex_digit
hex_decode [] = some []
hex_decode (c ∷ []) = none
hex_decode (c ∷ d ∷ cs) = do
  hi ← from_hex_digit c
  lo ← from_hex_digit d
  rest ← hex_decode cs
  some ((hi * 16 + lo) ∷ rest)
