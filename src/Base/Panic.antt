-- ===== src/Base/Panic.antt =====
-- Code that may panic: `none` is a panic, from an `assert`, a nil pointer or an index out of range.
use mathlib.Core.Path.{◌≡◌, refl, subst}
use mathlib.Core.Bool.{Bool, true, false}
use mathlib.Core.Option.{Option, none, some}
use native.Mathlib.Omega.{arith}
use ofgp_core.Base.Tests.{if◌then◌else◌}

infixl 5 ◌>>=◌ ◌>>◌
abbrev pub ◌>>=◌ {ℓ κ} : {A : Type ℓ} {B : Type κ} → Option A → (A → Option B) → Option B
none >>= f = none
some a >>= f = f a

abbrev pub ◌>>◌ {ℓ} : {B : Type ℓ} → Option (Unit {0}) → Option B → Option B
m >> k = m >>= λ _. k

-- `assert.True`.
abbrev pub assert_true : Bool → Option (Unit {0})
assert_true true = some tt
assert_true false = none

-- Inversion of a chain that does not panic.
pub >>=-eq-some {ℓ κ} :
    {A : Type ℓ} {B : Type κ} (m : Option A) (f : A → Option B) {b : B}
    → (m >>= f) ≡ some b
    → (a : A) × (m ≡ some a) × (f a ≡ some b)
>>=-eq-some none f h = ground arith
>>=-eq-some (some a) f h = (a, refl, h)

-- What holds of the result, if there is one.
abbrev pub Holds {ℓ κ} : {A : Type ℓ} → (A → Type κ) → Option A → Type κ
Holds P none = Unit
Holds P (some a) = P a

pub Holds-some {ℓ κ} :
    {A : Type ℓ} (P : A → Type κ) (o : Option A) {a : A} → Holds P o → o ≡ some a → P a
Holds-some P none h e = cc
Holds-some P (some b) h e = subst P (cc e) h

pub Holds->>= {ℓ κ μ} :
    {A : Type ℓ} {B : Type κ} (P : B → Type μ) (m : Option A) (f : A → Option B)
    → ((a : A) → m ≡ some a → Holds P (f a))
    → Holds P (m >>= f)
Holds->>= P none f h = tt
Holds->>= P (some a) f h = h a refl

pub Holds-if {ℓ κ} :
    {A : Type ℓ} (P : A → Type κ) (b : Bool) (x y : Option A)
    → (b ≡ true → Holds P x)
    → (b ≡ false → Holds P y)
    → Holds P (if b then x else y)
Holds-if P true x y h k = h refl
Holds-if P false x y h k = k refl

pub Holds-map {ℓ κ μ} :
    {A : Type ℓ} {P : A → Type κ} {Q : A → Type μ} (o : Option A)
    → ((a : A) → P a → Q a)
    → Holds P o
    → Holds Q o
Holds-map none h p = tt
Holds-map (some a) h p = h a p
