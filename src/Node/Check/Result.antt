-- ===== src/Node/Check/Result.antt =====
-- node/msg_validation.go: how a check ends. It panics on a nil pointer, rejects the message, or accepts
-- it with the identifiers of its blocks computed anew, which Go writes into the message.
use ofgp_core.Base.{◌≡◌, refl, ap, Bool, true, false, Option, none, some}

pub data Check {ℓ} (A : Type ℓ) : Type ℓ where
  panics rejected : Check A
  accepted : A → Check A

infixl 5 ◌>>=◌ ◌>>◌
abbrev pub ◌>>=◌ {ℓ κ} : {A : Type ℓ} {B : Type κ} → Check A → (A → Check B) → Check B
panics >>= f = panics
rejected >>= f = rejected
accepted a >>= f = f a

abbrev pub ◌>>◌ {ℓ} : {B : Type ℓ} → Check (Unit {0}) → Check B → Check B
m >> k = m >>= λ _. k

-- `if !b { return false }`.
abbrev pub require : Bool → Check (Unit {0})
require true = accepted tt
require false = rejected

-- What a nil pointer or a failed assertion makes of a value that is needed.
abbrev pub must {ℓ} : {A : Type ℓ} → Option A → Check A
must none = panics
must (some a) = accepted a

-- Inversion of a chain that accepts.
pub >>=-eq-accepted {ℓ κ} :
    {A : Type ℓ} {B : Type κ} (m : Check A) (f : A → Check B) {b : B}
    → (m >>= f) ≡ accepted b
    → (a : A) × (m ≡ accepted a) × (f a ≡ accepted b)
>>=-eq-accepted panics f h = cc
>>=-eq-accepted rejected f h = cc
>>=-eq-accepted (accepted a) f h = (a, refl, h)

pub require-accepted {ℓ} :
    {B : Type ℓ} (t : Bool) (k : Check B) {b : B}
    → (require t >> k) ≡ accepted b
    → (t ≡ true) × (k ≡ accepted b)
require-accepted true k h = (refl, h)
require-accepted false k h = cc

pub must-accepted {ℓ} : {A : Type ℓ} (o : Option A) {a : A} → must o ≡ accepted a → o ≡ some a
must-accepted none h = cc
must-accepted (some b) {a} h = ap some same
  where
    same : b ≡ a
    same = cc h
