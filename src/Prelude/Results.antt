-- ===== src/Prelude/Results.antt =====
-- Results that carry an error, and the sequencing of fallible steps.
use mathlib.Core.Path.{◌≡◌, refl, ap}
use mathlib.Core.Bool.{Bool, true, false}
use mathlib.Core.Option.{Option, none, some}
use mathlib.Core.Logic.{◌⊎◌, inl, inr}

-- A Go call that returns a value and an error.
pub data Result {υ ℓ} (E : Type υ) (A : Type ℓ) : Type (υ ⊔ ℓ) where
  err : E → Result E A
  ok : A → Result E A

-- `if bad { return e }`
abbrev pub refuse {υ} : {E : Type υ} → Bool → E → Result E (Unit {0})
refuse true e = err e
refuse false e = ok tt

abbrev pub or_fail {ℓ υ} : {E : Type υ} {A : Type ℓ} → Option A → E → Result E A
or_fail none e = err e
or_fail (some a) e = ok a

infixl 5 ◌>>=◌
-- `if err != nil { return err }`, then the rest.
abbrev pub ◌>>=◌ {υ ℓ κ} :
    {E : Type υ} {A : Type ℓ} {B : Type κ} → Result E A → (A → Result E B) → Result E B
err bad >>= rest = err bad
ok value >>= rest = rest value

infixl 5 ◌>>◌
-- The same for a call without a value.
abbrev pub ◌>>◌ {υ ℓ} : {E : Type υ} {B : Type ℓ} → Result E (Unit {0}) → Result E B → Result E B
call >> rest = call >>= λ _. rest

-- Inversion of a successful sequence.
pub >>=-eq-ok {ℓ κ υ} :
    {E : Type υ} {A : Type ℓ} {B : Type κ} (call : Result E A) (rest : A → Result E B) {b : B}
    → (call >>= rest) ≡ ok b
    → (a : A) × (call ≡ ok a) × (rest a ≡ ok b)
>>=-eq-ok (err bad) rest h = cc
>>=-eq-ok (ok value) rest h = (value, refl, h)

pub refuse-eq-ok {υ} :
    {E : Type υ} (b : Bool) (e : E) {u : Unit {0}} → refuse b e ≡ ok u → b ≡ false
refuse-eq-ok true e h = cc
refuse-eq-ok false e h = refl

pub ok-injective {ℓ υ} :
    {E : Type υ} {A : Type ℓ} (a b : A) → ◌≡◌ {A = Result E A} (ok a) (ok b) → a ≡ b
ok-injective a b h = cc

pub found_of {ℓ υ} :
    {E : Type υ} {A : Type ℓ} (o : Option A) (e : E) (a : A)
    → ◌≡◌ {A = Result E A} (or_fail o e) (ok a)
    → o ≡ some a
found_of none e a h = cc
found_of (some b) e a h = ap some (ok-injective b a h)

-- Inversion of a sequence that failed.
pub >>=-eq-err {ℓ κ υ} :
    {E : Type υ} {A : Type ℓ} {B : Type κ} (call : Result E A) (rest : A → Result E B) {e : E}
    → (call >>= rest) ≡ err e
    → (call ≡ err e) ⊎ ((a : A) × (call ≡ ok a) × (rest a ≡ err e))
>>=-eq-err (err bad) rest h = inl (cc)
>>=-eq-err (ok value) rest h = inr (value, refl, h)

pub err-injective {ℓ υ} :
    {E : Type υ} {A : Type ℓ} (d e : E) → ◌≡◌ {A = Result E A} (err d) (err e) → d ≡ e
err-injective d e h = cc

pub refuse-eq-err {υ} : {E : Type υ} (b : Bool) (d e : E) → refuse b d ≡ err e → d ≡ e
refuse-eq-err true d e h = err-injective d e h
refuse-eq-err false d e h = cc
