-- ===== src/Prelude/Except.antt =====
-- The result of code that may throw: a value, or what was thrown.
use mathlib.Core.Path.{◌≡◌, refl}
use mathlib.Core.Bool.{Bool, true, false}

pub data Except {ℓ} (E : Type 0) (A : Type ℓ) : Type ℓ where
  ok : A → Except E A
  throw : E → Except E A

infixl 5 ◌>>=◌ ◌>>◌
-- `if (bad) throw e;`
abbrev pub throw_if : {E : Type 0} → Bool → E → Except E (Unit {0})
throw_if true e = throw e
throw_if false e = ok tt

abbrev pub ◌>>=◌ {ℓ κ} :
    {E : Type 0} {A : Type ℓ} {B : Type κ} → Except E A → (A → Except E B) → Except E B
throw thrown >>= next = throw thrown
ok value >>= next = next value

-- A chain that succeeds: its first part did, and the rest on the value.
pub >>=-eq-ok {ℓ κ} :
    {E : Type 0} {A : Type ℓ} {B : Type κ} (first : Except E A) (next : A → Except E B) {result : B}
    → (first >>= next) ≡ ok result
    → (value : A) × (first ≡ ok value) × (next value ≡ ok result)
>>=-eq-ok (throw thrown) next whole = cc
>>=-eq-ok (ok value) next whole = (value, refl, whole)

abbrev pub ◌>>◌ {ℓ} : {E : Type 0} {B : Type ℓ} → Except E (Unit {0}) → Except E B → Except E B
check >> rest = check >>= λ _. rest

pub throw_if-eq-ok {ℓ} :
    {E : Type 0} {B : Type ℓ} (bad : Bool) (e : E) (rest : Except E B) {result : B}
    → (throw_if bad e >> rest) ≡ ok result
    → (bad ≡ false) × (rest ≡ ok result)
throw_if-eq-ok true e rest whole = cc
throw_if-eq-ok false e rest whole = (refl, whole)
