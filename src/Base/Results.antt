-- ===== src/Base/Results.antt =====
-- A function that returns a value and an error returns a `Result`.
use mathlib.Core.Path.{◌≡◌, refl}
use mathlib.Core.Bool.{Bool, true, false}

pub data Result {e ℓ} (Error : Type e) (Value : Type ℓ) : Type (e ⊔ ℓ) where
  err : Error → Result Error Value
  ok : Value → Result Error Value

-- `if cond { return err }`
abbrev pub fail_if {e} : {Error : Type e} → Bool → Error → Result Error (Unit {0})
fail_if false x = ok tt
fail_if true x = err x

pub ok-injective {e ℓ} :
    {Error : Type e} {Value : Type ℓ} {x y : Value}
    → ◌≡◌ {A = Result Error Value} (ok x) (ok y)
    → x ≡ y
ok-injective same = cc

infixl 5 ◌>>=◌
abbrev pub ◌>>=◌ {e ℓ κ} :
    {Error : Type e} {Value : Type ℓ} {Next : Type κ}
    → Result Error Value
    → (Value → Result Error Next)
    → Result Error Next
err x >>= rest = err x
ok value >>= rest = rest value

-- A chain that succeeds has a first step that succeeds.
pub >>=-eq-ok {e ℓ κ} :
    {Error : Type e} {Value : Type ℓ} {Next : Type κ} (first : Result Error Value)
    (rest : Value → Result Error Next) {end : Next}
    → (first >>= rest) ≡ ok end
    → (value : Value) × (first ≡ ok value) × (rest value ≡ ok end)
>>=-eq-ok (err x) rest h = cc
>>=-eq-ok (ok value) rest h = (value, refl, h)

infixl 5 ◌>>◌
abbrev pub ◌>>◌ {e ℓ} :
    {Error : Type e} {Next : Type ℓ}
    → Result Error (Unit {0})
    → Result Error Next
    → Result Error Next
check >> next = check >>= λ _. next
