-- ===== src/Consensus/ValidatorSet/Spec.antt =====
-- What a validator set means, over the plain list of its validators.
use dew.Base.{
  ℕ, ◌+◌, ◌^◌, ◌<◌, ◌≡◌, ◌≢◌, Bool, Option, none, some, List, [], ◌∷◌, ◌==◌, if◌then◌else◌, All,
  lookup,
}
use dew.Consensus.ValidatorSet.{Validator, ValidatorSet}

-- The power of all listed validators, with no wrap-around.
unfoldable pub sum_power : List Validator → ℕ
sum_power [] = 0
sum_power (v ∷ vs) = v.power + sum_power vs

-- The power of those whose address passes the test.
unfoldable pub power_where : (ℕ → Bool) → List Validator → ℕ
power_where p [] = 0
power_where p (v ∷ vs) = (if p v.address then v.power else 0) + power_where p vs

unfoldable pub find : ℕ → List Validator → Option Validator
find a [] = none
find a (v ∷ vs) = if v.address == a then some v else find a vs

unfoldable pub position : ℕ → ℕ → List Validator → Option ℕ
position i a [] = none
position i a (v ∷ vs) = if v.address == a then some i else position (i + 1) a vs

abbrev pub Ascending : List Validator → Type 0
Ascending [] = Unit
Ascending (v ∷ vs) = All (λ w. v.address < w.address) vs × Ascending vs

abbrev pub Distinct : List Validator → Type 0
Distinct [] = Unit
Distinct (v ∷ vs) = All (λ w. v.address ≢ w.address) vs × Distinct vs

abbrev pub Positive : List Validator → Type 0
Positive = All λ v. 0 < v.power

-- A power is a uint64 in the source.
abbrev pub Words : List Validator → Type 0
Words = All λ v. v.power < 2 ^ 64

pub record IsValid (vs : ValidatorSet) : Type 0 where
  pub nonempty : vs.validators ≢ []
  pub ascending : Ascending vs.validators
  pub positive : Positive vs.validators
  pub total : vs.total_power ≡ sum_power vs.validators
  pub bounded : sum_power vs.validators < 2 ^ 64
  pub indexed : (a : ℕ) → lookup a vs.index ≡ position 0 a vs.validators
