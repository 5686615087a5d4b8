-- ===== src/Consensus/ValidatorSet/Lookup.antt =====
-- consensus/validator.go: Get and PowerOf on a valid set.
use dew.Base.{
  ℕ, ◌+◌, ◌≡◌, refl, ◌≢◌, Option, none, some, List, [], ◌∷◌, ◌==◌, All, arith, get_elem?,
}
use dew.Consensus.ValidatorSet.{Validator, ValidatorSet, get, power_of}
use dew.Consensus.ValidatorSet.Spec.{power_where, find, position, Distinct, IsValid}
use dew.Consensus.ValidatorSet.Sorting.{Distinct-of_Ascending}

-- What `position` counts from.
position-suc :
    (i a : ℕ) (vs : List Validator)
    → position (i + 1) a vs ≡ elim (position i a vs) [ some j ↦ some (j + 1) | none ↦ none ]
unfolding position
position-suc i a [] = refl
position-suc i a (v ∷ vs) = ground (arith, position-suc (i + 1) a vs)

abbrev at : List Validator → Option ℕ → Option Validator
at vs none = none
at vs (some i) = get_elem? vs i

at-suc :
    (v : Validator) (vs : List Validator) (o : Option ℕ)
    → at (v ∷ vs) (elim o [ some j ↦ some (j + 1) | none ↦ none ]) ≡ at vs o
at-suc v vs none = refl
at-suc v vs (some j) = ground arith

at-position : (a : ℕ) (vs : List Validator) → at vs (position 0 a vs) ≡ find a vs
unfolding position find
at-position a [] = refl
at-position a (v ∷ vs) =
    ground (arith, position-suc 0 a vs, at-suc v vs (position 0 a vs), at-position a vs)

-- On a valid set, Get finds the one validator with the address, and nothing for any other address.
pub get-eq-find : (vs : ValidatorSet) (a : ℕ) → IsValid vs → get vs a ≡ find a vs.validators
unfolding get
get-eq-find vs a valid = ground (arith, valid.indexed a, at-position a vs.validators)

power_where-absent :
    (a : ℕ) (vs : List Validator) → All (λ w. a ≢ w.address) vs → power_where (λ b. b == a) vs ≡ 0
unfolding power_where
power_where-absent a [] h = refl
power_where-absent a (v ∷ vs) h = ground (arith, power_where-absent a vs h.1)

abbrev power_or_zero : Option Validator → ℕ
power_or_zero none = 0
power_or_zero (some v) = v.power

power-find :
    (a : ℕ) (vs : List Validator)
    → Distinct vs
    → power_or_zero (find a vs) ≡ power_where (λ b. b == a) vs
unfolding find power_where
power-find a [] h = refl
power-find a (v ∷ vs) h = ground (arith, power-find a vs h.1, power_where-absent v.address vs h.0)

pub power_of-eq-power_where :
    (vs : ValidatorSet) (a : ℕ)
    → IsValid vs
    → power_of vs a ≡ power_where (λ b. b == a) vs.validators
unfolding power_of
power_of-eq-power_where vs a valid = ground (
  arith,
  get-eq-find vs a valid,
  power-find a vs.validators (Distinct-of_Ascending vs.validators valid.ascending),
)
