-- ===== src/Consensus/ValidatorSet/Toy.antt =====
-- A concrete validator set, to run the code of consensus/ on.
use dew.Base.{ℕ, ◌≡◌, refl, List, [], ◌∷◌, ok, u64, arith, insert, lookup}
use dew.Consensus.ValidatorSet.{
  Validator, ValidatorSet, new_validator_set, sort_validators, insert_sorted, index_validators,
  finish_set,
}
use dew.Consensus.ValidatorSet.Spec.{IsValid, Words}
use dew.Consensus.ValidatorSet.Build.{new_validator_set-IsValid}

abbrev pub validator : ℕ → ℕ → Validator
validator address power = record { address = address; power = power }

abbrev pub two : List Validator
two = validator 7 1 ∷ validator 3 2 ∷ []

abbrev pub two_set : ValidatorSet
two_set = record {
  validators = validator 3 2 ∷ validator 7 1 ∷ [];
  total_power = 3;
  index = (3, 0) ∷ (7, 1) ∷ [];
}

pub made : new_validator_set two ≡ ok two_set
unfolding new_validator_set sort_validators insert_sorted index_validators finish_set u64 insert
    lookup
made = refl

pub words : Words two
words = (omega arith, (omega arith, tt))

pub two_set-IsValid : IsValid two_set
two_set-IsValid = (new_validator_set-IsValid two two_set words made).0
