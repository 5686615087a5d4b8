-- ===== src/Consensus/ValidatorSet/Examples.antt =====
-- consensus/validator.go at concrete sets.
use mathlib.Core.List.{Perm}
use dew.Base.{
  ◌-◌, ◌^◌, ◌≡◌, ◌↔◌, refl, inr, true, false, ◌==◌, [], ◌∷◌, ok, err, u64, arith, insert, lookup,
}
use dew.Base.Tally.{tally}
use dew.Consensus.ValidatorSet.{
  ValidatorSet, SetError, new_validator_set, sort_validators, insert_sorted, index_validators,
  finish_set, power_of, has_quorum,
}
use dew.Consensus.ValidatorSet.Toy.{validator, two, two_set, made, words, two_set-IsValid}
use dew.Consensus.ValidatorSet.Spec.{sum_power, power_where, IsValid}
use dew.Consensus.ValidatorSet.Build.{Accepts, new_validator_set-IsValid, new_validator_set_iff}
use dew.Consensus.ValidatorSet.Lookup.{power_of-eq-power_where}
use dew.Consensus.ValidatorSet.Quorum.{has_quorum_overflow}
use dew.Consensus.ValidatorSet.Proposer.{proposes, proposes_fairly}

-- The same address twice.
duplicate :
    new_validator_set (validator 7 1 ∷ validator 7 2 ∷ []) ≡ err SetError.duplicate_validator
unfolding new_validator_set sort_validators insert_sorted index_validators finish_set u64 insert
    lookup
duplicate = refl

new_validator_set-IsValid_example : IsValid two_set × Perm two_set.validators two
new_validator_set-IsValid_example = new_validator_set-IsValid two two_set words made

new_validator_set_iff_example :
    ((vs : ValidatorSet) × (new_validator_set two ≡ ok vs)) ↔ Accepts two
new_validator_set_iff_example = new_validator_set_iff two words

power_of-eq-power_where_example : power_of two_set 3 ≡ power_where (λ b. b == 3) two_set.validators
power_of-eq-power_where_example = power_of-eq-power_where two_set 3 two_set-IsValid

-- The largest uint64.
has_quorum_overflow_example : has_quorum (2 ^ 64 - 1) (2 ^ 64 - 1) ≡ false
has_quorum_overflow_example = has_quorum_overflow (2 ^ 64 - 1) (inr (omega arith, omega arith))

everyone : has_quorum (power_where (λ a. true) two) (sum_power two) ≡ true
unfolding has_quorum power_where sum_power u64
everyone = refl

proposes_fairly_example : tally (proposes two_set 0 3) 10 3 ≡ power_of two_set 3
proposes_fairly_example = proposes_fairly two_set 3 0 10 two_set-IsValid (omega arith)
