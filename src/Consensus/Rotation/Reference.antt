-- ===== src/Consensus/Rotation/Reference.antt =====
-- consensus/activeset.go: the validator set of the next epoch, described over the candidates.
use dew.Base.{
  ◌-◌, ◌^◌, ◌≡◌, ◌↔◌, refl, Bool, not, ◌&&◌, ltb, ◌==◌, if◌then◌else◌, List, [], ◌∷◌, map, arith,
  ok,
}
use mathlib.Core.List.{Perm}
use dew.Consensus.ValidatorSet.{Validator, ValidatorSet}
use dew.Consensus.ValidatorSet.Spec.{IsValid}
use dew.Consensus.ValidatorSet.Build.{Accepts, new_validator_set-IsValid}
use dew.Consensus.Rotation.{power_from, to_validators, active_set_to_validator_set}
use dew.Consensus.Rotation.Capacity.{to_validators-Words, rotation_iff}
use dew.Native.Staking.ActiveSet.{Candidate}

-- A candidate with a name and with power.
abbrev pub takes_part : Candidate → Bool
takes_part c = not (c.address == 0) && not (c.voting_power == 0)

-- Its power, or the greatest uint64 where that is less.
abbrev pub validator_of : Candidate → Validator
validator_of c = record {
  address = c.address;
  power = if ltb (2 ^ 64 - 1) c.voting_power then 2 ^ 64 - 1 else c.voting_power;
}

-- The elements that pass the test.
unfoldable pub only {ℓ} : {A : Type ℓ} → (A → Bool) → List A → List A
only test [] = []
only test (x ∷ xs) = let rest = only test xs in if test x then x ∷ rest else rest

abbrev pub expected : List Candidate → List Validator
expected cs = map validator_of (only takes_part cs)

to_validators-eq-expected : (cs : List Candidate) → to_validators cs ≡ expected cs
unfolding to_validators power_from only
to_validators-eq-expected [] = refl
to_validators-eq-expected (c ∷ cs) = ground (arith, to_validators-eq-expected cs)

rotated :
    (cs : List Candidate) (vs : ValidatorSet)
    → active_set_to_validator_set cs ≡ ok vs
    → IsValid vs × Perm vs.validators (to_validators cs)
unfolding active_set_to_validator_set
rotated [] vs made = absurd cc
rotated (c ∷ cs) vs made = new_validator_set-IsValid _ vs (to_validators-Words (c ∷ cs)) made

-- The candidates that have an address and a power that are not zero are at least one, have distinct
-- addresses, and have powers, each cut down to the greatest uint64 where it is above that, whose sum
-- is a uint64, exactly when ActiveSetToValidatorSet gives a set; that set is then valid, and its
-- validators are those candidates with those powers, in some order.
pub active_set_to_validator_set_lem :
    (cs : List Candidate)
    → Accepts (expected cs) ↔ (
        (vs : ValidatorSet) × (active_set_to_validator_set cs ≡ ok vs)
        × IsValid vs
        × Perm vs.validators (expected cs))
active_set_to_validator_set_lem cs = (made, λ r. rw same at ((rotation_iff cs).0 (r.0, r.1)))
  where
    same : to_validators cs ≡ expected cs
    same = to_validators-eq-expected cs

    made :
        Accepts (expected cs)
        → (vs : ValidatorSet) × (active_set_to_validator_set cs ≡ ok vs)
          × IsValid vs
          × Perm vs.validators (expected cs)
    made accepted =
        let (vs, done) = (rotation_iff cs).1 (rw same accepted) in
        let (valid, perm) = rotated cs vs done in (vs, done, valid, rw same at perm)
