-- ===== src/Consensus/Rotation.antt =====
-- consensus/activeset.go: the validator set of the next epoch, from the staking module's active set.
pub mod Capacity
pub mod Reference
pub mod Rejoin
mod Examples
use dew.Base.{
  ℕ, ◌-◌, ◌%◌, ◌^◌, Bool, true, false, not, ◌||◌, List, [], ◌∷◌, ltb, ◌==◌, if◌then◌else◌, Result,
  ok, err,
}
use dew.Consensus.ValidatorSet.{Validator, ValidatorSet, SetError, empty_set, new_validator_set}
use dew.Native.Staking.ActiveSet.{Candidate}

-- powerFromU256 saturates.
unfoldable pub power_from : ℕ → ℕ
power_from v = if ltb v (2 ^ 64) then v else 2 ^ 64 - 1

-- The loop over the candidates.
unfoldable pub to_validators : List Candidate → List Validator
to_validators [] = []
to_validators (c ∷ cs) =
    let rest = to_validators cs in
    if c.address == 0 || c.voting_power == 0
    then rest
    else if power_from c.voting_power == 0
    then rest
    else record { address = c.address; power = power_from c.voting_power } ∷ rest

-- ActiveSetToValidatorSet
unfoldable pub active_set_to_validator_set : List Candidate → Result SetError ValidatorSet
active_set_to_validator_set [] = err empty_set
active_set_to_validator_set (c ∷ cs) = new_validator_set (to_validators (c ∷ cs))

-- ShouldRotateEpoch
unfoldable pub should_rotate_epoch : ℕ → ℕ → Bool
should_rotate_epoch height epoch_length =
    if epoch_length == 0 || height == 0 then false else height % epoch_length == 0
