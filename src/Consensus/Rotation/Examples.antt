-- ===== src/Consensus/Rotation/Examples.antt =====
-- consensus/activeset.go at concrete active sets.
use dew.Base.{ℕ, ◌+◌, ◌^◌, ◌<◌, ◌≡◌, ◌≢◌, ◌↔◌, refl, List, none, arith, [], ◌∷◌, ok, u64, u256}
use dew.Consensus.ValidatorSet.{ValidatorSet}
use mathlib.Core.List.{Perm}
use dew.Consensus.ValidatorSet.Spec.{IsValid}
use dew.Consensus.ValidatorSet.Build.{Accepts}
use dew.Consensus.ValidatorSet.Toy.{two_set}
use dew.Consensus.Rotation.{active_set_to_validator_set}
use dew.Consensus.Rotation.Reference.{expected, active_set_to_validator_set_lem}
use dew.Consensus.Rotation.Rejoin.{rejoin_blocks_rotation}
use dew.Consensus.Rotation.Capacity.{large_stakes_never_rotate}
use dew.Native.Staking.{bond, unbond, voting_power, shares_to_wei, delegated_total}
use dew.Native.Staking.ActiveSet.{
  Candidate, active_set, collect, is_eligible, rank_candidates, insert_ranked, ranks_before,
}
use dew.Native.Staking.Toy.{config, two_staked}

abbrev candidate : ℕ → ℕ → Candidate
candidate address power = record { address = address; voting_power = power }

-- The first power is above a uint64 and alone; the second candidate has none.
abbrev one_large : List Candidate
one_large = candidate 7 (2 ^ 70) ∷ candidate 3 0 ∷ []

active_set_to_validator_set_lem_example : Accepts (expected one_large) ↔ (
    (vs : ValidatorSet) × (active_set_to_validator_set one_large ≡ ok vs)
    × IsValid vs
    × Perm vs.validators (expected one_large))
active_set_to_validator_set_lem_example = active_set_to_validator_set_lem one_large

active : active_set config two_staked ≡ candidate 3 (2 ^ 64) ∷ candidate 7 (2 ^ 64) ∷ []
unfolding active_set collect is_eligible rank_candidates insert_ranked ranks_before voting_power
    shares_to_wei u64 u256
active = refl

no_wrap : (a : ℕ) → two_staked.self_stake a + delegated_total two_staked a < 2 ^ 256
unfolding shares_to_wei
no_wrap a = ground arith

large_stakes_never_rotate_example :
    active_set_to_validator_set (active_set config two_staked) ≢ ok two_set
large_stakes_never_rotate_example =
    large_stakes_never_rotate config two_staked (candidate 3 (2 ^ 64)) (candidate 7 (2 ^ 64)) []
      two_set active (omega arith) no_wrap

unbonded : (unbond config 7 10 0 two_staked).1 ≡ none
unfolding unbond
unbonded = refl

rejoin_blocks_rotation_example :
    active_set_to_validator_set
      (active_set config (bond config 7 10 (unbond config 7 10 0 two_staked).0).0)
    ≢ ok two_set
rejoin_blocks_rotation_example =
    rejoin_blocks_rotation config two_staked 7 10 10 0 0 two_set (omega arith) refl (omega arith)
      (omega arith) (omega arith) unbonded (omega arith) (omega arith) (omega arith) (omega arith)
      (no_wrap 7)
