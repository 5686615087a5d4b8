-- ===== src/Consensus/Rotation/Capacity.antt =====
-- consensus/activeset.go: which active sets can become a validator set.
use dew.Base.{ℕ, ◌+◌, ◌^◌, ◌≤◌, ◌<◌, ◌≡◌, ◌≢◌, ◌↔◌, refl, List, [], ◌∷◌, All, arith, ok}
use dew.Consensus.ValidatorSet.{ValidatorSet, new_validator_set}
use dew.Consensus.ValidatorSet.Spec.{Words, sum_power}
use dew.Consensus.ValidatorSet.Build.{Accepts, new_validator_set_iff}
use dew.Consensus.Rotation.{power_from, to_validators, active_set_to_validator_set}
use dew.Native.Staking.{Staking, StakingConfig, delegated_total}
use dew.Native.Staking.ActiveSet.{Candidate, active_set}
use dew.Native.Staking.Ranking.{Eligible, active_set-Ranked, min_self_stake-le-power}

pub to_validators-Words : (cs : List Candidate) → Words (to_validators cs)
unfolding to_validators power_from
to_validators-Words [] = tt
to_validators-Words (c ∷ cs) = ground (arith, to_validators-Words cs)

no_validators : (vs : ValidatorSet) → new_validator_set [] ≡ ok vs → ⊥
no_validators vs h = ((new_validator_set_iff [] tt).0 (vs, h)).nonempty refl

-- An active set becomes a validator set exactly when its validators, with their powers cut down to
-- uint64, are at least one, have distinct addresses, and have powers whose sum is a uint64.
pub rotation_iff :
    (cs : List Candidate)
    → ((vs : ValidatorSet) × (active_set_to_validator_set cs ≡ ok vs)) ↔ Accepts (to_validators cs)
unfolding active_set_to_validator_set
rotation_iff [] = (λ (vs, h). cc, λ a. absurd (a.nonempty (unfold to_validators in refl)))
rotation_iff (c ∷ cs) =
    new_validator_set_iff (to_validators (c ∷ cs)) (to_validators-Words (c ∷ cs))

-- The power that a candidate adds is above half of what a uint64 holds.
large :
    (c : Candidate) (cs : List Candidate)
    → c.address ≢ 0
    → 2 ^ 63 ≤ c.voting_power
    → 2 ^ 63 + sum_power (to_validators cs) ≤ sum_power (to_validators (c ∷ cs))
unfolding to_validators power_from sum_power
large c cs named h = ground arith

-- While each member of the active set is to have a self-stake of at least 2^63 wei, and no sum of
-- stakes wraps, an active set of two or more never becomes a validator set.
pub large_stakes_never_rotate :
    (cfg : StakingConfig) (s : Staking) (c d : Candidate) (cs : List Candidate) (vs : ValidatorSet)
    → active_set cfg s ≡ c ∷ d ∷ cs
    → 2 ^ 63 ≤ cfg.min_self_stake
    → ((a : ℕ) → s.self_stake a + delegated_total s a < 2 ^ 256)
    → active_set_to_validator_set (active_set cfg s) ≢ ok vs
large_stakes_never_rotate cfg s c d cs vs active large_min fits h =
    let (members, ranked, capped) = active_set-Ranked cfg s in
    let (in_c, (in_d, rest)) : All (Eligible cfg s) (c ∷ d ∷ cs) = rw active at members in
    let accepts : Accepts (to_validators (c ∷ d ∷ cs)) =
      (rotation_iff (c ∷ d ∷ cs)).0 (vs, rw active at h) in
    omega (
      arith,
      accepts.bounded,
      large c (d ∷ cs) in_c.named
          (omega (arith, min_self_stake-le-power cfg s c (fits c.address) in_c)),
      large d cs in_d.named (omega (arith, min_self_stake-le-power cfg s d (fits d.address) in_d)),
    )
