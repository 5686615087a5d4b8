-- ===== src/Consensus/Rotation/Rejoin.antt =====
-- consensus/activeset.go: a validator that left the candidates and joined again blocks the rotation.
use dew.Base.{
  ℕ, ◌+◌, ◌-◌, ◌^◌, ◌≤◌, ◌<◌, ◌≡◌, ◌≢◌, refl, ◌==◌, if◌then◌else◌, none, List, [], ◌∷◌, All, arith,
  ok,
}
use dew.Consensus.ValidatorSet.{Address, Validator, ValidatorSet}
use dew.Consensus.ValidatorSet.Spec.{Distinct}
use dew.Consensus.Rotation.{power_from, to_validators, active_set_to_validator_set}
use dew.Consensus.Rotation.Capacity.{rotation_iff}
use dew.Native.Staking.{Staking, StakingConfig, bond, unbond, delegated_total}
use dew.Native.Staking.ActiveSet.{Candidate, active_set}
use dew.Native.Staking.Ranking.{Eligible, active_set-Ranked}
use dew.Native.Staking.Rejoin.{times, active_set-lists_twice, rejoin}

unfoldable pub validator_times : Address → List Validator → ℕ
validator_times a [] = 0
validator_times a (v ∷ vs) = (if v.address == a then 1 else 0) + validator_times a vs

times-to_validators :
    (cfg : StakingConfig) (s : Staking) (a : Address) (cs : List Candidate)
    → All (Eligible cfg s) cs
    → validator_times a (to_validators cs) ≡ times a cs
unfolding validator_times to_validators power_from times
times-to_validators cfg s a [] e = refl
times-to_validators cfg s a (c ∷ cs) e =
    ground (arith, e.0.named, e.0.positive, times-to_validators cfg s a cs e.1)

times_absent :
    (a : Address) (vs : List Validator) → All (λ w. a ≢ w.address) vs → validator_times a vs ≡ 0
unfolding validator_times
times_absent a [] h = refl
times_absent a (v ∷ vs) h = ground (arith, h.0, times_absent a vs h.1)

times-Distinct : (a : Address) (vs : List Validator) → Distinct vs → validator_times a vs ≤ 1
unfolding validator_times
times-Distinct a [] d = omega arith
times-Distinct a (v ∷ vs) d = ground (arith, times-Distinct a vs d.1, times_absent v.address vs d.0)

twice_never_rotates :
    (cfg : StakingConfig) (s : Staking) (a : Address) (vs : ValidatorSet)
    → 2 ≤ times a (active_set cfg s)
    → active_set_to_validator_set (active_set cfg s) ≢ ok vs
twice_never_rotates cfg s a vs twice h =
    let (members, ranked, capped) = active_set-Ranked cfg s in
    let accepts = (rotation_iff (active_set cfg s)).0 (vs, h) in
    absurd (
      omega (
        arith,
        twice,
        times-to_validators cfg s a (active_set cfg s) members,
        times-Distinct a (to_validators (active_set cfg s)) accepts.distinct,
      ))

-- A listed validator unbonds until it is below the least self-stake, and bonds enough again. While
-- the cap has room for all listed and nothing wraps, the active set does not become a validator set
-- after that.
pub rejoin_blocks_rotation :
    (cfg : StakingConfig) (s : Staking) (a : Address) (x y now i : ℕ) (vs : ValidatorSet)
    → a ≢ 0
    → s.candidate_at i ≡ a
    → i < s.candidate_count
    → s.candidate_count + 1 < 2 ^ 64
    → s.candidate_count + 1 ≤ cfg.active_cap
    → (unbond cfg a x now s).1 ≡ none
    → s.self_stake a < 2 ^ 256
    → s.self_stake a - x < cfg.min_self_stake
    → cfg.min_self_stake ≤ s.self_stake a - x + y
    → y ≢ 0
    → s.self_stake a - x + y + delegated_total s a < 2 ^ 256
    → active_set_to_validator_set (active_set cfg (bond cfg a y (unbond cfg a x now s).0).0) ≢ ok vs
rejoin_blocks_rotation cfg s a x y now i vs named at_i lt room cap done bounded low enough
      some_amount fits =
    let s' : Staking = (bond cfg a y (unbond cfg a x now s).0).0 in
    let r = rejoin cfg s a x y now i named at_i lt room done bounded low enough some_amount fits in
    twice_never_rotates cfg s' a vs (
      active_set-lists_twice cfg s' a r.eligible i s.candidate_count lt (omega (arith, r.count))
        (omega (arith, r.count)) (omega (arith, r.count)) r.first r.second)
