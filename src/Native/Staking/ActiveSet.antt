-- ===== src/Native/Staking/ActiveSet.antt =====
-- core/native/staking.go: the candidates that are active, by voting power.
use dew.Base.{
  ℕ, ◌+◌, zero, suc, Bool, not, ◌&&◌, List, [], ◌∷◌, ltb, ◌==◌, if◌then◌else◌, u64, take,
}
use dew.Consensus.ValidatorSet.{Address}
use dew.Native.Staking.{Staking, StakingConfig, is_candidate, is_jailed, voting_power}

pub record Candidate : Type 0 where
  pub address : Address
  pub voting_power : ℕ

-- Whether a listed address takes part.
unfoldable pub is_eligible : StakingConfig → Staking → Address → Bool
is_eligible cfg s a =
    not (a == 0)
    && (is_candidate s a && not (is_jailed s a))
    && not (ltb (s.self_stake a) cfg.min_self_stake)
    && not (voting_power s a == 0)

-- The loop over the candidate list, with `n` entries left from position `i`.
unfoldable pub collect : StakingConfig → Staking → ℕ → ℕ → List Candidate
collect cfg s zero i = []
collect cfg s (suc n) i =
    let a = s.candidate_at i in
    let rest = collect cfg s n (i + 1) in
    if is_eligible cfg s a
    then record { address = a; voting_power = voting_power s a } ∷ rest
    else rest

-- Whether the first comes before the second: by power, then by address.
unfoldable pub ranks_before : Candidate → Candidate → Bool
ranks_before c d =
    if c.voting_power == d.voting_power
    then ltb c.address d.address
    else ltb d.voting_power c.voting_power

unfoldable pub insert_ranked : Candidate → List Candidate → List Candidate
insert_ranked c [] = c ∷ []
insert_ranked c (d ∷ ds) = if ranks_before d c then d ∷ insert_ranked c ds else c ∷ d ∷ ds

unfoldable pub rank_candidates : List Candidate → List Candidate
rank_candidates [] = []
rank_candidates (c ∷ cs) = insert_ranked c (rank_candidates cs)

-- ActiveSet
unfoldable pub active_set : StakingConfig → Staking → List Candidate
active_set cfg s = take cfg.active_cap (rank_candidates (collect cfg s (u64 s.candidate_count) 0))
