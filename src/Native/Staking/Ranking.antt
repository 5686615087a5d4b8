-- ===== src/Native/Staking/Ranking.antt =====
-- core/native/staking.go: what ActiveSet returns.
use dew.Base.{
  ℕ, zero, suc, ◌+◌, ◌^◌, ◌≤◌, ◌<◌, ◌≡◌, ◌≢◌, true, false, List, [], ◌∷◌, All, arith, u64, u256,
  take, length, Bool-cases, inl, inr,
}
use dew.Consensus.ValidatorSet.{Address}
use dew.Native.Staking.{
  Staking, StakingConfig, is_candidate, is_jailed, voting_power, delegated_total,
}
use dew.Native.Staking.ActiveSet.{
  Candidate, is_eligible, collect, ranks_before, insert_ranked, rank_candidates, active_set,
}

-- A member of the active set, at its current voting power.
pub record Eligible (cfg : StakingConfig) (s : Staking) (c : Candidate) : Type 0 where
  pub registered : is_candidate s c.address ≡ true
  pub free : is_jailed s c.address ≡ false
  pub staked : cfg.min_self_stake ≤ s.self_stake c.address
  pub named : c.address ≢ 0
  pub power : c.voting_power ≡ voting_power s c.address
  pub positive : c.voting_power ≢ 0

-- No candidate ranks before one that is listed earlier.
abbrev pub Ranked : List Candidate → Type 0
Ranked [] = Unit
Ranked (c ∷ cs) = All (λ d. ranks_before d c ≡ false) cs × Ranked cs

eligible :
    (cfg : StakingConfig) (s : Staking) (a : Address)
    → is_eligible cfg s a ≡ true
    → Eligible cfg s (record { address = a; voting_power = voting_power s a })
unfolding is_eligible
eligible cfg s a h = ground arith

collect-Eligible :
    (cfg : StakingConfig) (s : Staking) (n i : ℕ) → All (Eligible cfg s) (collect cfg s n i)
unfolding collect
collect-Eligible cfg s zero i = tt
collect-Eligible cfg s (suc n) i = elim (Bool-cases (is_eligible cfg s (s.candidate_at i))) [
  | inl e ↦ rw e (eligible cfg s (s.candidate_at i) e, collect-Eligible cfg s n (i + 1))
  | inr e ↦ rw e (collect-Eligible cfg s n (i + 1))
]

All-insert_ranked {ℓ} :
    (P : Candidate → Type ℓ) (c : Candidate) (cs : List Candidate)
    → P c
    → All P cs
    → All P (insert_ranked c cs)
unfolding insert_ranked
All-insert_ranked P c [] p a = (p, tt)
All-insert_ranked P c (d ∷ ds) p a = elim (Bool-cases (ranks_before d c)) [
  | inl e ↦ rw e (a.0, All-insert_ranked P c ds p a.1)
  | inr e ↦ rw e (p, a)
]

All-rank {ℓ} :
    (P : Candidate → Type ℓ) (cs : List Candidate) → All P cs → All P (rank_candidates cs)
unfolding rank_candidates
All-rank P [] a = tt
All-rank P (c ∷ cs) a = All-insert_ranked P c (rank_candidates cs) a.0 (All-rank P cs a.1)

not_before : (c d : Candidate) → ranks_before d c ≡ true → ranks_before c d ≡ false
unfolding ranks_before
not_before c d h = ground arith

none_before :
    (c d : Candidate) (ds : List Candidate)
    → ranks_before d c ≡ false
    → All (λ x. ranks_before x d ≡ false) ds
    → All (λ x. ranks_before x c ≡ false) ds
unfolding ranks_before
none_before c d [] h a = tt
none_before c d (x ∷ xs) h a = (ground (arith, a.0), none_before c d xs h a.1)

insert_ranked-Ranked :
    (c : Candidate) (cs : List Candidate) → Ranked cs → Ranked (insert_ranked c cs)
unfolding insert_ranked
insert_ranked-Ranked c [] r = (tt, tt)
insert_ranked-Ranked c (d ∷ ds) r = elim (Bool-cases (ranks_before d c)) [
  | inl e ↦ rw e (
    All-insert_ranked (λ x. ranks_before x d ≡ false) c ds (not_before c d e) r.0,
    insert_ranked-Ranked c ds r.1,
  )
  | inr e ↦ rw e ((e, none_before c d ds e r.0), r)
]

rank-Ranked : (cs : List Candidate) → Ranked (rank_candidates cs)
unfolding rank_candidates
rank-Ranked [] = tt
rank-Ranked (c ∷ cs) = insert_ranked-Ranked c (rank_candidates cs) (rank-Ranked cs)

All-take {ℓ} : (P : Candidate → Type ℓ) (n : ℕ) (cs : List Candidate) → All P cs → All P (take n cs)
All-take P zero cs a = tt
All-take P (suc n) [] a = tt
All-take P (suc n) (c ∷ cs) a = (a.0, All-take P n cs a.1)

take-Ranked : (n : ℕ) (cs : List Candidate) → Ranked cs → Ranked (take n cs)
take-Ranked zero cs r = tt
take-Ranked (suc n) [] r = tt
take-Ranked (suc n) (c ∷ cs) r =
    (All-take (λ d. ranks_before d c ≡ false) n cs r.0, take-Ranked n cs r.1)

length-take : (n : ℕ) (cs : List Candidate) → length (take n cs) ≤ n
length-take zero cs = omega arith
length-take (suc n) [] = omega arith
length-take (suc n) (c ∷ cs) = omega (arith, length-take n cs)

pub active_set-Ranked :
    (cfg : StakingConfig) (s : Staking)
    → All (Eligible cfg s) (active_set cfg s)
      × Ranked (active_set cfg s)
      × (length (active_set cfg s) ≤ cfg.active_cap)
unfolding active_set
active_set-Ranked cfg s =
    let found = collect cfg s (u64 s.candidate_count) 0 in
    (
      All-take (Eligible cfg s) cfg.active_cap (rank_candidates found)
          (All-rank (Eligible cfg s) found (collect-Eligible cfg s (u64 s.candidate_count) 0)),
      take-Ranked cfg.active_cap (rank_candidates found) (rank-Ranked found),
      length-take cfg.active_cap (rank_candidates found),
    )

-- A member's power is at least the least self-stake, where no sum of stakes wraps.
pub min_self_stake-le-power :
    (cfg : StakingConfig) (s : Staking) (c : Candidate)
    → s.self_stake c.address + delegated_total s c.address < 2 ^ 256
    → Eligible cfg s c
    → cfg.min_self_stake ≤ c.voting_power
unfolding voting_power u256
min_self_stake-le-power cfg s c fits e = ground (arith, e.registered, e.free, e.staked, e.power)
