-- ===== src/Native/Staking/Rejoin.antt =====
-- core/native/staking.go: a validator that leaves the candidates and joins again is listed twice.
use dew.Base.{
  ℕ, zero, suc, ◌+◌, ◌-◌, ◌^◌, ◌%◌, ◌≤◌, ◌<◌, ◌≡◌, ◌≢◌, refl, sym, ap, ◌∙◌, true, ◌==◌,
  if◌then◌else◌, none, List, [], ◌∷◌, arith, u64, u256, take, length, Bool-cases, inl, inr,
}
use dew.Consensus.ValidatorSet.{Address}
use dew.Native.Staking.{
  Staking, StakingConfig, set, sub256, voting_power, delegated_total, bond, unbond,
  register_candidate, take_stake, queue_unbond, shares_to_wei, del_rate,
}
use dew.Native.Staking.ActiveSet.{
  Candidate, is_eligible, collect, insert_ranked, rank_candidates, active_set,
}

-- How often an address is listed.
unfoldable pub times : Address → List Candidate → ℕ
times a [] = 0
times a (c ∷ cs) = (if c.address == a then 1 else 0) + times a cs

times-insert_ranked :
    (a : Address) (c : Candidate) (cs : List Candidate)
    → times a (insert_ranked c cs) ≡ (if c.address == a then 1 else 0) + times a cs
unfolding insert_ranked times
times-insert_ranked a c [] = refl
times-insert_ranked a c (d ∷ ds) = ground (arith, times-insert_ranked a c ds)

times-rank : (a : Address) (cs : List Candidate) → times a (rank_candidates cs) ≡ times a cs
unfolding rank_candidates times
times-rank a [] = refl
times-rank a (c ∷ cs) =
    times-insert_ranked a c (rank_candidates cs)
    ∙ ap (λ t. (if c.address == a then 1 else 0) + t) (times-rank a cs)

length-insert_ranked :
    (c : Candidate) (cs : List Candidate) → length (insert_ranked c cs) ≡ length cs + 1
unfolding insert_ranked
length-insert_ranked c [] = refl
length-insert_ranked c (d ∷ ds) = ground (arith, length-insert_ranked c ds)

length-rank : (cs : List Candidate) → length (rank_candidates cs) ≡ length cs
unfolding rank_candidates
length-rank [] = refl
length-rank (c ∷ cs) = omega (arith, length-insert_ranked c (rank_candidates cs), length-rank cs)

take_all : (n : ℕ) (cs : List Candidate) → length cs ≤ n → take n cs ≡ cs
take_all zero [] h = refl
take_all zero (c ∷ cs) h = absurd (omega arith)
take_all (suc n) [] h = refl
take_all (suc n) (c ∷ cs) h = ap (λ ds. c ∷ ds) (take_all n cs (omega arith))

module _ (cfg : StakingConfig) (s : Staking) (a : Address)
    (eligible : is_eligible cfg s a ≡ true) where
  length-collect : (n i : ℕ) → length (collect cfg s n i) ≤ n
  unfolding collect
  length-collect zero i = omega arith
  length-collect (suc n) i = ground (arith, length-collect n (i + 1))

  listed_once :
      (n i j : ℕ) → i ≤ j → j < i + n → s.candidate_at j ≡ a → 1 ≤ times a (collect cfg s n i)
  unfolding collect times
  listed_once zero i j lo hi e = absurd (omega arith)
  listed_once (suc n) i j lo hi e = elim (Bool-cases (i == j)) [
    | inl here ↦
        let same : s.candidate_at i ≡ a = ap s.candidate_at (ground arith) ∙ e in
        let ok_here : is_eligible cfg s (s.candidate_at i) ≡ true =
          ap (is_eligible cfg s) same ∙ eligible in
        rw ok_here (ground (arith, same))
    | inr later ↦ ground (arith, listed_once n (i + 1) j (ground arith) (omega arith) e)
  ]

  listed_twice :
      (n i j k : ℕ)
      → i ≤ j
      → j < k
      → k < i + n
      → s.candidate_at j ≡ a
      → s.candidate_at k ≡ a
      → 2 ≤ times a (collect cfg s n i)
  unfolding collect times
  listed_twice zero i j k lo mid hi e e' = absurd (omega arith)
  listed_twice (suc n) i j k lo mid hi e e' = elim (Bool-cases (i == j)) [
    | inl here ↦
        let same : s.candidate_at i ≡ a = ap s.candidate_at (ground arith) ∙ e in
        let ok_here : is_eligible cfg s (s.candidate_at i) ≡ true =
          ap (is_eligible cfg s) same ∙ eligible in
        let again = listed_once n (i + 1) k (ground arith) (omega arith) e' in
        rw ok_here (ground (arith, same, again))
    | inr later ↦ ground (arith, listed_twice n (i + 1) j k (ground arith) mid (omega arith) e e')
  ]

  pub active_set-lists_twice :
      (j k : ℕ)
      → j < k
      → k < s.candidate_count
      → s.candidate_count < 2 ^ 64
      → s.candidate_count ≤ cfg.active_cap
      → s.candidate_at j ≡ a
      → s.candidate_at k ≡ a
      → 2 ≤ times a (active_set cfg s)
  unfolding active_set u64
  active_set-lists_twice j k lt hi small cap e e' =
      let n : ℕ = s.candidate_count in
      let wrap : n % 2 ^ 64 ≡ n = omega arith in
      let all : take cfg.active_cap (rank_candidates (collect cfg s n 0))
          ≡ rank_candidates (collect cfg s n 0) =
        take_all cfg.active_cap _
          (omega (arith, length-rank (collect cfg s n 0), length-collect n 0)) in
      rw (wrap, all)
        (omega (
          arith,
          times-rank a (collect cfg s n 0),
          listed_twice n 0 j k (omega arith) lt (omega arith) e e',
        ))

-- What Unbond of all but too little, and then Bond, leave of a candidate.
pub record Rejoined (cfg : StakingConfig) (s s' : Staking) (a : Address) (i : ℕ) : Type 0 where
  pub first : s'.candidate_at i ≡ a
  pub second : s'.candidate_at s.candidate_count ≡ a
  pub count : s'.candidate_count ≡ s.candidate_count + 1
  pub eligible : is_eligible cfg s' a ≡ true

-- What an Unbond that succeeds leaves of a validator that falls below the least self-stake.
record Left (s s1 : Staking) (a : Address) (x : ℕ) : Type 0 where
  stake : s1.self_stake a ≡ s.self_stake a - x
  flag : s1.candidate a ≡ 0
  jail : s1.jailed a ≡ 0
  listed : (i : ℕ) → s1.candidate_at i ≡ s.candidate_at i
  count : s1.candidate_count ≡ s.candidate_count
  delegated : delegated_total s1 a ≡ delegated_total s a

unbond-Left :
    (cfg : StakingConfig) (s : Staking) (a : Address) (x now : ℕ)
    → (unbond cfg a x now s).1 ≡ none
    → s.self_stake a < 2 ^ 256
    → s.self_stake a - x < cfg.min_self_stake
    → Left s (unbond cfg a x now s).0 a x
unfolding unbond take_stake queue_unbond set sub256 u256 shares_to_wei del_rate
unbond-Left cfg s a x now done bounded low = record {
  stake = ground arith;
  flag = ground arith;
  jail = ground arith;
  listed = λ i. ground arith;
  count = ground arith;
  delegated = ground arith;
}

-- What a Bond that reaches the least self-stake adds to the list.
record Joined (s1 s2 : Staking) (a : Address) (y : ℕ) : Type 0 where
  stake : s2.self_stake a ≡ s1.self_stake a + y
  flag : s2.candidate a ≡ 1
  jail : s2.jailed a ≡ s1.jailed a
  listed : (i : ℕ) → i < s1.candidate_count → s2.candidate_at i ≡ s1.candidate_at i
  last : s2.candidate_at s1.candidate_count ≡ a
  count : s2.candidate_count ≡ s1.candidate_count + 1
  delegated : delegated_total s2 a ≡ delegated_total s1 a

bond-Joined :
    (cfg : StakingConfig) (s1 : Staking) (a : Address) (y : ℕ)
    → s1.candidate a ≡ 0
    → y ≢ 0
    → s1.self_stake a + y < 2 ^ 256
    → cfg.min_self_stake ≤ s1.self_stake a + y
    → s1.candidate_count + 1 < 2 ^ 64
    → Joined s1 (bond cfg a y s1).0 a y
unfolding bond register_candidate set u256 u64 shares_to_wei del_rate
bond-Joined cfg s1 a y out some_amount fits enough room = record {
  stake = ground arith;
  flag = ground arith;
  jail = ground arith;
  listed = λ i lt. ground arith;
  last = ground arith;
  count = ground arith;
  delegated = ground arith;
}

pub rejoin :
    (cfg : StakingConfig) (s : Staking) (a : Address) (x y now i : ℕ)
    → a ≢ 0
    → s.candidate_at i ≡ a
    → i < s.candidate_count
    → s.candidate_count + 1 < 2 ^ 64
    → (unbond cfg a x now s).1 ≡ none
    → s.self_stake a < 2 ^ 256
    → s.self_stake a - x < cfg.min_self_stake
    → cfg.min_self_stake ≤ s.self_stake a - x + y
    → y ≢ 0
    → s.self_stake a - x + y + delegated_total s a < 2 ^ 256
    → Rejoined cfg s (bond cfg a y (unbond cfg a x now s).0).0 a i
rejoin cfg s a x y now i named at_i lt room done bounded low enough some_amount fits =
    let l = unbond-Left cfg s a x now done bounded low in
    let s1 : Staking = (unbond cfg a x now s).0 in
    let j =
      bond-Joined cfg s1 a y l.flag some_amount (omega (arith, l.stake)) (omega (arith, l.stake))
        (omega (arith, l.count)) in
    let s2 : Staking = (bond cfg a y s1).0 in
    record {
      first = j.listed i (omega (arith, l.count)) ∙ l.listed i ∙ at_i;
      second = ap s2.candidate_at (sym l.count) ∙ j.last;
      count = omega (arith, j.count, l.count);
      eligible =
          unfold is_eligible voting_power u256 in
          ground (arith, j.stake, l.stake, j.flag, j.jail, l.jail, j.delegated, l.delegated);
    }
