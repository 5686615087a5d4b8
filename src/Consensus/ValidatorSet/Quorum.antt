-- ===== src/Consensus/ValidatorSet/Quorum.antt =====
-- consensus/validator.go: HasQuorum, where it is the two-thirds rule and where it overflows.
use dew.Base.{
  ℕ, ◌+◌, ◌*◌, ◌^◌, ◌≤◌, ◌<◌, ◌≡◌, ◌⊎◌, ◌↔◌, ◌&&◌, Bool, true, false, List, [], ◌∷◌, arith, u64,
}
use dew.Consensus.ValidatorSet.{Validator, has_quorum}
use dew.Consensus.ValidatorSet.Spec.{sum_power, power_where}

-- For a power of at most the total, while three times the total is a uint64, HasQuorum is exactly
-- "more than two thirds".
pub has_quorum_iff :
    (vote total : ℕ)
    → vote ≤ total
    → total * 3 < 2 ^ 64
    → (has_quorum vote total ≡ true) ↔ (2 * total < 3 * vote)
unfolding has_quorum u64
has_quorum_iff vote total h fits = ground arith

-- Where three times the total overflows once and twice the total does not, or where both overflow
-- and the first does so twice, even the votes of the whole set are no quorum.
pub has_quorum_overflow :
    (total : ℕ)
    → ((2 ^ 64 ≤ 3 * total) × (total < 2 ^ 63)) ⊎ ((2 ^ 65 ≤ 3 * total) × (total < 2 ^ 64))
    → has_quorum total total ≡ false
unfolding has_quorum u64
has_quorum_overflow total h = ground arith

pub has_quorum-zero : (total : ℕ) → has_quorum 0 total ≡ false
unfolding has_quorum u64
has_quorum-zero total = ground arith

pub power_where-le : (p : ℕ → Bool) (vs : List Validator) → power_where p vs ≤ sum_power vs
unfolding power_where sum_power
power_where-le p [] = omega arith
power_where-le p (v ∷ vs) = ground (arith, power_where-le p vs)

-- Two groups of validators share what their powers exceed the total by.
pub power_where-both :
    (p q : ℕ → Bool) (vs : List Validator)
    → power_where p vs + power_where q vs ≤ sum_power vs + power_where (λ a. p a && q a) vs
unfolding power_where sum_power
power_where-both p q [] = omega arith
power_where-both p q (v ∷ vs) = ground (arith, power_where-both p q vs)

-- While three times the total power is a uint64, any two groups that pass HasQuorum share
-- validators with more than a third of the power.
pub quorum_intersection :
    (vs : List Validator) (p q : ℕ → Bool)
    → sum_power vs * 3 < 2 ^ 64
    → has_quorum (power_where p vs) (sum_power vs) ≡ true
    → has_quorum (power_where q vs) (sum_power vs) ≡ true
    → sum_power vs < 3 * power_where (λ a. p a && q a) vs
quorum_intersection vs p q fits hp hq = omega (
  arith,
  power_where-both p q vs,
  (has_quorum_iff _ _ (power_where-le p vs) fits).0 hp,
  (has_quorum_iff _ _ (power_where-le q vs) fits).0 hq,
)
