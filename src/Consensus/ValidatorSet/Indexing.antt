-- ===== src/Consensus/ValidatorSet/Indexing.antt =====
-- consensus/validator.go: the loop of NewValidatorSet that indexes the validators and sums their power.
use dew.Base.{
  ℕ, ◌+◌, ◌^◌, ◌<◌, ◌≡◌, refl, subst, ◌∙◌, ◌≢◌, inl, inr, none, some, List, [], ◌∷◌, Option-cases,
  All, arith, u64, ok, Dict, lookup, insert, lookup-insert,
}
use dew.Consensus.ValidatorSet.{Validator, index_validators}
use dew.Consensus.ValidatorSet.Spec.{sum_power, position, Distinct, Positive, Words}

-- One round of the loop that goes on.
record Admits (v : Validator) (idx : Dict ℕ) (total : ℕ) : Type 0 where
  pub positive : 0 < v.power
  fresh : lookup v.address idx ≡ none
  pub fits : total + v.power < 2 ^ 64

module _ (i : ℕ) (v : Validator) (vs : List Validator) (idx : Dict ℕ) (total : ℕ) where
  index_step :
      {r : Dict ℕ × ℕ}
      → total < 2 ^ 64
      → v.power < 2 ^ 64
      → index_validators i (v ∷ vs) idx total ≡ ok r
      → Admits v idx total
        × (index_validators (i + 1) vs (insert v.address i idx) (total + v.power) ≡ ok r)
  unfolding index_validators u64
  index_step small word h = elim (Option-cases (lookup v.address idx)) [
    | inl e ↦ ground arith
    | inr (j, e) ↦ absurd (ground arith)
  ]

  index_step_back :
      Admits v idx total
      → index_validators i (v ∷ vs) idx total
        ≡ index_validators (i + 1) vs (insert v.address i idx) (total + v.power)
  unfolding index_validators u64
  index_step_back a = ground arith

-- What the loop has recorded when it ends without an error.
pub record Indexed (i : ℕ) (vs : List Validator) (idx : Dict ℕ) (total : ℕ) (r : Dict ℕ × ℕ)
    : Type 0 where
  pub positive : Positive vs
  pub distinct : Distinct vs
  pub fresh : All (λ v. lookup v.address idx ≡ none) vs
  pub fits : total + sum_power vs < 2 ^ 64
  pub summed : r.1 ≡ total + sum_power vs
  pub found :
      (a : ℕ) → lookup a r.0 ≡ elim (position i a vs) [ some j ↦ some j | none ↦ lookup a idx ]

fresh_below :
    (v : Validator) (i : ℕ) (idx : Dict ℕ) (vs : List Validator)
    → All (λ w. lookup w.address (insert v.address i idx) ≡ none) vs
    → All (λ w. v.address ≢ w.address) vs × All (λ w. lookup w.address idx ≡ none) vs
fresh_below v i idx [] h = (tt, tt)
fresh_below v i idx (w ∷ ws) h =
    let (apart, fresh) = fresh_below v i idx ws h.1 in
    (
      (ground (arith, lookup-insert v.address w.address i idx), apart),
      (ground (arith, lookup-insert v.address w.address i idx), fresh),
    )

position_above :
    (i a : ℕ) (vs : List Validator) → All (λ w. a ≢ w.address) vs → position i a vs ≡ none
unfolding position
position_above i a [] h = refl
position_above i a (v ∷ vs) h = ground (arith, position_above (i + 1) a vs h.1)

Indexed-nil :
    (i : ℕ) (idx : Dict ℕ) (total : ℕ) → total < 2 ^ 64 → Indexed i [] idx total (idx, total)
unfolding sum_power position
Indexed-nil i idx total small = record {
  positive = tt;
  distinct = tt;
  fresh = tt;
  fits = omega arith;
  summed = omega arith;
  found = λ a. refl;
}

Indexed-cons :
    (i : ℕ) (v : Validator) (vs : List Validator) (idx : Dict ℕ) (total : ℕ) (r : Dict ℕ × ℕ)
    → Admits v idx total
    → Indexed (i + 1) vs (insert v.address i idx) (total + v.power) r
    → Indexed i (v ∷ vs) idx total r
unfolding sum_power position
Indexed-cons i v vs idx total r admitted rest =
    let (apart, fresh) = fresh_below v i idx vs rest.fresh in
    record {
      positive = (admitted.positive, rest.positive);
      distinct = (apart, rest.distinct);
      fresh = (admitted.fresh, fresh);
      fits = omega (arith, rest.fits);
      summed = omega (arith, rest.summed);
      found = λ a. ground (
        arith,
        rest.found a,
        lookup-insert v.address a i idx,
        position_above (i + 1) v.address vs apart,
      );
    }

pub index_validators-Indexed :
    (i : ℕ) (vs : List Validator) (idx : Dict ℕ) (total : ℕ) (r : Dict ℕ × ℕ)
    → total < 2 ^ 64
    → Words vs
    → index_validators i vs idx total ≡ ok r
    → Indexed i vs idx total r
unfolding index_validators
index_validators-Indexed i [] idx total r small words h =
    subst (Indexed i [] idx total) (cc) (Indexed-nil i idx total small)
index_validators-Indexed i (v ∷ vs) idx total r small words h =
    let (admitted, more) = index_step i v vs idx total small words.0 h in
    Indexed-cons i v vs idx total r admitted
      (index_validators-Indexed (i + 1) vs _ _ r admitted.fits words.1 more)

fresh_above :
    (v : Validator) (i : ℕ) (idx : Dict ℕ) (vs : List Validator)
    → All (λ w. v.address ≢ w.address) vs
    → All (λ w. lookup w.address idx ≡ none) vs
    → All (λ w. lookup w.address (insert v.address i idx) ≡ none) vs
fresh_above v i idx [] apart h = tt
fresh_above v i idx (w ∷ ws) apart h =
    (ground (arith, lookup-insert v.address w.address i idx), fresh_above v i idx ws apart.1 h.1)

pub index_validators_total :
    (i : ℕ) (vs : List Validator) (idx : Dict ℕ) (total : ℕ)
    → Positive vs
    → Distinct vs
    → All (λ v. lookup v.address idx ≡ none) vs
    → total + sum_power vs < 2 ^ 64
    → (r : Dict ℕ × ℕ) × (index_validators i vs idx total ≡ ok r)
unfolding sum_power index_validators
index_validators_total i [] idx total pos apart fresh fits = ((idx, total), refl)
index_validators_total i (v ∷ vs) idx total pos apart fresh fits =
    let (r, e) =
      index_validators_total (i + 1) vs (insert v.address i idx) (total + v.power) pos.1 apart.1
        (fresh_above v i idx vs apart.0 fresh.1) (omega arith) in
    (
      r,
      index_step_back i v vs idx total
            (record { positive = pos.0; fresh = fresh.0; fits = omega arith })
          ∙ e,
    )
