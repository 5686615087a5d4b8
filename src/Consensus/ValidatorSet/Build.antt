-- ===== src/Consensus/ValidatorSet/Build.antt =====
-- consensus/validator.go: when NewValidatorSet succeeds, and what it then returns.
use mathlib.Core.List.{Perm}
use dew.Base.{
  ℕ, ◌^◌, ◌≤◌, ◌<◌, ◌≡◌, refl, sym, subst, ap, ◌≢◌, ◌↔◌, none, List, [], ◌∷◌, All, arith, Result,
  ok, err, Dict, lookup, lookup-nil,
}
use dew.Consensus.ValidatorSet.{
  Validator, ValidatorSet, SetError, index_validators, finish_set, new_validator_set,
  sort_validators,
}
use dew.Consensus.ValidatorSet.Spec.{sum_power, Ascending, Distinct, Positive, Words, IsValid}
use dew.Consensus.ValidatorSet.Sorting.{
  Sorted, All-sort, All-of_sort, sort-Sorted, sort-perm, sum-sort, sort-Distinct, Distinct-of_sort,
  Distinct-of_Ascending, sort-ne-nil,
}
use dew.Consensus.ValidatorSet.Indexing.{Indexed, index_validators-Indexed, index_validators_total}

lt_of_le_ne :
    (a : ℕ) (ws : List Validator)
    → All (λ w. a ≤ w.address) ws
    → All (λ w. a ≢ w.address) ws
    → All (λ w. a < w.address) ws
lt_of_le_ne a [] s d = tt
lt_of_le_ne a (w ∷ ws) s d = (omega arith, lt_of_le_ne a ws s.1 d.1)

Ascending-of_Distinct : (vs : List Validator) → Sorted vs → Distinct vs → Ascending vs
Ascending-of_Distinct [] s d = tt
Ascending-of_Distinct (v ∷ vs) s d =
    (lt_of_le_ne v.address vs s.0 d.0, Ascending-of_Distinct vs s.1 d.1)

finish_set-IsValid :
    (cp : List Validator) (r : Result SetError (Dict ℕ × ℕ)) (vs : ValidatorSet)
    → r ≡ index_validators 0 cp [] 0
    → cp ≢ []
    → Sorted cp
    → Words cp
    → finish_set cp r ≡ ok vs
    → IsValid vs × (vs.validators ≡ cp)
unfolding finish_set
finish_set-IsValid cp (err e) vs built nonempty sorted words h = cc
finish_set-IsValid cp (ok (idx, total)) vs built nonempty sorted words h = rw (← same) (
  record {
    nonempty = nonempty;
    ascending = Ascending-of_Distinct cp sorted done.distinct;
    positive = done.positive;
    total = omega (arith, done.summed);
    bounded = omega (arith, done.fits);
    indexed = λ a. ground (arith, done.found a, lookup-nil {V = ℕ} a);
  },
  refl,
)
  where
    same : record { validators = cp; total_power = total; index = idx } ≡ vs
    same = ground arith

    done : Indexed 0 cp [] 0 (idx, total)
    done = index_validators-Indexed 0 cp [] 0 (idx, total) (omega arith) words (sym built)

built-IsValid :
    (v : Validator) (vals : List Validator) (vs : ValidatorSet)
    → Words (v ∷ vals)
    → new_validator_set (v ∷ vals) ≡ ok vs
    → IsValid vs × (vs.validators ≡ sort_validators (v ∷ vals))
unfolding new_validator_set
built-IsValid v vals vs words h =
    finish_set-IsValid (sort_validators (v ∷ vals)) _ vs refl (sort-ne-nil v vals)
      (sort-Sorted (v ∷ vals)) (All-sort _ (v ∷ vals) words) h

nil_refused : (vs : ValidatorSet) → new_validator_set [] ≡ ok vs → ⊥
unfolding new_validator_set
nil_refused vs h = cc

-- A set that NewValidatorSet returns for powers that are uint64 is ordered by address, has positive
-- powers that sum to its total without overflow, indexes each validator, and holds the validators
-- that it was given.
pub new_validator_set-IsValid :
    (vals : List Validator) (vs : ValidatorSet)
    → Words vals
    → new_validator_set vals ≡ ok vs
    → IsValid vs × Perm vs.validators vals
new_validator_set-IsValid [] vs words h = absurd (nil_refused vs h)
new_validator_set-IsValid (v ∷ vals) vs words h =
    let (valid, e) = built-IsValid v vals vs words h in (valid, rw e (sort-perm (v ∷ vals)))

-- What NewValidatorSet wants of its argument.
pub record Accepts (vals : List Validator) : Type 0 where
  pub nonempty : vals ≢ []
  pub positive : Positive vals
  pub distinct : Distinct vals
  pub bounded : sum_power vals < 2 ^ 64

indexed_sort :
    (vals : List Validator)
    → Accepts vals
    → (r : Dict ℕ × ℕ) × (index_validators 0 (sort_validators vals) [] 0 ≡ ok r)
indexed_sort vals a =
    index_validators_total 0 (sort_validators vals) [] 0 (All-sort _ vals a.positive)
      (sort-Distinct vals a.distinct) (fresh (sort_validators vals))
      (omega (arith, sum-sort vals, a.bounded))
  where
    fresh : (ws : List Validator) → All (λ v. lookup {V = ℕ} v.address [] ≡ none) ws
    fresh [] = tt
    fresh (w ∷ ws) = (lookup-nil {V = ℕ} w.address, fresh ws)

accepted :
    (vals : List Validator) → Accepts vals → (vs : ValidatorSet) × (new_validator_set vals ≡ ok vs)
unfolding new_validator_set finish_set
accepted [] a = absurd (a.nonempty refl)
accepted (v ∷ vals) a =
    let (r, e) = indexed_sort (v ∷ vals) a in
    (
      record { validators = sort_validators (v ∷ vals); total_power = r.1; index = r.0 },
      rw (e, finish_set),
    )

refused_otherwise :
    (vals : List Validator) (vs : ValidatorSet)
    → Words vals
    → new_validator_set vals ≡ ok vs
    → Accepts vals
refused_otherwise [] vs words h = absurd (nil_refused vs h)
refused_otherwise (v ∷ vals) vs words h =
    let (valid, e) = built-IsValid v vals vs words h in
    record {
      nonempty = λ p. cc;
      positive = All-of_sort _ (v ∷ vals) (subst Positive e valid.positive);
      distinct =
          Distinct-of_sort (v ∷ vals)
            (subst Distinct e (Distinct-of_Ascending vs.validators valid.ascending));
      bounded = omega (arith, valid.bounded, ap sum_power e, sum-sort (v ∷ vals));
    }

-- For powers that are uint64, NewValidatorSet succeeds exactly on a nonempty list with distinct
-- addresses and positive powers whose sum is a uint64.
pub new_validator_set_iff :
    (vals : List Validator)
    → Words vals
    → ((vs : ValidatorSet) × (new_validator_set vals ≡ ok vs)) ↔ Accepts vals
new_validator_set_iff vals words = (λ (vs, h). refused_otherwise vals vs words h, accepted vals)
