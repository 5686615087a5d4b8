-- ===== src/Consensus/ValidatorSet/Sorting.antt =====
-- The insertion sort by address keeps the validators and orders them.
use mathlib.Core.List.{Perm}
use mathlib.Core.List.Perm
use dew.Base.{
  ℕ, ◌+◌, ◌≤◌, ◌<◌, ◌≡◌, refl, ◌≢◌, inl, inr, List, [], ◌∷◌, ltb, Bool-cases, All, arith,
}
use dew.Consensus.ValidatorSet.{Validator, insert_sorted, sort_validators}
use dew.Consensus.ValidatorSet.Spec.{sum_power, Ascending, Distinct}

abbrev pub Sorted : List Validator → Type 0
Sorted [] = Unit
Sorted (v ∷ vs) = All (λ w. v.address ≤ w.address) vs × Sorted vs

module _ {κ} (P : Validator → Type κ) where
  All-insert_sorted :
      (v : Validator) (vs : List Validator) → P v → All P vs → All P (insert_sorted v vs)
  unfolding insert_sorted
  All-insert_sorted v [] p h = (p, tt)
  All-insert_sorted v (w ∷ ws) p h = elim (Bool-cases (ltb w.address v.address)) [
    | inl e ↦ rw e (h.0, All-insert_sorted v ws p h.1)
    | inr e ↦ rw e (p, h)
  ]

  pub All-sort : (vs : List Validator) → All P vs → All P (sort_validators vs)
  unfolding sort_validators
  All-sort [] h = tt
  All-sort (v ∷ vs) h = All-insert_sorted v (sort_validators vs) h.0 (All-sort vs h.1)

  All-of_insert :
      (v : Validator) (vs : List Validator) → All P (insert_sorted v vs) → P v × All P vs
  unfolding insert_sorted
  All-of_insert v [] h = h
  All-of_insert v (w ∷ ws) h = elim (Bool-cases (ltb w.address v.address)) [
    | inl e ↦ let (p, rest) = All-of_insert v ws (rw e at h).1 in (p, ((rw e at h).0, rest))
    | inr e ↦ rw e at h
  ]

  pub All-of_sort : (vs : List Validator) → All P (sort_validators vs) → All P vs
  unfolding sort_validators
  All-of_sort [] h = tt
  All-of_sort (v ∷ vs) h =
      let (p, rest) = All-of_insert v (sort_validators vs) h in (p, All-of_sort vs rest)

All-le_mono :
    {a b : ℕ} (vs : List Validator)
    → a ≤ b
    → All (λ w. b ≤ w.address) vs
    → All (λ w. a ≤ w.address) vs
All-le_mono [] h all = tt
All-le_mono {a} {b} (v ∷ vs) h all = (omega arith, All-le_mono {a = a} {b = b} vs h all.1)

insert_sorted-Sorted :
    (v : Validator) (vs : List Validator) → Sorted vs → Sorted (insert_sorted v vs)
unfolding insert_sorted
insert_sorted-Sorted v [] h = (tt, tt)
insert_sorted-Sorted v (w ∷ ws) h = elim (Bool-cases (ltb w.address v.address)) [
  | inl e ↦ rw e (All-insert_sorted _ v ws (ground arith) h.0, insert_sorted-Sorted v ws h.1)
  | inr e ↦
      rw e ((ground arith, All-le_mono {a = v.address} {b = w.address} ws (ground arith) h.0), h)
]

pub sort-Sorted : (vs : List Validator) → Sorted (sort_validators vs)
unfolding sort_validators
sort-Sorted [] = tt
sort-Sorted (v ∷ vs) = insert_sorted-Sorted v (sort_validators vs) (sort-Sorted vs)

insert_sorted-perm : (v : Validator) (vs : List Validator) → Perm (insert_sorted v vs) (v ∷ vs)
unfolding insert_sorted
insert_sorted-perm v [] = Perm.refl (v ∷ [])
insert_sorted-perm v (w ∷ ws) = elim (Bool-cases (ltb w.address v.address)) [
  | inl e ↦ rw e (Perm.trans (Perm.cons w (insert_sorted-perm v ws)) (Perm.swap v w ws))
  | inr e ↦ rw e (Perm.refl (v ∷ w ∷ ws))
]

pub sort-perm : (vs : List Validator) → Perm (sort_validators vs) vs
unfolding sort_validators
sort-perm [] = Perm.refl []
sort-perm (v ∷ vs) =
    Perm.trans (insert_sorted-perm v (sort_validators vs)) (Perm.cons v (sort-perm vs))

sum-insert_sorted :
    (v : Validator) (vs : List Validator) → sum_power (insert_sorted v vs) ≡ v.power + sum_power vs
unfolding insert_sorted sum_power
sum-insert_sorted v [] = refl
sum-insert_sorted v (w ∷ ws) = ground (arith, sum-insert_sorted v ws)

pub sum-sort : (vs : List Validator) → sum_power (sort_validators vs) ≡ sum_power vs
unfolding sort_validators sum_power
sum-sort [] = refl
sum-sort (v ∷ vs) = omega (arith, sum-insert_sorted v (sort_validators vs), sum-sort vs)

insert_sorted-Distinct :
    (v : Validator) (vs : List Validator)
    → All (λ w. v.address ≢ w.address) vs
    → Distinct vs
    → Distinct (insert_sorted v vs)
unfolding insert_sorted
insert_sorted-Distinct v [] n h = (tt, tt)
insert_sorted-Distinct v (w ∷ ws) n h = elim (Bool-cases (ltb w.address v.address)) [
  | inl e ↦ rw e (All-insert_sorted _ v ws (ground arith) h.0, insert_sorted-Distinct v ws n.1 h.1)
  | inr e ↦ rw e (n, h)
]

pub sort-Distinct : (vs : List Validator) → Distinct vs → Distinct (sort_validators vs)
unfolding sort_validators
sort-Distinct [] h = tt
sort-Distinct (v ∷ vs) h =
    insert_sorted-Distinct v (sort_validators vs) (All-sort _ vs h.0) (sort-Distinct vs h.1)

insert_sorted-ne-nil : (v : Validator) (vs : List Validator) → insert_sorted v vs ≢ []
unfolding insert_sorted
insert_sorted-ne-nil v [] h = cc
insert_sorted-ne-nil v (w ∷ ws) h = ground arith

pub sort-ne-nil : (v : Validator) (vs : List Validator) → sort_validators (v ∷ vs) ≢ []
unfolding sort_validators
sort-ne-nil v vs = insert_sorted-ne-nil v (sort_validators vs)

Distinct-of_insert :
    (v : Validator) (vs : List Validator)
    → Distinct (insert_sorted v vs)
    → All (λ w. v.address ≢ w.address) vs × Distinct vs
unfolding insert_sorted
Distinct-of_insert v [] h = h
Distinct-of_insert v (w ∷ ws) h = elim (Bool-cases (ltb w.address v.address)) [
  | inl e ↦
      let (apart, rest) = rw e at h in
      let (ne, others) = All-of_insert (λ u. w.address ≢ u.address) v ws apart in
      let (above, distinct) = Distinct-of_insert v ws rest in
      ((ground arith, above), (others, distinct))
  | inr e ↦ rw e at h
]

pub Distinct-of_sort : (vs : List Validator) → Distinct (sort_validators vs) → Distinct vs
unfolding sort_validators
Distinct-of_sort [] h = tt
Distinct-of_sort (v ∷ vs) h =
    let (apart, rest) = Distinct-of_insert v (sort_validators vs) h in
    (All-of_sort _ vs apart, Distinct-of_sort vs rest)

pub Distinct-of_Ascending : (vs : List Validator) → Ascending vs → Distinct vs
Distinct-of_Ascending [] h = tt
Distinct-of_Ascending (v ∷ vs) h = (apart v.address vs h.0, Distinct-of_Ascending vs h.1)
  where
    apart :
        (a : ℕ) (ws : List Validator) → All (λ w. a < w.address) ws → All (λ w. a ≢ w.address) ws
    apart a [] h = tt
    apart a (w ∷ ws) h = (omega arith, apart a ws h.1)
