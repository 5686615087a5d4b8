-- ===== src/Consensus/ValidatorSet/Proposer.antt =====
-- consensus/validator.go: the proposer of a height and a round, and how often each validator is it.
use native.Mathlib.Nat.{mod-lt}
use dew.Base.{
  ℕ, ◌+◌, ◌-◌, ◌%◌, ◌^◌, ◌≤◌, ◌<◌, ◌≡◌, ◌≢◌, refl, sym, ap, ap₂, ◌∙◌, Bool, false, Option, none,
  some, List, [], ◌∷◌, ltb, ◌==◌, if◌then◌else◌, Bool-cases, inl, inr, arith, u64, u64_of_lt,
  get_elem?,
}
use dew.Base.Tally.{tally, tally-cong, tally-add, tally_const, tally_cycle}
use dew.Consensus.ValidatorSet.{Validator, ValidatorSet, find_slot, proposer, power_of}
use dew.Consensus.ValidatorSet.Spec.{sum_power, power_where, Positive, IsValid}
use dew.Consensus.ValidatorSet.Lookup.{power_of-eq-power_where}

-- Who owns a slot when the validators' powers are laid end to end.
unfoldable pub owner : ℕ → List Validator → Option ℕ
owner slot [] = none
owner slot (v ∷ vs) = if ltb slot v.power then some v.address else owner (slot - v.power) vs

abbrev pub is_address : ℕ → Option ℕ → Bool
is_address a none = false
is_address a (some b) = b == a

find_slot-suc :
    (slot acc i : ℕ) (vs : List Validator)
    → find_slot slot acc (i + 1) vs
      ≡ elim (find_slot slot acc i vs) [ some j ↦ some (j + 1) | none ↦ none ]
unfolding find_slot
find_slot-suc slot acc i [] = refl
find_slot-suc slot acc i (v ∷ vs) =
    ground (arith, find_slot-suc slot (u64 (acc + v.power)) (i + 1) vs)

abbrev address_at : List Validator → Option ℕ → Option ℕ
address_at vs none = none
address_at vs (some i) = elim (get_elem? vs i) [ none ↦ none | some v ↦ some v.address ]

address_at-suc :
    (v : Validator) (vs : List Validator) (o : Option ℕ)
    → address_at (v ∷ vs) (elim o [ some j ↦ some (j + 1) | none ↦ none ]) ≡ address_at vs o
address_at-suc v vs none = refl
address_at-suc v vs (some j) = ground arith

find_slot-owner :
    (slot acc : ℕ) (vs : List Validator)
    → acc ≤ slot
    → acc + sum_power vs < 2 ^ 64
    → address_at vs (find_slot slot acc 0 vs) ≡ owner (slot - acc) vs
unfolding find_slot owner sum_power
find_slot-owner slot acc [] h fits = refl
find_slot-owner slot acc (v ∷ vs) h fits = rw wrap (elim (Bool-cases (ltb slot (acc + v.power))) [
  | inl e ↦ ground arith
  | inr e ↦
      let e' : slot - acc - v.power ≡ slot - (acc + v.power) = omega arith in
      ground (
        arith,
        find_slot-suc slot (acc + v.power) 0 vs,
        e',
        ap (λ s. owner s vs) e',
        address_at-suc v vs (find_slot slot (acc + v.power) 0 vs),
        find_slot-owner slot (acc + v.power) vs (ground arith) (omega arith),
      )
])
  where
    wrap : u64 (acc + v.power) ≡ acc + v.power
    wrap = u64_of_lt (acc + v.power) (omega arith)

owner_total :
    (slot : ℕ) (vs : List Validator) → slot < sum_power vs → (a : ℕ) × (owner slot vs ≡ some a)
unfolding owner sum_power
owner_total slot [] h = absurd (omega arith)
owner_total slot (v ∷ vs) h = elim (Bool-cases (ltb slot v.power)) [
  | inl e ↦ (v.address, rw e)
  | inr e ↦ rw e (owner_total (slot - v.power) vs (ground arith))
]

total-pos : (vs : ValidatorSet) → IsValid vs → 0 < vs.total_power
total-pos vs valid = rw valid.total (pos vs.validators valid.nonempty valid.positive)
  where
    pos : (ws : List Validator) → ws ≢ [] → Positive ws → 0 < sum_power ws
    pos [] n p = absurd (n refl)
    pos (w ∷ ws) n p = unfold sum_power in omega (arith, p.0)

module _ (vs : ValidatorSet) (valid : IsValid vs) where
  -- On a valid set, the proposer owns the slot of its height and round.
  pub proposer-eq-owner :
      (height round : ℕ)
      → proposer vs height round ≡ owner (u64 (height + round) % vs.total_power) vs.validators
  unfolding proposer
  proposer-eq-owner height round = ground (arith, total-pos vs valid, found, slot_owner)
    where
      slot : ℕ
      slot = u64 (height + round) % vs.total_power

      found : (a : ℕ) × (owner slot vs.validators ≡ some a)
      found =
          owner_total slot vs.validators
            (omega (arith, mod-lt (u64 (height + round)) (total-pos vs valid), valid.total))

      slot_owner :
          address_at vs.validators (find_slot slot 0 0 vs.validators) ≡ owner slot vs.validators
      slot_owner =
          find_slot-owner slot 0 vs.validators (omega arith) (omega (arith, valid.bounded))
          ∙ ap (λ s. owner s vs.validators) (omega arith)

-- Whether the address proposes at the height.
abbrev pub proposes : ValidatorSet → ℕ → ℕ → ℕ → Bool
proposes vs round a height = is_address a (proposer vs height round)

tally-owner :
    (a : ℕ) (vs : List Validator)
    → tally (λ s. is_address a (owner s vs)) 0 (sum_power vs) ≡ power_where (λ b. b == a) vs
unfolding power_where sum_power
tally-owner a [] = unfold tally in refl
tally-owner a (v ∷ vs) =
    tally-add _ 0 v.power (sum_power vs)
    ∙ ap₂ ◌+◌ (tally_const _ (v.address == a) 0 v.power mine) (
        tally-cong _ (λ s. is_address a (owner s vs)) (0 + v.power) 0 (sum_power vs) others
        ∙ tally-owner a vs)
  where
    mine : (k : ℕ) → k < v.power → is_address a (owner (0 + k) (v ∷ vs)) ≡ (v.address == a)
    mine k lt = unfold owner in ground arith

    others :
        (k : ℕ)
        → k < sum_power vs
        → is_address a (owner (0 + v.power + k) (v ∷ vs)) ≡ is_address a (owner (0 + k) vs)
    others k lt =
        let e : 0 + v.power + k - v.power ≡ 0 + k = omega arith in
        unfold owner in ground (arith, ap (λ s. owner s vs) e)

-- On a valid set, over as many consecutive heights as there is power in total, each validator
-- proposes in a round exactly as often as its power says, and no other address proposes, while the
-- sums of height and round do not wrap.
pub proposes_fairly :
    (vs : ValidatorSet) (a round height : ℕ)
    → IsValid vs
    → height + vs.total_power + round < 2 ^ 64
    → tally (proposes vs round a) height vs.total_power ≡ power_of vs a
proposes_fairly vs a round height valid fits =
    tally-cong (proposes vs round a) _ height (height + round) vs.total_power each
    ∙ tally_cycle (λ s. is_address a (owner s vs.validators)) vs.total_power (height + round)
        (total-pos vs valid)
    ∙ ap (tally _ 0) valid.total
    ∙ tally-owner a vs.validators
    ∙ sym (power_of-eq-power_where vs a valid)
  where
    each :
        (k : ℕ)
        → k < vs.total_power
        → proposes vs round a (height + k)
          ≡ is_address a (owner ((height + round + k) % vs.total_power) vs.validators)
    each k lt = ap (is_address a) (
        proposer-eq-owner vs valid (height + k) round
        ∙ ap (λ s. owner (s % vs.total_power) vs.validators)
            (u64_of_lt (height + k + round) (omega arith) ∙ omega arith))
