-- ===== src/Consensus/ValidatorSet.antt =====
-- consensus/validator.go: the stake-weighted validator set, its quorum test and its proposers.
pub mod Spec
mod Sorting
mod Indexing
pub mod Build
pub mod Lookup
pub mod Quorum
pub mod Proposer
pub mod Toy
mod Examples
use dew.Base.{
  ℕ, zero, suc, ◌+◌, ◌-◌, ◌*◌, ◌%◌, Bool, true, false, Option, none, some, List, [], ◌∷◌, ltb, leb,
  ◌==◌, if◌then◌else◌, length, get_elem?, u64, Result, ok, err, Dict, lookup, insert, is_some,
}

-- An address is its 20 bytes read as a number, so byte order is the order of numbers.
abbrev pub Address : Type 0
Address = ℕ

pub record Validator : Type 0 where
  pub address : Address
  pub power : ℕ

pub record ValidatorSet : Type 0 where
  pub validators : List Validator
  pub total_power : ℕ
  pub index : Dict ℕ

pub data SetError : Type 0 where
  empty_set zero_power duplicate_validator power_overflow : SetError

-- sort.Slice by address
pub insert_sorted : Validator → List Validator → List Validator
insert_sorted v [] = v ∷ []
insert_sorted v (w ∷ ws) = if ltb w.address v.address then w ∷ insert_sorted v ws else v ∷ w ∷ ws

pub sort_validators : List Validator → List Validator
unfolding insert_sorted
sort_validators [] = []
sort_validators (v ∷ vs) = insert_sorted v (sort_validators vs)

-- The loop that fills the index and sums the power.
pub index_validators : ℕ → List Validator → Dict ℕ → ℕ → Result SetError (Dict ℕ × ℕ)
index_validators i [] idx total = ok (idx, total)
index_validators i (v ∷ vs) idx total =
    let rest = index_validators (i + 1) vs (insert v.address i idx) (u64 (total + v.power)) in
    if v.power == 0
    then err zero_power
    else if is_some (lookup v.address idx)
    then err duplicate_validator
    else if ltb (u64 (total + v.power)) total
    then err power_overflow
    else rest

finish_set : List Validator → Result SetError (Dict ℕ × ℕ) → Result SetError ValidatorSet
finish_set vals (err e) = err e
finish_set vals (ok (idx, total)) =
    ok (record { validators = vals; total_power = total; index = idx })

pub new_validator_set : List Validator → Result SetError ValidatorSet
unfolding finish_set sort_validators index_validators
new_validator_set [] = err empty_set
new_validator_set (v ∷ vs) =
    let cp = sort_validators (v ∷ vs) in finish_set cp (index_validators 0 cp [] 0)

pub size : ValidatorSet → ℕ
size vs = length vs.validators

-- An index out of range is a panic in the source, and no value here.
unfoldable pub get : ValidatorSet → Address → Option Validator
get vs addr = elim (lookup addr vs.index) [ none ↦ none | some i ↦ get_elem? vs.validators i ]

unfoldable pub power_of : ValidatorSet → Address → ℕ
unfolding get
power_of vs addr = elim (get vs addr) [ none ↦ 0 | some v ↦ v.power ]

unfoldable pub has_quorum : ℕ → ℕ → Bool
has_quorum vote_power total_power =
    if total_power == 0 then false else ltb (u64 (total_power * 2)) (u64 (vote_power * 3))

-- The loop over cumulative power: the position, counted from `i`, of the first validator whose
-- cumulative power exceeds the slot.
unfoldable pub find_slot : ℕ → ℕ → ℕ → List Validator → Option ℕ
find_slot slot acc i [] = none
find_slot slot acc i (v ∷ vs) =
    let rest = find_slot slot (u64 (acc + v.power)) (i + 1) vs in
    if ltb slot (u64 (acc + v.power)) then some i else rest

unfoldable pub proposer_index : ValidatorSet → ℕ → ℕ → ℕ
unfolding find_slot
proposer_index vs height round =
    if vs.total_power == 0
    then 0
    else elim (find_slot (u64 (height + round) % vs.total_power) 0 0 vs.validators) [
      | some i ↦ i
      | none ↦ length vs.validators - 1
    ]

-- An empty set makes the source panic, and has no proposer here.
unfoldable pub proposer : ValidatorSet → ℕ → ℕ → Option Address
unfolding proposer_index
proposer vs height round = elim (get_elem? vs.validators (proposer_index vs height round)) [
  | none ↦ none
  | some v ↦ some v.address
]
