-- ===== src/Consensus/VoteSet/Majority.antt =====
-- consensus/state.go: the hash that a vote set finds a quorum for, whatever the order of its map.
use dew.Base.{
  ℕ, ◌*◌, ◌^◌, ◌<◌, ◌≡◌, ◌≢◌, ◌⊎◌, ◌↔◌, sym, ap, ◌∙◌, inl, inr, true, false, not, ◌&&◌, ◌||◌, none,
  some, [], ◌∷◌, ◌==◌, Bool-cases, Option-cases, arith, Dict, lookup, or_zero, ==_iff, Unique,
  insert-Unique,
}
use native.Mathlib.Decide.{ℕ_discrete}
use dew.Consensus.Message.{Vote, Hash}
use dew.Consensus.ValidatorSet.{ValidatorSet, power_of, has_quorum}
use dew.Consensus.ValidatorSet.Spec.{sum_power, power_where, IsValid}
use dew.Consensus.ValidatorSet.Quorum.{
  power_where-le, power_where-both, has_quorum_iff, has_quorum-zero,
}
use dew.Consensus.VoteSet.{
  VoteSet, new_vote_set, add, record_vote, power_for, first_quorum, majority_hash,
}
use dew.Consensus.VoteSet.Backing.{
  IsBacked, power_where-none, voted, record_vote-IsBacked, new_vote_set-IsBacked,
}

-- What a vote set is to be at any time.
pub record IsSound (set : ValidatorSet) (vs : VoteSet) : Type 0 where
  pub backing : IsBacked set.validators vs
  pub unique : Unique vs.power

-- A vote that `add` takes is for the slot, and the first of its validator.
pub record Takes (vs : VoteSet) (v : Vote) : Type 0 where
  pub typ : v.typ ≡ vs.typ
  pub height : v.height ≡ vs.height
  pub round : v.round ≡ vs.round
  pub fresh : lookup v.validator vs.by_addr ≡ none

pub add_cases :
    (vs : VoteSet) (v : Vote) (power : ℕ)
    → (add vs v power ≡ (vs, false))
      ⊎ (Takes vs v × (add vs v power ≡ (record_vote vs v power, true)))
unfolding add
add_cases vs v power = elim (Option-cases (lookup v.validator vs.by_addr)) [
  | inl e ↦
      elim (Bool-cases
        (not (v.typ == vs.typ) || not (v.height == vs.height) || not (v.round == vs.round))) [
          | inl wrong ↦ inl (rw wrong)
          | inr right ↦ inr (
            record { typ = ground arith; height = ground arith; round = ground arith; fresh = e },
            rw (right, e),
          )
        ]
  | inr (w, e) ↦ inl (ground arith)
]

pub new_vote_set-IsSound :
    (set : ValidatorSet) (typ height round : ℕ) → IsSound set (new_vote_set typ height round)
new_vote_set-IsSound set typ height round = record {
  backing = new_vote_set-IsBacked set.validators typ height round;
  unique = unfold new_vote_set in tt;
}

-- Whatever vote arrives at a sound vote set over a valid validator set, the powers that it records
-- stay those of the validators that voted.
pub add-IsSound :
    (set : ValidatorSet) (vs : VoteSet) (v : Vote)
    → IsValid set
    → IsSound set vs
    → IsSound set (add vs v (power_of set v.validator)).0
add-IsSound set vs v valid s = elim (add_cases vs v (power_of set v.validator)) [
  | inl e ↦ rw e s
  | inr (t, e) ↦ rw e (record {
    backing = record_vote-IsBacked set valid vs v t.fresh s.backing t.typ t.height t.round;
    unique = unfold record_vote in insert-Unique v.block_hash _ vs.power s.unique;
  })
]

first_quorum_sound :
    (total : ℕ) (d : Dict ℕ) (h : Hash)
    → Unique d
    → first_quorum total d ≡ some h
    → has_quorum (or_zero (lookup h d)) total ≡ true
unfolding first_quorum lookup
first_quorum_sound total [] h u e = cc
first_quorum_sound total ((j, p) ∷ d) h u e = elim (Bool-cases (has_quorum p total)) [
  | inl q ↦ let same : j ≡ h = ground arith in ground arith
  | inr q ↦
      let later = first_quorum_sound total d h u.1 (rw q at e) in
      elim (Bool-cases (j == h)) [
        | inl same ↦
            let gone : lookup h d ≡ none = ap (λ k. lookup k d) (sym ((==_iff j h).0 same)) ∙ u.0 in
            cc (has_quorum-zero total, rw gone at later)
        | inr other ↦ rw other later
      ]
]

first_quorum_total :
    (total : ℕ) (d : Dict ℕ) (h : Hash)
    → has_quorum (or_zero (lookup h d)) total ≡ true
    → (h' : Hash) × (first_quorum total d ≡ some h')
unfolding first_quorum lookup
first_quorum_total total [] h q = cc (has_quorum-zero total)
first_quorum_total total ((j, p) ∷ d) h q = elim (Bool-cases (has_quorum p total)) [
  | inl here ↦ (j, rw here)
  | inr later ↦ rw later (first_quorum_total total d h (ground arith))
]

module _ (set : ValidatorSet) (vs : VoteSet) (valid : IsValid set) (sound : IsSound set vs)
    (fits : sum_power set.validators * 3 < 2 ^ 64) where
  -- The hash has the votes of more than two thirds of the power.
  abbrev Supported : Hash → Type 0
  Supported h = 2 * sum_power set.validators < 3 * power_where (voted vs h) set.validators

  quorum-Supported : (h : Hash) → (has_quorum (power_for vs h) set.total_power ≡ true) ↔ Supported h
  quorum-Supported h =
      rw (sound.backing.backed h, valid.total)
        (has_quorum_iff (power_where (voted vs h) set.validators) (sum_power set.validators)
          (power_where-le _ set.validators) fits)

  one_vote_each :
      (h h' : Hash) → h ≢ h' → power_where (λ a. voted vs h a && voted vs h' a) set.validators ≡ 0
  one_vote_each h h' ne = power_where-none _ set.validators (λ a. unfold voted in ground arith)

  Supported-once : (h h' : Hash) → Supported h → Supported h' → h ≡ h'
  Supported-once h h' s s' = elim (ℕ_discrete h h') [
    | yes same ↦ same
    | no ne ↦ absurd (
        omega (
          arith,
          one_vote_each h h' ne,
          power_where-both (voted vs h) (voted vs h') set.validators,
        ))
  ]

  -- On a valid validator set, three times the power of which is a uint64, and for a sound vote set:
  -- it reports a hash exactly when validators with more than two thirds of the power voted for it,
  -- in whatever order its map lists the hashes.
  pub majority_hash_iff :
      (h : Hash)
      → (majority_hash vs set.total_power ≡ some h)
        ↔ (2 * sum_power set.validators < 3 * power_where (voted vs h) set.validators)
  unfolding majority_hash power_for
  majority_hash_iff h = (reported h, found)
    where
      reported : (h : Hash) → first_quorum set.total_power vs.power ≡ some h → Supported h
      reported h e =
          (quorum-Supported h).0 (first_quorum_sound set.total_power vs.power h sound.unique e)

      found : Supported h → first_quorum set.total_power vs.power ≡ some h
      found s =
          let (h', e) = first_quorum_total set.total_power vs.power h ((quorum-Supported h).1 s) in
          rw (Supported-once h h' s (reported h' e)) e

-- Two sound vote sets over one valid validator set, three times the power of which is a uint64,
-- such as those of two engines, each report a hash: then validators with more than a third of the
-- power voted for the one hash in the one set and for the other hash in the other.
pub conflicting_majorities :
    (set : ValidatorSet) (left right : VoteSet) (h h' : Hash)
    → IsValid set
    → sum_power set.validators * 3 < 2 ^ 64
    → IsSound set left
    → IsSound set right
    → majority_hash left set.total_power ≡ some h
    → majority_hash right set.total_power ≡ some h'
    → sum_power set.validators
      < 3 * power_where (λ a. voted left h a && voted right h' a) set.validators
conflicting_majorities set left right h h' valid fits sl sr e e' = omega (
  arith,
  (majority_hash_iff set left valid sl fits h).0 e,
  (majority_hash_iff set right valid sr fits h').0 e',
  power_where-both (voted left h) (voted right h') set.validators,
)
