-- ===== src/Consensus/VoteSet/Backing.antt =====
-- consensus/state.go: the powers that a vote set adds up are those of the validators that voted.
use dew.Base.{
  ℕ, ◌+◌, ◌≡◌, refl, sym, ap, ◌∙◌, inl, inr, Bool, true, false, none, some, List, [], ◌∷◌, ◌==◌,
  if◌then◌else◌, Bool-cases, arith, u64, u64_of_lt, lookup, is_some, or_zero, lookup-insert,
}
use dew.Consensus.Message.{Vote, Hash}
use dew.Consensus.ValidatorSet.{Validator, ValidatorSet, power_of}
use dew.Consensus.ValidatorSet.Spec.{power_where, IsValid}
use dew.Consensus.ValidatorSet.Quorum.{power_where-le}
use dew.Consensus.ValidatorSet.Lookup.{power_of-eq-power_where}
use dew.Consensus.VoteSet.{VoteSet, new_vote_set, record_vote, power_for}

-- Whether the validator at the address has voted for the hash.
unfoldable pub voted : VoteSet → Hash → ℕ → Bool
voted vs hash a = elim (lookup a vs.by_addr) [ none ↦ false | some v ↦ v.block_hash == hash ]

-- Whether the validator at the address has voted at all.
abbrev pub seen : VoteSet → ℕ → Bool
seen vs a = is_some (lookup a vs.by_addr)

-- The vote is filed under its validator, in the slot of the set.
pub record Filed (vs : VoteSet) (a : ℕ) (v : Vote) : Type 0 where
  pub owner : v.validator ≡ a
  pub typ : v.typ ≡ vs.typ
  pub height : v.height ≡ vs.height
  pub round : v.round ≡ vs.round

pub record IsBacked (vals : List Validator) (vs : VoteSet) : Type 0 where
  pub backed : (hash : Hash) → power_for vs hash ≡ power_where (voted vs hash) vals
  pub counted : vs.total_seen ≡ power_where (seen vs) vals
  pub filed : (a : ℕ) (v : Vote) → lookup a vs.by_addr ≡ some v → Filed vs a v

pub power_where-cong :
    (p q : ℕ → Bool) (vals : List Validator)
    → ((a : ℕ) → p a ≡ q a)
    → power_where p vals ≡ power_where q vals
unfolding power_where
power_where-cong p q [] h = refl
power_where-cong p q (v ∷ vals) h = ground (arith, h v.address, power_where-cong p q vals h)

pub power_where-none :
    (p : ℕ → Bool) (vals : List Validator) → ((a : ℕ) → p a ≡ false) → power_where p vals ≡ 0
unfolding power_where
power_where-none p [] h = refl
power_where-none p (v ∷ vals) h = ground (arith, h v.address, power_where-none p vals h)

-- One more address joins the test.
power_where-join :
    (p q : ℕ → Bool) (b : ℕ) (vals : List Validator)
    → p b ≡ false
    → ((a : ℕ) → q a ≡ (if b == a then true else p a))
    → power_where q vals ≡ power_where p vals + power_where (λ a. a == b) vals
unfolding power_where
power_where-join p q b [] fresh h = refl
power_where-join p q b (v ∷ vals) fresh h = elim (Bool-cases (b == v.address)) [
  | inl e ↦
      let e' : b ≡ v.address = ground arith in
      ground (arith, h v.address, power_where-join p q b vals fresh h, ap p e')
  | inr e ↦ ground (arith, h v.address, power_where-join p q b vals fresh h)
]

pub new_vote_set-IsBacked :
    (vals : List Validator) (typ height round : ℕ) → IsBacked vals (new_vote_set typ height round)
unfolding new_vote_set power_for voted lookup
new_vote_set-IsBacked vals typ height round = record {
  backed = λ hash. sym (power_where-none _ vals (λ a. refl));
  counted = sym (power_where-none _ vals (λ a. refl));
  filed = λ a v e. cc;
}

voted-fresh :
    (vs : VoteSet) (hash : Hash) (a : ℕ) → lookup a vs.by_addr ≡ none → voted vs hash a ≡ false
unfolding voted
voted-fresh vs hash a fresh = ground arith

module _ (vs : VoteSet) (v : Vote) (power : ℕ) where
  voted-record :
      (hash a : ℕ)
      → voted (record_vote vs v power) hash a
        ≡ (if v.validator == a then v.block_hash == hash else voted vs hash a)
  unfolding voted record_vote
  voted-record hash a = ground (arith, lookup-insert v.validator a v vs.by_addr)

  seen-record :
      (a : ℕ) → seen (record_vote vs v power) a ≡ (if v.validator == a then true else seen vs a)
  unfolding record_vote
  seen-record a = ground (arith, lookup-insert v.validator a v vs.by_addr)

  power_for-record :
      (hash : Hash)
      → power_for (record_vote vs v power) hash ≡ (
          if v.block_hash == hash
          then u64 (power_for vs v.block_hash + power)
          else power_for vs hash)
  unfolding power_for record_vote
  power_for-record hash = ground (
    arith,
    lookup-insert v.block_hash hash (u64 (or_zero (lookup v.block_hash vs.power) + power)) vs.power,
  )

  Filed-record :
      v.typ ≡ vs.typ
      → v.height ≡ vs.height
      → v.round ≡ vs.round
      → ((a : ℕ) (w : Vote) → lookup a vs.by_addr ≡ some w → Filed vs a w)
      → (a : ℕ) (w : Vote) → lookup a (record_vote vs v power).by_addr ≡ some w
      → Filed (record_vote vs v power) a w
  unfolding record_vote
  Filed-record t h r old a w e = ground (arith, old a w, lookup-insert v.validator a v vs.by_addr)

module _ (set : ValidatorSet) (valid : IsValid set) (vs : VoteSet) (v : Vote) where
  abbrev pub after : VoteSet
  after = record_vote vs v (power_of set v.validator)

  -- The validator's power joins a test that it did not pass before.
  joins :
      (p q : ℕ → Bool)
      → p v.validator ≡ false
      → ((a : ℕ) → q a ≡ (if v.validator == a then true else p a))
      → u64 (power_where p set.validators + power_of set v.validator) ≡ power_where q set.validators
  joins p q fresh h =
      u64_of_lt _ (omega (arith, sum, power_where-le q set.validators, valid.bounded)) ∙ sum
    where
      sum : power_where p set.validators + power_of set v.validator ≡ power_where q set.validators
      sum =
          ap (λ t. power_where p set.validators + t) (power_of-eq-power_where set v.validator valid)
          ∙ sym (power_where-join p q v.validator set.validators fresh h)

  module _ (fresh : lookup v.validator vs.by_addr ≡ none) (b : IsBacked set.validators vs) where
    backed-record :
        (hash : Hash) → power_for after hash ≡ power_where (voted after hash) set.validators
    backed-record hash = elim (Bool-cases (v.block_hash == hash)) [
      | inl e ↦
          let e' : v.block_hash ≡ hash = ground arith in
          power_for-record vs v (power_of set v.validator) hash
          ∙ rw e (
              ap (λ t. u64 (t + power_of set v.validator)) (ap (power_for vs) e' ∙ b.backed hash)
              ∙ joins (voted vs hash) (voted after hash) (voted-fresh vs hash v.validator fresh)
                  (λ a. voted-record vs v _ hash a ∙ rw e))
      | inr e ↦
          power_for-record vs v _ hash
          ∙ rw (e, b.backed hash)
              (power_where-cong _ _ set.validators (λ a. ground (
                arith,
                voted-record vs v (power_of set v.validator) hash a,
                voted-fresh vs hash v.validator fresh,
                ap (voted vs hash) {x = v.validator} {y = a},
              )))
    ]

    counted-record :
        u64 (vs.total_seen + power_of set v.validator) ≡ power_where (seen after) set.validators
    counted-record =
        ap (λ t. u64 (t + power_of set v.validator)) b.counted
        ∙ joins (seen vs) (seen after) (rw fresh) (seen-record vs v (power_of set v.validator))

    pub record_vote-IsBacked :
        v.typ ≡ vs.typ → v.height ≡ vs.height → v.round ≡ vs.round → IsBacked set.validators after
    record_vote-IsBacked t h r = record {
      backed = backed-record;
      counted = unfold record_vote in counted-record;
      filed = Filed-record vs v (power_of set v.validator) t h r b.filed;
    }
