-- ===== src/Consensus/VoteSet/Examples.antt =====
-- consensus/state.go at concrete votes.
use dew.Base.{ℕ, ◌*◌, ◌^◌, ◌<◌, ◌≡◌, ◌↔◌, refl, ◌&&◌, none, some, u64, arith, insert, lookup}
use dew.Consensus.Message.{Vote}
use dew.Consensus.Message.Toy.{toy_signature}
use dew.Consensus.ValidatorSet.{power_of, get, has_quorum}
use dew.Consensus.ValidatorSet.Spec.{sum_power, power_where}
use dew.Consensus.ValidatorSet.Toy.{two_set, two_set-IsValid}
use dew.Consensus.VoteSet.{VoteSet, new_vote_set, add, record_vote, majority_hash, first_quorum}
use dew.Consensus.VoteSet.Backing.{voted}
use dew.Consensus.VoteSet.Majority.{
  IsSound, new_vote_set-IsSound, add-IsSound, majority_hash_iff, conflicting_majorities,
}

abbrev vote_by : ℕ → Vote
vote_by validator = record {
  typ = 1;
  height = 5;
  round = 0;
  block_hash = 77;
  validator = validator;
  signature = toy_signature validator;
}

abbrev one_vote : VoteSet
one_vote = (add (new_vote_set 1 5 0) (vote_by 3) (power_of two_set 3)).0

abbrev two_votes : VoteSet
two_votes = (add one_vote (vote_by 7) (power_of two_set 7)).0

one_vote-IsSound : IsSound two_set one_vote
one_vote-IsSound =
    add-IsSound two_set (new_vote_set 1 5 0) (vote_by 3) two_set-IsValid
      (new_vote_set-IsSound two_set 1 5 0)

two_votes-IsSound : IsSound two_set two_votes
two_votes-IsSound = add-IsSound two_set one_vote (vote_by 7) two_set-IsValid one_vote-IsSound

fits : sum_power two_set.validators * 3 < 2 ^ 64
unfolding sum_power
fits = omega arith

settled : majority_hash two_votes two_set.total_power ≡ some 77
unfolding majority_hash first_quorum has_quorum add record_vote new_vote_set power_of get insert
    lookup u64
settled = refl

-- Two thirds of the power are not enough.
unsettled : majority_hash one_vote two_set.total_power ≡ none
unfolding majority_hash first_quorum has_quorum add record_vote new_vote_set power_of get insert
    lookup u64
unsettled = refl

add-IsSound_example : IsSound two_set (add one_vote (vote_by 7) (power_of two_set 7)).0
add-IsSound_example = add-IsSound two_set one_vote (vote_by 7) two_set-IsValid one_vote-IsSound

majority_hash_iff_example :
    (majority_hash two_votes two_set.total_power ≡ some 77)
    ↔ (2 * sum_power two_set.validators < 3 * power_where (voted two_votes 77) two_set.validators)
majority_hash_iff_example =
    majority_hash_iff two_set two_votes two_set-IsValid two_votes-IsSound fits 77

conflicting_majorities_example :
    sum_power two_set.validators
    < 3 * power_where (λ a. voted two_votes 77 a && voted two_votes 77 a) two_set.validators
conflicting_majorities_example =
    conflicting_majorities two_set two_votes two_votes 77 77 two_set-IsValid fits two_votes-IsSound
      two_votes-IsSound settled settled
