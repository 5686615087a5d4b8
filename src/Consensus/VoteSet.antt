-- ===== src/Consensus/VoteSet.antt =====
-- consensus/state.go: the votes of one height, round and type.
pub mod Backing
pub mod Majority
mod Examples
use dew.Base.{
  ℕ, ◌+◌, Bool, true, false, not, ◌&&◌, ◌||◌, Option, none, some, List, [], ◌∷◌, ◌==◌,
  if◌then◌else◌, u64, Dict, lookup, insert, is_some, or_zero,
}
use dew.Consensus.Message.{Vote, Hash}
use dew.Consensus.ValidatorSet.{has_quorum}

pub record VoteSet : Type 0 where
  pub typ : ℕ
  pub height : ℕ
  pub round : ℕ
  pub by_addr : Dict Vote
  pub power : Dict ℕ
  pub total_seen : ℕ

unfoldable pub new_vote_set : ℕ → ℕ → ℕ → VoteSet
new_vote_set typ height round = record {
  typ = typ;
  height = height;
  round = round;
  by_addr = [];
  power = [];
  total_seen = 0;
}

unfoldable pub record_vote : VoteSet → Vote → ℕ → VoteSet
record_vote vs v power = record vs {
  by_addr = insert v.validator v vs.by_addr;
  power = insert v.block_hash (u64 (or_zero (lookup v.block_hash vs.power) + power)) vs.power;
  total_seen = u64 (vs.total_seen + power);
}

-- The set after the call, and whether the vote was taken.
unfoldable pub add : VoteSet → Vote → ℕ → VoteSet × Bool
unfolding record_vote
add vs v power =
    if not (v.typ == vs.typ) || not (v.height == vs.height) || not (v.round == vs.round)
    then (vs, false)
    else if is_some (lookup v.validator vs.by_addr)
    then (vs, false)
    else (record_vote vs v power, true)

pub power_for : VoteSet → Hash → ℕ
power_for vs hash = or_zero (lookup hash vs.power)

-- The loop over the map, in whatever order its entries come.
unfoldable pub first_quorum : ℕ → Dict ℕ → Option Hash
first_quorum total_power [] = none
first_quorum total_power ((h, p) ∷ rest) =
    if has_quorum p total_power then some h else first_quorum total_power rest

unfoldable pub majority_hash : VoteSet → ℕ → Option Hash
unfolding first_quorum
majority_hash vs total_power = first_quorum total_power vs.power

unfoldable pub votes_in : Hash → Dict Vote → List Vote
votes_in hash [] = []
votes_in hash ((a, v) ∷ rest) =
    let others = votes_in hash rest in if v.block_hash == hash then v ∷ others else others

unfoldable pub votes_for : VoteSet → Hash → List Vote
unfolding votes_in
votes_for vs hash = votes_in hash vs.by_addr
