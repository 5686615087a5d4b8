-- ===== src/Native/Staking/Toy.antt =====
-- Concrete staking storage, to run the code of core/native/ on.
use dew.Base.{◌^◌, if◌then◌else◌, ◌==◌}
use dew.Native.Staking.{Staking, StakingConfig, Ledger}

abbrev pub nothing : Staking
nothing = record {
  self_stake = λ a. 0;
  jailed = λ a. 0;
  candidate = λ a. 0;
  candidate_count = 0;
  candidate_at = λ i. 0;
  unbond_amount = λ a. 0;
  unbond_at = λ a. 0;
  shares = λ v d. 0;
  total_shares = λ v. 0;
  commission = λ v. 0;
  undelegated_amount = λ v d. 0;
  undelegated_at = λ v d. 0;
  rate = λ v. 0;
  reward_index = λ v. 0;
  reward_debt = λ v d. 0;
  reward_pending = λ v d. 0;
}

abbrev pub config : StakingConfig
config = record {
  min_self_stake = 2 ^ 64;
  active_cap = 100;
  epoch_length = 86400;
  unbond_seconds = 604800;
}

-- Two validators, 7 and 3, with the least self-stake each.
abbrev pub two_staked : Staking
two_staked = record nothing {
  self_stake = λ a. if a == 7 then 2 ^ 64 else if a == 3 then 2 ^ 64 else 0;
  candidate = λ a. if a == 7 then 1 else if a == 3 then 1 else 0;
  candidate_count = 2;
  candidate_at = λ i. if i == 0 then 7 else if i == 1 then 3 else 0;
}

-- Delegator 5 holds the shares of validator 7.
abbrev pub delegated : Staking
delegated = record two_staked {
  shares = λ v d. if v == 7 then if d == 5 then 1000 else 0 else 0;
  total_shares = λ v. if v == 7 then 1000 else 0;
}

abbrev pub ledger : Ledger
ledger = record {
  balance = λ a. if a == 258 then 2 ^ 65 else if a == 1 then 5000000000000 else 0;
  nonce = λ a. 0;
  staking = delegated;
}
