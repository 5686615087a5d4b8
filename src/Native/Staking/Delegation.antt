-- ===== src/Native/Staking/Delegation.antt =====
-- core/native/staking.go: delegated stake, commissions, and the rewards of delegators.
use dew.Base.{
  ℕ, ◌+◌, ◌*◌, ◌/◌, ◌||◌, Option, none, some, ltb, ◌==◌, if◌then◌else◌, u64, u256, Result, ok, err,
}
use dew.Consensus.ValidatorSet.{Address}
use dew.Native.Staking.{
  Staking, StakingConfig, StakingError, zero_amount, no_pending, too_early, self_delegate,
  too_small, insufficient_delegation, total_underflow, commission_too_high, no_rewards, set,
  set_pair, sub256, max_commission_bps, stake_precision, wei_to_shares, delegation, unlock_time,
  at_most,
}

-- rewardDebtForShares
unfoldable pub debt_for_shares : Staking → Address → ℕ → ℕ
debt_for_shares s v shares =
    if shares == 0 then 0 else u256 (shares * s.reward_index v) / stake_precision

unfoldable pub set_debt : Address → Address → ℕ → Staking → Staking
set_debt v d debt s = record s { reward_debt = set_pair s.reward_debt v d debt }

unfoldable pub accrue : Address → Address → ℕ → Staking → Staking
accrue v d owed s =
    if ltb (s.reward_debt v d) owed
    then record s {
      reward_pending =
          set_pair s.reward_pending v d
            (u256 (s.reward_pending v d + sub256 owed (s.reward_debt v d)));
    }
    else s

-- settleRewards
unfoldable pub settle_rewards : Address → Address → Staking → Staking
settle_rewards v d s =
    let owed = debt_for_shares s v (s.shares v d) in set_debt v d owed (accrue v d owed s)

-- The delegator's shares, the validator's total, and the reward debt that goes with the shares.
unfoldable pub set_shares : Address → Address → ℕ → ℕ → Staking → Staking
set_shares v d next total s =
    let s' = record s {
      shares = set_pair s.shares v d next;
      total_shares = set s.total_shares v total;
    } in
    set_debt v d (debt_for_shares s' v next) s'

unfoldable pub delegate_settled : Address → Address → ℕ → Staking → Staking × Option StakingError
delegate_settled v d amount s =
    let added = wei_to_shares s v amount in
    if added == 0
    then (s, some too_small)
    else (set_shares v d (u256 (s.shares v d + added)) (u256 (s.total_shares v + added)) s, none)

-- Delegate
unfoldable pub delegate : Address → Address → ℕ → Staking → Staking × Option StakingError
delegate v d amount s =
    if amount == 0
    then (s, some zero_amount)
    else if v == d
    then (s, some self_delegate)
    else delegate_settled v d amount (settle_rewards v d s)

module _ (cfg : StakingConfig) where
  unfoldable pub queue_undelegation : Address → Address → ℕ → ℕ → Staking → Staking
  queue_undelegation v d amount now s = record s {
    undelegated_amount =
        set_pair s.undelegated_amount v d (u256 (s.undelegated_amount v d + amount));
    undelegated_at =
        set_pair s.undelegated_at v d (unlock_time cfg (u64 (s.undelegated_at v d)) now);
  }

  -- The delegator's shares are written before the total is checked.
  unfoldable pub remove_shares :
      Address → Address → ℕ → ℕ → ℕ → Staking → Staking × Option StakingError
  remove_shares v d removed amount now s =
      let next = sub256 (s.shares v d) removed in
      if ltb (s.total_shares v) removed
      then (record s { shares = set_pair s.shares v d next }, some total_underflow)
      else (
        queue_undelegation v d amount now
            (set_shares v d next (sub256 (s.total_shares v) removed) s),
        none,
      )

  unfoldable pub undelegate_settled :
      Address → Address → ℕ → ℕ → Staking → Staking × Option StakingError
  undelegate_settled v d amount now s =
      if ltb (delegation s v d) amount
      then (s, some insufficient_delegation)
      else let removed = wei_to_shares s v amount in
        if removed == 0
        then (s, some too_small)
        else remove_shares v d (at_most (s.shares v d) removed) amount now s

  -- Undelegate
  unfoldable pub undelegate : Address → Address → ℕ → ℕ → Staking → Staking × Option StakingError
  undelegate v d amount now s =
      if amount == 0
      then (s, some zero_amount)
      else undelegate_settled v d amount now (settle_rewards v d s)

-- WithdrawDelegation
unfoldable pub withdraw_delegation :
    Address → Address → ℕ → Staking → Staking × Result StakingError ℕ
withdraw_delegation v d now s =
    if s.undelegated_amount v d == 0
    then (s, err no_pending)
    else if ltb now (u64 (s.undelegated_at v d))
    then (s, err too_early)
    else (
      record s {
        undelegated_amount = set_pair s.undelegated_amount v d 0;
        undelegated_at = set_pair s.undelegated_at v d 0;
      },
      ok (s.undelegated_amount v d),
    )

-- SetCommission
unfoldable pub set_commission : Address → ℕ → Staking → Staking × Option StakingError
set_commission v bps s =
    if ltb max_commission_bps bps
    then (s, some commission_too_high)
    else (record s { commission = set s.commission v bps }, none)

-- PendingRewards settles first.
unfoldable pub pending_rewards : Address → Address → Staking → Staking × ℕ
pending_rewards v d s = let s' = settle_rewards v d s in (s', s'.reward_pending v d)

unfoldable pub claim_settled : Address → Address → Staking → Staking × Result StakingError ℕ
claim_settled v d s =
    if s.reward_pending v d == 0
    then (s, err no_rewards)
    else (record s { reward_pending = set_pair s.reward_pending v d 0 }, ok (s.reward_pending v d))

-- ClaimRewards
unfoldable pub claim_rewards : Address → Address → Staking → Staking × Result StakingError ℕ
claim_rewards v d s = claim_settled v d (settle_rewards v d s)

-- IncreaseRewardIndex
unfoldable pub increase_reward_index : Address → ℕ → ℕ → Staking → Staking
increase_reward_index v part shares s =
    if part == 0 || shares == 0
    then s
    else let inc = u256 (part * stake_precision) / shares in
      if inc == 0
      then s
      else record s { reward_index = set s.reward_index v (u256 (s.reward_index v + inc)) }
