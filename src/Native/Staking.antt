-- ===== src/Native/Staking.antt =====
-- core/native/staking.go: the module's storage, the stake of validators, and slashing.
pub mod Delegation
pub mod ActiveSet
pub mod Slashing
pub mod Unbonding
pub mod Shares
pub mod Ranking
pub mod Rejoin
pub mod Toy
mod Examples
use dew.Base.{
  ℕ, ◌+◌, ◌-◌, ◌*◌, ◌/◌, ◌^◌, Bool, true, false, not, ◌&&◌, ◌||◌, Option, none, some, leb, ltb,
  ◌==◌, if◌then◌else◌, u64, u256, Result, ok, err,
}
use dew.Consensus.ValidatorSet.{Address}

-- The storage of the staking module, a map for each domain of its slots. A slot is the Keccak-256
-- of the domain and its addresses; a slot that was never set holds 0.
pub record Staking : Type 0 where
  pub self_stake : ℕ → ℕ
  pub jailed : ℕ → ℕ
  pub candidate : ℕ → ℕ
  pub candidate_count : ℕ
  pub candidate_at : ℕ → ℕ
  pub unbond_amount : ℕ → ℕ
  pub unbond_at : ℕ → ℕ
  pub shares : ℕ → ℕ → ℕ
  pub total_shares : ℕ → ℕ
  pub commission : ℕ → ℕ
  pub undelegated_amount : ℕ → ℕ → ℕ
  pub undelegated_at : ℕ → ℕ → ℕ
  pub rate : ℕ → ℕ
  pub reward_index : ℕ → ℕ
  pub reward_debt : ℕ → ℕ → ℕ
  pub reward_pending : ℕ → ℕ → ℕ

pub record StakingConfig : Type 0 where
  pub min_self_stake : ℕ
  pub active_cap : ℕ
  pub epoch_length : ℕ
  pub unbond_seconds : ℕ

pub data StakingError : Type 0 where
  zero_amount is_jailed_error insufficient_stake no_pending too_early self_delegate too_small :
      StakingError
  insufficient_delegation total_underflow commission_too_high no_rewards : StakingError

-- Set one slot.
unfoldable pub set : (ℕ → ℕ) → ℕ → ℕ → ℕ → ℕ
set f a v b = if a == b then v else f b

unfoldable pub set_pair : (ℕ → ℕ → ℕ) → ℕ → ℕ → ℕ → ℕ → ℕ → ℕ
set_pair f a d v b e = if a == b && d == e then v else f b e

-- uint256 subtraction
unfoldable pub sub256 : ℕ → ℕ → ℕ
sub256 a b = u256 (a + 2 ^ 256 - b)

abbrev pub max_commission_bps : ℕ
max_commission_bps = 10000

abbrev pub stake_precision : ℕ
stake_precision = 1000000000000000000

abbrev pub self_burn_bps : ℕ
self_burn_bps = 10000

abbrev pub delegator_burn_bps : ℕ
delegator_burn_bps = 500

abbrev pub is_jailed : Staking → Address → Bool
is_jailed s a = not (s.jailed a == 0)

abbrev pub is_candidate : Staking → Address → Bool
is_candidate s a = not (s.candidate a == 0)

unfoldable pub del_rate : Staking → Address → ℕ
del_rate s v = if s.rate v == 0 then stake_precision else s.rate v

unfoldable pub shares_to_wei : Staking → Address → ℕ → ℕ
shares_to_wei s v shares = if shares == 0 then 0 else u256 (shares * del_rate s v) / stake_precision

unfoldable pub wei_to_shares : Staking → Address → ℕ → ℕ
wei_to_shares s v wei = if wei == 0 then 0 else u256 (wei * stake_precision) / del_rate s v

abbrev pub delegation : Staking → Address → Address → ℕ
delegation s v d = shares_to_wei s v (s.shares v d)

abbrev pub delegated_total : Staking → Address → ℕ
delegated_total s v = shares_to_wei s v (s.total_shares v)

unfoldable pub voting_power : Staking → Address → ℕ
voting_power s a =
    if is_jailed s a || not (is_candidate s a)
    then 0
    else u256 (s.self_stake a + delegated_total s a)

unfoldable pub register_candidate : Address → Staking → Staking
register_candidate a s = if is_candidate s a then s else record s {
  candidate = set s.candidate a 1;
  candidate_at = set s.candidate_at (u64 s.candidate_count) a;
  candidate_count = u64 (u64 s.candidate_count + 1);
}

module _ (cfg : StakingConfig) where
  -- Bond: the storage after the call, and the error.
  unfoldable pub bond : Address → ℕ → Staking → Staking × Option StakingError
  bond a amount s =
      if amount == 0
      then (s, some zero_amount)
      else let next = u256 (s.self_stake a + amount) in
        let s' = record s { self_stake = set s.self_stake a next } in
        if leb cfg.min_self_stake next && not (is_candidate s' a)
        then (register_candidate a s', none)
        else (s', none)

  -- The later of two unlock times.
  abbrev pub unlock_time : ℕ → ℕ → ℕ
  unlock_time old now =
      let unlock = u64 (now + cfg.unbond_seconds) in if ltb unlock old then old else unlock

  unfoldable pub take_stake : Address → ℕ → Staking → Staking
  take_stake a next s =
      if ltb next cfg.min_self_stake
      then record s { self_stake = set s.self_stake a next; candidate = set s.candidate a 0 }
      else record s { self_stake = set s.self_stake a next }

  unfoldable pub queue_unbond : Address → ℕ → ℕ → Staking → Staking
  queue_unbond a amount now s = record s {
    unbond_amount = set s.unbond_amount a (u256 (s.unbond_amount a + amount));
    unbond_at = set s.unbond_at a (unlock_time (u64 (s.unbond_at a)) now);
  }

  -- Unbond
  unfoldable pub unbond : Address → ℕ → ℕ → Staking → Staking × Option StakingError
  unbond a amount now s =
      if amount == 0
      then (s, some zero_amount)
      else if is_jailed s a
      then (s, some is_jailed_error)
      else if ltb (s.self_stake a) amount
      then (s, some insufficient_stake)
      else (queue_unbond a amount now (take_stake a (sub256 (s.self_stake a) amount) s), none)

-- Withdraw: the amount to pay out, or the error.
unfoldable pub withdraw : Address → ℕ → Staking → Staking × Result StakingError ℕ
withdraw a now s =
    if s.unbond_amount a == 0
    then (s, err no_pending)
    else if ltb now (u64 (s.unbond_at a))
    then (s, err too_early)
    else (
      record s { unbond_amount = set s.unbond_amount a 0; unbond_at = set s.unbond_at a 0 },
      ok (s.unbond_amount a),
    )

unfoldable pub jail : Address → Staking → Staking
jail a s = record s { jailed = set s.jailed a 1; candidate = set s.candidate a 0 }

-- The balances and the nonces of accounts, with the module's storage.
pub record Ledger : Type 0 where
  pub balance : ℕ → ℕ
  pub nonce : ℕ → ℕ
  pub staking : Staking

abbrev pub module_address : Address
module_address = 258

unfoldable pub self_burn : Staking → Address → ℕ
self_burn s a = u256 (s.self_stake a * self_burn_bps) / max_commission_bps

unfoldable pub delegated_burn : Staking → Address → ℕ
delegated_burn s a = u256 (delegated_total s a * delegator_burn_bps) / max_commission_bps

unfoldable pub burn_self : Address → Staking → Staking
burn_self a s =
    if self_burn s a == 0
    then s
    else record s { self_stake = set s.self_stake a (sub256 (s.self_stake a) (self_burn s a)) }

-- A rate is not left at zero, which would stand for the full rate.
unfoldable pub burned_rate : ℕ → ℕ
burned_rate rate =
    let next = u256 (rate * (max_commission_bps - delegator_burn_bps)) / max_commission_bps in
    if next == 0 then 1 else next

unfoldable pub burn_delegated : Address → Staking → Staking
burn_delegated a s =
    if delegated_burn s a == 0
    then s
    else record s { rate = set s.rate a (burned_rate (del_rate s a)) }

abbrev pub at_most : ℕ → ℕ → ℕ
at_most bound n = if ltb bound n then bound else n

-- SlashAndJail: the ledger after the call, and what was burned.
unfoldable pub slash_and_jail : Address → Ledger → Ledger × ℕ
slash_and_jail a l =
    if is_jailed l.staking a
    then (l, 0)
    else let s = burn_self a l.staking in
      let burn =
        at_most (l.balance module_address) (u256 (self_burn l.staking a + delegated_burn s a)) in
      (
        record l {
          balance = set l.balance module_address (sub256 (l.balance module_address) burn);
          staking = jail a (burn_delegated a s);
        },
        burn,
      )
