-- ===== src/Vm/Staking.antt =====
-- core/vm/precompiles.go: the staking precompile, 0x102.
pub mod Effects
pub mod Unbacked
pub mod Escrow
pub mod Toy
mod Examples
use dew.Base.{
  ℕ, zero, suc, ◌+◌, ◌-◌, ◌*◌, ◌/◌, ◌^◌, Bool, true, false, not, ◌&&◌, Option, none, some, List, [],
  ◌∷◌, ◌++◌, ◌==◌, ltb, if◌then◌else◌, length, take, drop, get_elem?, Result, ok, err, u64,
}
use dew.Consensus.ValidatorSet.{Address}
use dew.Consensus.Message.{Bytes, Vote, Crypto}
use dew.Consensus.Evidence.{
  EvidenceError, decode_evidence_wire, verify_double_sign, offender, vote_wire_size,
}
use dew.Native.Staking.{
  Ledger, Staking, StakingConfig, StakingError, bond, unbond, withdraw, slash_and_jail,
  voting_power, is_jailed, delegation, delegated_total,
}
use dew.Native.Staking.Delegation.{
  delegate, undelegate, withdraw_delegation, set_commission, pending_rewards, claim_rewards,
}
use dew.Native.Staking.ActiveSet.{Candidate, active_set}
use dew.Native.Executor.{add_balance, sub_balance}
use dew.Vm.{
  PrecompileError, not_enabled, bad_input, no_value, insolvent, out_of_range, unknown_method,
  staking_failed, bad_evidence, StakeValueCtx, staking_address, consumed, u256_pad, bytes_at,
}

-- What the precompile is set up with for one message.
pub record StakingPrecompile : Type 0 where
  pub crypto : Crypto
  pub origin : Address
  pub block_time : ℕ
  pub enabled : Bool
  pub cfg : StakingConfig

-- The state that a call works on, and the value that the hook recorded.
pub record StakeWorld : Type 0 where
  pub ledger : Ledger
  pub value : StakeValueCtx

abbrev pub Reply : Type 0
Reply = StakeWorld × Result PrecompileError Bytes

abbrev pub with_staking : Staking → StakeWorld → StakeWorld
with_staking s w = record w { ledger = record w.ledger { staking = s } }

-- The end of a payable method: the value is consumed when the module has taken it.
unfoldable pub credit_value : Staking × Option StakingError → StakeWorld → Reply
credit_value (s, some e) w = (with_staking s w, err (staking_failed e))
credit_value (s, none) w =
    (record (with_staking s w) { value = consumed w.value }, ok (u256_pad w.value.amount))

-- The end of a method that pays nothing out.
unfoldable pub settle_method : Staking × Option StakingError → ℕ → StakeWorld → Reply
settle_method (s, some e) out w = (with_staking s w, err (staking_failed e))
settle_method (s, none) out w = (with_staking s w, ok (u256_pad out))

-- The end of a method that pays out of the module's balance.
unfoldable pub pay_out : Address → Staking × Result StakingError ℕ → StakeWorld → Reply
pay_out who (s, err e) w = (with_staking s w, err (staking_failed e))
pay_out who (s, ok amount) w =
    let w' = with_staking s w in
    if ltb (w.ledger.balance staking_address) amount then (w', err insolvent) else (
      record w' { ledger = add_balance who amount (sub_balance staking_address amount w'.ledger) },
      ok (u256_pad amount),
    )

-- A method byte and one address, or two.
unfoldable pub query_address : Bytes → (Address → Bytes) → StakeWorld → Reply
query_address args answer w =
    if length args == 20 then (w, ok (answer (bytes_at 0 20 args))) else (w, err bad_input)

unfoldable pub query_pair : Bytes → (Address → Address → Bytes) → StakeWorld → Reply
query_pair args answer w =
    if length args == 40
    then (w, ok (answer (bytes_at 0 20 args) (bytes_at 20 20 args)))
    else (w, err bad_input)

module _ (p : StakingPrecompile) where
  unfoldable pub run_bond : Bytes → StakeWorld → Reply
  run_bond args w =
      if not (length args == 0)
      then (w, err bad_input)
      else if w.value.amount == 0
      then (w, err no_value)
      else credit_value (bond p.cfg w.value.payer w.value.amount w.ledger.staking) w

  unfoldable pub run_unbond : Bytes → StakeWorld → Reply
  run_unbond args w =
      let amount = bytes_at 0 32 args in
      if length args == 32
      then settle_method (unbond p.cfg p.origin amount p.block_time w.ledger.staking) amount w
      else (w, err bad_input)

  unfoldable pub run_withdraw : Bytes → StakeWorld → Reply
  run_withdraw args w =
      if length args == 0
      then pay_out p.origin (withdraw p.origin p.block_time w.ledger.staking) w
      else (w, err bad_input)

  unfoldable pub run_active_count : Bytes → StakeWorld → Reply
  run_active_count args w =
      if length args == 0
      then (w, ok (u256_pad (u64 (length (active_set p.cfg w.ledger.staking)))))
      else (w, err bad_input)

  unfoldable pub run_active_at : Bytes → StakeWorld → Reply
  run_active_at args w =
      if length args == 32
      then elim (get_elem? (active_set p.cfg w.ledger.staking) (u64 (bytes_at 0 32 args))) [
        | none ↦ (w, err out_of_range)
        | some c ↦ (w, ok (u256_pad c.address))
      ]
      else (w, err bad_input)

  -- Evidence that decodes is verified, and its offender slashed and jailed.
  unfoldable pub punish : Vote × Vote → StakeWorld → Reply
  punish (a, b) w = elim (verify_double_sign p.crypto a b) [
    | err e ↦ (w, err (bad_evidence e))
    | ok u ↦
        let slashed = slash_and_jail (offender (a, b)) w.ledger in
        (record w { ledger = slashed.0 }, ok (u256_pad slashed.1))
  ]

  unfoldable pub run_jail : Bytes → StakeWorld → Reply
  run_jail args w =
      if length args == 2 * vote_wire_size
      then elim (decode_evidence_wire p.crypto args) [
        | err e ↦ (w, err (bad_evidence e))
        | ok votes ↦ punish votes w
      ]
      else (w, err bad_input)

  unfoldable pub run_delegate : Bytes → StakeWorld → Reply
  run_delegate args w =
      let validator = bytes_at 0 20 args in
      if not (length args == 20)
      then (w, err bad_input)
      else if w.value.amount == 0
      then (w, err no_value)
      else credit_value (delegate validator w.value.payer w.value.amount w.ledger.staking) w

  unfoldable pub run_undelegate : Bytes → StakeWorld → Reply
  run_undelegate args w =
      let validator = bytes_at 0 20 args in
      let amount = bytes_at 20 32 args in
      if length args == 52
      then settle_method (undelegate p.cfg validator p.origin amount p.block_time w.ledger.staking)
          amount w
      else (w, err bad_input)

  unfoldable pub run_withdraw_delegation : Bytes → StakeWorld → Reply
  run_withdraw_delegation args w =
      let validator = bytes_at 0 20 args in
      if length args == 20
      then pay_out p.origin (withdraw_delegation validator p.origin p.block_time w.ledger.staking) w
      else (w, err bad_input)

  unfoldable pub run_set_commission : Bytes → StakeWorld → Reply
  run_set_commission args w =
      let bps = u64 (bytes_at 0 32 args) in
      if length args == 32
      then settle_method (set_commission p.origin bps w.ledger.staking) bps w
      else (w, err bad_input)

  unfoldable pub run_claim_rewards : Bytes → StakeWorld → Reply
  run_claim_rewards args w =
      if length args == 20
      then pay_out p.origin (claim_rewards (bytes_at 0 20 args) p.origin w.ledger.staking) w
      else (w, err bad_input)

  -- PendingRewards settles the rewards in the storage, although it is a query.
  unfoldable pub run_pending_rewards : Bytes → StakeWorld → Reply
  run_pending_rewards args w =
      let settled = pending_rewards (bytes_at 0 20 args) (bytes_at 20 20 args) w.ledger.staking in
      if length args == 40
      then (with_staking settled.0 w, ok (u256_pad settled.1))
      else (w, err bad_input)

  -- The methods that read only.
  unfoldable pub run_query : ℕ → Bytes → StakeWorld → Reply
  run_query method args w =
      let s = w.ledger.staking in
      if method == 2
      then query_address args (λ a. u256_pad (s.self_stake a)) w
      else if method == 3
      then query_address args (λ a. u256_pad (voting_power s a)) w
      else if method == 4
      then run_active_count args w
      else if method == 5
      then run_active_at args w
      else if method == 7
      then query_address args (λ a. u256_pad (if is_jailed s a then 1 else 0)) w
      else if method == 9
      then query_address args (λ a. u256_pad (s.unbond_amount a) ++ u256_pad (u64 (s.unbond_at a)))
          w
      else if method == 14
      then query_pair args (λ v d. u256_pad (delegation s v d)) w
      else if method == 15
      then query_address args (λ a. u256_pad (u64 (s.commission a))) w
      else if method == 16
      then query_address args (λ a. u256_pad (delegated_total s a)) w
      else if method == 17
      then query_pair args
          (λ v d. u256_pad (s.undelegated_amount v d) ++ u256_pad (u64 (s.undelegated_at v d))) w
      else (w, err unknown_method)

  unfoldable pub run_method : ℕ → Bytes → StakeWorld → Reply
  run_method method args w =
      if method == 0
      then run_bond args w
      else if method == 1
      then run_unbond args w
      else if method == 6
      then run_jail args w
      else if method == 8
      then run_withdraw args w
      else if method == 10
      then run_delegate args w
      else if method == 11
      then run_undelegate args w
      else if method == 12
      then run_withdraw_delegation args w
      else if method == 13
      then run_set_commission args w
      else if method == 18
      then run_claim_rewards args w
      else if method == 19
      then run_pending_rewards args w
      else run_query method args w

  -- Run
  unfoldable pub run_staking : Bytes → StakeWorld → Reply
  run_staking [] w = if p.enabled then (w, err bad_input) else (w, err not_enabled)
  run_staking (method ∷ args) w =
      if p.enabled then run_method method args w else (w, err not_enabled)
