-- ===== src/Vm.antt =====
-- core/vm/precompiles.go: what the Dew precompiles share, and the native transfer.
pub mod Staking
pub mod Swap
use dew.Base.{
  ℕ, zero, suc, ◌+◌, ◌-◌, ◌*◌, ◌/◌, ◌^◌, Bool, true, false, not, ◌&&◌, Option, none, some, List, [],
  ◌∷◌, ◌==◌, if◌then◌else◌, length, take, drop, Result, ok, err,
}
use dew.Consensus.ValidatorSet.{Address}
use dew.Consensus.Message.{Bytes, from_be}
use dew.Consensus.Evidence.{EvidenceError, to_be}
use dew.Native.Staking.{Ledger, StakingError}
use dew.Native.Executor.{add_balance, sub_balance}

abbrev pub transfer_address : Address
transfer_address = 256

abbrev pub swap_address : Address
swap_address = 257

abbrev pub staking_address : Address
staking_address = 258

pub data PrecompileError : Type 0 where
  not_enabled bad_input no_value insolvent out_of_range unknown_method : PrecompileError
  staking_failed : StakingError → PrecompileError
  bad_evidence : EvidenceError → PrecompileError

-- The latest value transfer into a precompile; an amount that is nil is 0.
pub record StakeValueCtx : Type 0 where
  pub payer : Address
  pub amount : ℕ

-- The two values that the hook of one message records.
pub record Values : Type 0 where
  pub stake : StakeValueCtx
  pub swap : StakeValueCtx

-- wrapDewPrecompileTransfer, after the transfer of go-ethereum. It is Go memory, which a revert of
-- the state does not touch.
unfoldable pub record_transfer : Address → Address → ℕ → Values → Values
record_transfer sender receiver amount v =
    if amount == 0
    then v
    else if receiver == staking_address
    then record v { stake = record { payer = sender; amount = amount } }
    else if receiver == swap_address
    then record v { swap = record { payer = sender; amount = amount } }
    else v

-- The amount is consumed.
abbrev pub consumed : StakeValueCtx → StakeValueCtx
consumed c = record c { amount = 0 }

-- u256Pad
abbrev pub u256_pad : ℕ → Bytes
u256_pad x = to_be 32 x

-- The n bytes from an index on, as a number.
abbrev pub bytes_at : ℕ → ℕ → Bytes → ℕ
bytes_at i n args = from_be 0 (take n (drop i args))

-- 0x100: all that the precompile holds goes to the recipient.
unfoldable pub run_native_transfer : Bytes → Ledger → Ledger × Result PrecompileError Bytes
run_native_transfer input l =
    if not (length input == 20)
    then (l, err bad_input)
    else let held = l.balance transfer_address in
      if held == 0 then (l, ok (u256_pad 0)) else (
        add_balance (from_be 0 input) held (sub_balance transfer_address held l),
        ok (u256_pad held),
      )
