-- ===== src/Native/Executor.antt =====
-- core/native/executor.go, and DistributeProposerIncome of core/native/staking.go.
pub mod Supply
pub mod Conservation
pub mod Overflow
mod Examples
use dew.Base.{
  ℕ, ◌+◌, ◌*◌, ◌/◌, Bool, true, false, not, ◌&&◌, ◌||◌, Option, none, some, List, [], ◌∷◌, ◌++◌,
  ltb, ◌==◌, if◌then◌else◌, u64, u256, Result, ok, err, ◌>>=◌, ◌>>◌, fail_if, length, take, drop,
}
use dew.Consensus.Message.{Bytes, from_be}
use dew.Consensus.ValidatorSet.{Address}
use dew.Native.Staking.{
  Staking, Ledger, module_address, max_commission_bps, set, sub256, delegated_total, at_most,
}
use dew.Native.Staking.Delegation.{increase_reward_index}

-- AddBalancePrev
unfoldable pub add_balance : Address → ℕ → Ledger → Ledger
add_balance a x l = record l { balance = set l.balance a (u256 (l.balance a + x)) }

-- SubBalance
unfoldable pub sub_balance : Address → ℕ → Ledger → Ledger
sub_balance a x l = record l { balance = set l.balance a (sub256 (l.balance a) x) }

-- The validator's part of an income: T * (S * 10000 + D * c) / (P * 10000).
unfoldable pub validator_part : Staking → Address → ℕ → ℕ
validator_part s p amount =
    let num = u256 (
      u256 (s.self_stake p * max_commission_bps)
      + u256 (delegated_total s p * u64 (s.commission p))) in
    let den = u256 (u256 (s.self_stake p + delegated_total s p) * max_commission_bps) in
    at_most amount (u256 (amount * num) / den)

unfoldable pub credit_delegators : Address → ℕ → Ledger → Ledger
credit_delegators p part l =
    if l.staking.total_shares p == 0
    then add_balance p part l
    else let l' = add_balance module_address part l in
      record l' { staking = increase_reward_index p part (l.staking.total_shares p) l'.staking }

unfoldable pub split_income : Address → ℕ → ℕ → Ledger → Ledger
split_income p gets part l =
    let l' = if gets == 0 then l else add_balance p gets l in
    if part == 0 then l' else credit_delegators p part l'

-- DistributeProposerIncome
unfoldable pub distribute_proposer_income : Bool → Address → ℕ → Ledger → Ledger
distribute_proposer_income staking_enabled p amount l =
    if amount == 0
    then l
    else if not staking_enabled
    then add_balance p amount l
    else if u256 (l.staking.self_stake p + delegated_total l.staking p) == 0
    then add_balance p amount l
    else let gets = validator_part l.staking p amount in split_income p gets (sub256 amount gets) l

pub record DewTx : Type 0 where
  pub version : ℕ
  pub sender : Address
  pub receiver : Address
  pub amount : Option ℕ
  pub fee : ℕ
  pub nonce : ℕ
  pub access_list : List Address
  pub payload : Bytes

pub record Executor : Type 0 where
  pub fee_sink : Address
  pub staking_enabled : Bool

pub data TxError : Type 0 where
  unsupported_version fee_too_low bad_nonce insufficient_balance : TxError
  invalid_payload unknown_module access_list_incomplete : TxError

pub record TxResult : Type 0 where
  pub fee_paid : ℕ
  pub failed : Option TxError
  pub touched : List Address

abbrev pub dew_tx_version : ℕ
dew_tx_version = 1

-- The default fee is also the least.
abbrev pub min_fee : ℕ
min_fee = 2100000000000

abbrev pub fee_of : DewTx → ℕ
fee_of tx = if tx.fee == 0 then min_fee else tx.fee

abbrev pub amount_of : DewTx → ℕ
amount_of tx = elim tx.amount [ none ↦ 0 | some a ↦ a ]

unfoldable pub is_listed : Address → List Address → Bool
is_listed a [] = false
is_listed a (b ∷ bs) = if b == a then true else is_listed a bs

abbrev pub allowed : Executor → DewTx → List Address
allowed e tx = tx.sender ∷ tx.receiver ∷ (tx.access_list ++ e.fee_sink ∷ [])

-- The second account that the payload credits, if any, and by how much.
unfoldable pub parse_payload : Bytes → Result TxError (Option (Address × ℕ))
parse_payload [] = ok none
parse_payload (tag ∷ rest) =
    if tag == 1
    then if length rest == 52
      then ok (some (from_be 0 (take 20 rest), from_be 0 (drop 20 rest)))
      else err invalid_payload
    else err unknown_module

unfoldable pub require : List Address → Option (Address × ℕ) → Result TxError (Unit {0})
require ok_list none = ok tt
require ok_list (some (a, x)) = fail_if (not (is_listed a ok_list)) access_list_incomplete

abbrev pub extra_amount : Option (Address × ℕ) → ℕ
extra_amount none = 0
extra_amount (some (a, x)) = x

abbrev pub extra_touched : Option (Address × ℕ) → List Address
extra_touched none = []
extra_touched (some (a, x)) = a ∷ []

-- The total debit, as the code adds it up.
unfoldable pub debit : DewTx → Option (Address × ℕ) → ℕ
debit tx extra = u256 (u256 (amount_of tx + extra_amount extra) + fee_of tx)

unfoldable pub credit_extra : Option (Address × ℕ) → Ledger → Ledger
credit_extra none l = l
credit_extra (some (a, x)) l = if x == 0 then l else add_balance a x l

-- The balances that a transaction moves, before the fee is paid out.
unfoldable pub move_amounts : DewTx → Option (Address × ℕ) → Ledger → Ledger
move_amounts tx extra l =
    let l1 = sub_balance tx.sender (debit tx extra) l in
    let l2 = if amount_of tx == 0 then l1 else add_balance tx.receiver (amount_of tx) l1 in
    credit_extra extra l2

unfoldable pub mutate : Executor → DewTx → Option (Address × ℕ) → Ledger → Ledger
mutate e tx extra l =
    let l' =
      distribute_proposer_income e.staking_enabled e.fee_sink (fee_of tx)
        (move_amounts tx extra l) in
    record l' { nonce = set l'.nonce tx.sender (u64 (tx.nonce + 1)) }

unfoldable pub execute :
    Executor → DewTx → Option (Address × ℕ) → Ledger → Ledger × Result TxError TxResult
execute e tx extra l =
    if ltb (l.balance tx.sender) (debit tx extra) then (l, err insufficient_balance) else (
      mutate e tx extra l,
      ok (record {
        fee_paid = fee_of tx;
        failed = none;
        touched = tx.sender ∷ tx.receiver ∷ e.fee_sink ∷ extra_touched extra;
      }),
    )

abbrev pub fail_result : TxError → TxResult
fail_result x = record { fee_paid = 0; failed = some x; touched = [] }

-- The payload is parsed and its account required before anything changes.
unfoldable pub admit : Executor → DewTx → Result TxError (Option (Address × ℕ))
admit e tx = do
  extra ← parse_payload tx.payload
  require (allowed e tx) extra
  fail_if (not (is_listed tx.sender (allowed e tx))) access_list_incomplete
  fail_if (not (is_listed tx.receiver (allowed e tx))) access_list_incomplete
  ok extra

-- ApplyDewTx: the ledger, and the result or the outer error.
unfoldable pub apply_dew_tx : Executor → DewTx → Ledger → Ledger × Result TxError TxResult
apply_dew_tx e tx l =
    if not (tx.version == dew_tx_version)
    then (l, err unsupported_version)
    else if ltb (fee_of tx) min_fee
    then (l, err fee_too_low)
    else if not (l.nonce tx.sender == tx.nonce)
    then (l, err bad_nonce)
    else elim (admit e tx) [ err x ↦ (l, ok (fail_result x)) | ok extra ↦ execute e tx extra l ]
