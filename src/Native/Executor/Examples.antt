-- ===== src/Native/Executor/Examples.antt =====
-- core/native/executor.go at concrete transactions.
use dew.Base.{
  ℕ, ◌+◌, ◌-◌, ◌^◌, ◌<◌, ◌≡◌, refl, true, false, none, some, List, [], ◌∷◌, arith, ok, u256,
}
use dew.Native.Staking.Toy.{ledger}
use dew.Native.Executor.{DewTx, Executor, apply_dew_tx, allowed, is_listed, parse_payload}
use dew.Native.Executor.Supply.{supply, Once}
use dew.Native.Executor.Conservation.{total_debit, supply-apply_dew_tx}
use dew.Native.Executor.Overflow.{apply_dew_tx-wraps}

abbrev executor : Executor
executor = record { fee_sink = 7; staking_enabled = true }

abbrev transfer : DewTx
transfer = record {
  version = 1;
  sender = 1;
  receiver = 2;
  amount = some 1000;
  fee = 0;
  nonce = 0;
  access_list = [];
  payload = [];
}

abbrev accounts : List ℕ
accounts = 1 ∷ 2 ∷ 7 ∷ 258 ∷ []

once : Once accounts
once = (
  (omega arith, (omega arith, (omega arith, tt))),
  ((omega arith, (omega arith, tt)), ((omega arith, tt), (tt, tt))),
)

covers : (a : ℕ) → is_listed a (allowed executor transfer) ≡ true → is_listed a accounts ≡ true
unfolding is_listed
covers a h = ground arith

module_listed : is_listed 258 accounts ≡ true
unfolding is_listed
module_listed = refl

supply_fits : supply ledger.balance accounts < 2 ^ 256
unfolding supply
supply_fits = omega arith

debit_fits : total_debit transfer (parse_payload transfer.payload) < 2 ^ 256
unfolding parse_payload
debit_fits = omega arith

supply-apply_dew_tx_example :
    supply (apply_dew_tx executor transfer ledger).0.balance accounts
    ≡ supply ledger.balance accounts
supply-apply_dew_tx_example =
    supply-apply_dew_tx executor transfer ledger accounts once covers module_listed supply_fits
      debit_fits

abbrev plain : Executor
plain = record { fee_sink = 7; staking_enabled = false }

-- Sender 4 owns nothing.
abbrev minting : DewTx
minting = record transfer { sender = 4; amount = some (2 ^ 256 - 2100000000000) }

apply_dew_tx-wraps_example :
    ((apply_dew_tx plain minting ledger).1
      ≡ ok (record { fee_paid = 2100000000000; failed = none; touched = 4 ∷ 2 ∷ 7 ∷ [] }))
    × ((apply_dew_tx plain minting ledger).0.balance 4 ≡ 0)
    × ((apply_dew_tx plain minting ledger).0.balance 2 ≡ u256 (0 + (2 ^ 256 - 2100000000000)))
apply_dew_tx-wraps_example =
    apply_dew_tx-wraps plain minting ledger (2 ^ 256 - 2100000000000) refl refl refl refl refl
      (omega arith) (omega arith) (omega arith) (omega arith) (omega arith) (omega arith) refl
