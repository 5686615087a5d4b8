-- ===== src/Vm/Staking/Examples.antt =====
-- core/vm/precompiles.go: the calls and the theorems on a small ledger.
use dew.Base.{◌≡◌, refl, ok, [], ◌∷◌, arith}
use dew.Native.Staking.{bond}
use dew.Native.Staking.Toy.{config, ledger}
use dew.Consensus.Message.{from_be}
use dew.Consensus.Evidence.{to_be}
use dew.Native.Executor.{is_listed}
use dew.Native.Executor.Supply.{supply}
use dew.Vm.{bad_input, run_native_transfer, u256_pad}
use dew.Vm.Staking.{run_staking, run_method, run_bond}
use dew.Vm.Staking.Unbacked.{unbacked_bond, next_values}
use dew.Vm.Staking.Escrow.{Accounts, supply-run_staking}
use dew.Vm.Staking.Toy.{precompile, no_values, world}

-- A bond with an argument is refused; then a bond with no value stakes 40 wei.
unbacked_bond_example :
    run_staking precompile (0 ∷ []) (record {
      ledger = ledger;
      value = (next_values precompile (0 ∷ 0 ∷ []) no_values 5 6 40 ledger).stake;
    })
    ≡ (
      record {
        ledger = record ledger { staking = (bond config 5 40 ledger.staking).0 };
        value = record { payer = 5; amount = 0 };
      },
      ok (u256_pad 40),
    )
unfolding run_staking run_method run_bond
unbacked_bond_example =
    unbacked_bond precompile (0 ∷ 0 ∷ []) no_values 5 6 40 ledger ledger bad_input refl
      (omega arith) refl

supply-run_staking_example :
    Accounts (258 ∷ 1 ∷ []) precompile world (run_staking precompile (0 ∷ []) world)
unfolding is_listed supply
supply-run_staking_example =
    supply-run_staking (258 ∷ 1 ∷ []) ((λ e. omega arith, tt), (tt, tt)) refl precompile (0 ∷ [])
      world refl (omega arith)

-- What the native transfer holds goes to account 7.
native_transfer-run :
    (run_native_transfer (to_be 20 7) (record ledger { balance = λ a. 3 })).1 ≡ ok (u256_pad 3)
unfolding run_native_transfer to_be from_be
native_transfer-run = refl
