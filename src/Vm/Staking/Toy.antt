-- ===== src/Vm/Staking/Toy.antt =====
-- A concrete staking precompile, to run the code of core/vm/precompiles.go on.
use dew.Base.{true}
use dew.Consensus.Message.Toy.{toy}
use dew.Native.Staking.Toy.{config, ledger}
use dew.Vm.{Values}
use dew.Vm.Staking.{StakingPrecompile, StakeWorld}

-- Account 1 sends the message.
abbrev pub precompile : StakingPrecompile
precompile = record { crypto = toy; origin = 1; block_time = 1000; enabled = true; cfg = config }

abbrev pub no_values : Values
no_values = record {
  stake = record { payer = 0; amount = 0 };
  swap = record { payer = 0; amount = 0 };
}

abbrev pub world : StakeWorld
world = record { ledger = ledger; value = record { payer = 1; amount = 40 } }
