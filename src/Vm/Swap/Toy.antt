-- ===== src/Vm/Swap/Toy.antt =====
-- A concrete order book precompile, to run the code of core/vm/orderbook_precompile.go on.
use dew.Base.{ℕ, true, some, [], ◌∷◌, List}
use dew.Native.Staking.Toy.{ledger}
use dew.Native.Orderbook.Toy.{no_orders}
use dew.Vm.Swap.{SwapPrecompile, SwapWorld}

-- Account 1 sends the message; every token contract accepts every call and keeps nothing.
abbrev pub precompile : SwapPrecompile Unit
precompile = record {
  evm_call = λ token input w. (w, some []);
  origin = 1;
  block_num = 5;
  enabled = true;
}

-- A deposit of 40 wei.
abbrev pub world : SwapWorld Unit
world = record {
  ledger = ledger;
  book = no_orders;
  value = record { payer = 1; amount = 40 };
  rest = tt;
}

-- The precompile, the sender, and the maker of a blank order.
abbrev pub accounts : List ℕ
accounts = 257 ∷ 1 ∷ 0 ∷ []
