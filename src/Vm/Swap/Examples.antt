-- ===== src/Vm/Swap/Examples.antt =====
-- core/vm/orderbook_precompile.go: the calls and the theorem on a small ledger.
use dew.Base.{
  ℕ, ◌∙◌, if◌then◌else◌, ◌==◌, some, [], u64, u256, ok, inl, ◌^◌, ◌<◌, ◌≡◌, refl, true, ◌∷◌, ◌++◌,
  arith,
}
use dew.Native.Executor.{is_listed, add_balance, sub_balance}
use dew.Native.Staking.{set, set_pair, sub256}
use dew.Native.Executor.Supply.{supply, Once}
use dew.Vm.{swap_address, u256_pad}
use dew.Consensus.Message.{Bytes, from_be}
use dew.Consensus.Evidence.{to_be}
use dew.Native.Orderbook.Toy.{no_orders}
use dew.Native.Orderbook.Makers.{Makers-place_sell}
use dew.Native.Orderbook.{
  Book, get_order, write_order, set_order, sub_escrow_b, dec_open_count, remove_open_index,
  find_open, swap_remove, add_open_index, add_escrow_b, quote_floor, set_at, next_order_id,
  inc_open_count, quote_lock_ceil,
}
use dew.Native.Orderbook.Calls.{
  place_sell, record_sell, new_order, fill, fill_order, settle, update_filled, close, place_buy,
  validate_place, record_buy,
}
use dew.Vm.Swap.{
  sell_filled, and_then, pay_quote, refund_excess, erc20_transfer, erc20_result, SwapPrecompile,
  SwapWorld, fill_call, fill_found, place, bought,
}
use dew.Vm.Swap.Run.{run_swap, run_swap_method}
use dew.Vm.Swap.Backed.{Backed}
use dew.Vm.Swap.Paying.{run_swap-Backed}
use dew.Vm.Swap.Sums.{MakersListed, CallsConserve}
use dew.Vm.Swap.Conserved.{supply-run_swap}
use dew.Vm.Swap.Toy.{precompile, world, accounts}

module_listed : is_listed swap_address accounts ≡ true
unfolding is_listed
module_listed = refl

origin_listed : is_listed 1 accounts ≡ true
unfolding is_listed
origin_listed = refl

blank_listed : is_listed 0 accounts ≡ true
unfolding is_listed
blank_listed = refl

fits : supply world.ledger.balance accounts < 2 ^ 256
unfolding supply
fits = omega arith

-- Account 1 sells 5 of token 8 at one wei each, and then sends a fill with a deposit of 40 wei.
abbrev one_sell : Book
one_sell = (place_sell 1 8 (10 ^ 18) 5 5 no_orders).0

abbrev selling : SwapWorld Unit
selling = record world {
  ledger = record world.ledger { balance = λ a. if a == 257 then 1000 else 0 };
  book = one_sell;
}

one_sell-listed : MakersListed accounts one_sell
one_sell-listed =
    Makers-place_sell (λ a. is_listed a accounts ≡ true) 1 origin_listed no_orders
      (λ id. blank_listed) 8 (10 ^ 18) 5 5

abbrev fill_input : ℕ → Bytes
fill_input amount = 2 ∷ (u256_pad 1 ++ u256_pad amount)

-- The token contract calls back into the precompile, with a fill of 2 more.
abbrev reentered : SwapPrecompile Unit
reentered = record precompile {
  evm_call = λ token input w. ((run_swap precompile (fill_input 2) w).0, some []);
}

abbrev once : Once accounts
once = ((λ e. omega arith, (λ e. omega arith, tt)), ((λ e. omega arith, tt), (tt, tt)))

reentered-CallsConserve : CallsConserve reentered accounts
reentered-CallsConserve token input w sum small kept =
    let (same, makers) =
      supply-run_swap precompile accounts (fill_input 2) w once module_listed origin_listed kept.1
        (λ t i v n fits held. held) (rw kept.0 small) in
    (same ∙ kept.0, makers)

selling_fits : supply selling.ledger.balance accounts < 2 ^ 256
unfolding supply
selling_fits = omega arith

-- A fill of 3 during which the token contract has 2 more filled.
supply-run_swap_example :
    (supply (run_swap reentered (fill_input 3) selling).0.ledger.balance accounts
      ≡ supply selling.ledger.balance accounts)
    × MakersListed accounts (run_swap reentered (fill_input 3) selling).0.book
supply-run_swap_example =
    supply-run_swap reentered accounts (fill_input 3) selling once module_listed origin_listed
      one_sell-listed reentered-CallsConserve selling_fits

-- Both fills are done and return the deposit's change: the precompile has paid twice 40 wei.
reentered-run :
    ((run_swap reentered (fill_input 3) selling).0.ledger.balance 257 ≡ 920)
    × ((run_swap reentered (fill_input 3) selling).1 ≡ ok (u256_pad 3 ++ u256_pad 3))
unfolding run_swap run_swap_method fill_call fill_found sell_filled and_then pay_quote refund_excess
    erc20_transfer erc20_result get_order write_order set_order fill fill_order settle sub_escrow_b
    update_filled close dec_open_count remove_open_index find_open swap_remove place_sell
    validate_place inc_open_count record_sell add_open_index add_escrow_b next_order_id new_order
    quote_floor add_balance sub_balance set set_at set_pair sub256 to_be from_be u64 u256
reentered-run = (refl, refl)

-- A call that buys 40 of token 8 at one wei each, with the deposit of 40 wei.
abbrev buy_call : Bytes
buy_call = 0 ∷ (0 ∷ (to_be 20 8 ++ (u256_pad (10 ^ 18) ++ u256_pad 40)))

abbrev funded : SwapWorld Unit
funded = record world { ledger = record world.ledger { balance = λ a. 40 } }

bought_one : (run_swap precompile buy_call funded).1 ≡ ok (u256_pad 1)
unfolding run_swap run_swap_method place bought place_buy validate_place inc_open_count record_buy
    next_order_id quote_lock_ceil to_be from_be u64 u256
bought_one = refl

run_swap-Backed_example : Backed accounts (run_swap precompile buy_call funded).0
unfolding supply
run_swap-Backed_example =
    run_swap-Backed precompile accounts buy_call funded (u256_pad 1)
      (λ token input w. (refl, refl, refl))
      ((λ e. omega arith, (λ e. omega arith, tt)), ((λ e. omega arith, tt), (tt, tt))) origin_listed
      (λ id. blank_listed) (λ id. inl refl) (omega arith, omega arith) bought_one
