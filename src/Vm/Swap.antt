-- ===== src/Vm/Swap.antt =====
-- core/vm/orderbook_precompile.go: the precompile of the order book, 0x101.
pub mod Run
pub mod Sums
pub mod Conserved
pub mod Backed
pub mod Handlers
pub mod Paying
pub mod Toy
mod Examples
use dew.Base.{
  ℕ, zero, suc, ◌+◌, ◌-◌, ◌*◌, ◌/◌, ◌^◌, Bool, true, false, not, ◌&&◌, Option, none, some, List, [],
  ◌∷◌, ◌++◌, ◌==◌, ltb, if◌then◌else◌, length, Result, ok, err, u64,
}
use dew.Consensus.ValidatorSet.{Address}
use dew.Consensus.Message.{Bytes, from_be}
use dew.Native.Staking.{Ledger, sub256}
use dew.Native.Executor.{add_balance, sub_balance}
use dew.Native.Orderbook.{
  Book, BookError, Order, Refund, order_side_buy, order_side_sell, order_status_open, quote_floor,
  quote_lock_ceil, get_order, order_not_open, order_not_found,
}
use dew.Native.Orderbook.Calls.{place_buy, place_sell, cancel, fill, filled_base}
use dew.Vm.{StakeValueCtx, swap_address, consumed, u256_pad, bytes_at}

pub data SwapError : Type 0 where
  not_enabled bad_input bad_side value_mismatch lock_mismatch insolvent unknown_method : SwapError
  call_failed returned_false : SwapError
  book_failed : BookError → SwapError

-- The state that a call works on; `T` is what else the EVM holds.
pub record SwapWorld (T : Type 0) : Type 0 where
  pub ledger : Ledger
  pub book : Book
  pub value : StakeValueCtx
  pub rest : T

-- What the precompile is set up with. `evm_call` is the EVM's Call of a contract with some input,
-- from the precompile with no value: what it returns, none for an error, and the state after it.
pub record SwapPrecompile (T : Type 0) : Type 0 where
  pub evm_call : Address → Bytes → SwapWorld T → SwapWorld T × Option Bytes
  pub origin : Address
  pub block_num : ℕ
  pub enabled : Bool

abbrev pub Reply : Type 0 → Type 0
Reply T = SwapWorld T × Result SwapError Bytes

-- A step that returns only an error.
abbrev pub Checked : Type 0 → Type 0
Checked T = SwapWorld T × Option SwapError

module _ {T : Type 0} where
  unfoldable pub and_then : Checked T → (SwapWorld T → Reply T) → Reply T
  and_then (w, some e) next = (w, err e)
  and_then (w, none) next = next w

  abbrev pub with_book : Book → SwapWorld T → SwapWorld T
  with_book b w = record w { book = b }

  -- From the balance of the precompile, if that has it; an amount of zero is not moved.
  unfoldable pub pay_quote : Address → ℕ → SwapWorld T → Checked T
  pay_quote who amount w =
      if amount == 0
      then (w, none)
      else if ltb (w.ledger.balance swap_address) amount
      then (w, some insolvent)
      else (
        record w { ledger = add_balance who amount (sub_balance swap_address amount w.ledger) },
        none,
      )

  -- No bytes are a success, and any number but 0.
  unfoldable pub erc20_result : SwapWorld T × Option Bytes → Checked T
  erc20_result (w, none) = (w, some call_failed)
  erc20_result (w, some ret) =
      if not (length ret == 0) && from_be 0 ret == 0 then (w, some returned_false) else (w, none)

abbrev pub sel_transfer_from : Bytes
sel_transfer_from = 35 ∷ 184 ∷ 114 ∷ 221 ∷ []

abbrev pub sel_transfer : Bytes
sel_transfer = 169 ∷ 5 ∷ 156 ∷ 187 ∷ []

module _ {T : Type 0} (p : SwapPrecompile T) where
  unfoldable pub erc20_transfer_from : Address → Address → Address → ℕ → SwapWorld T → Checked T
  erc20_transfer_from token sender receiver amount w =
      let input =
        sel_transfer_from ++ (u256_pad sender ++ (u256_pad receiver ++ u256_pad amount)) in
      if amount == 0 then (w, none) else erc20_result (p.evm_call token input w)

  unfoldable pub erc20_transfer : Address → Address → ℕ → SwapWorld T → Checked T
  erc20_transfer token receiver amount w =
      let input = sel_transfer ++ (u256_pad receiver ++ u256_pad amount) in
      if amount == 0 then (w, none) else erc20_result (p.evm_call token input w)

  unfoldable pub bought : ℕ → Book × Result BookError (ℕ × ℕ) → SwapWorld T → Reply T
  bought quote_lock (b, err e) w = (with_book b w, err (book_failed e))
  bought quote_lock (b, ok (id, lock)) w =
      if not (lock == quote_lock)
      then (with_book b w, err lock_mismatch)
      else (record (with_book b w) { value = consumed w.value }, ok (u256_pad id))

  unfoldable pub sold : Book × Result BookError ℕ → SwapWorld T → Reply T
  sold (b, err e) w = (with_book b w, err (book_failed e))
  sold (b, ok id) w = (with_book b w, ok (u256_pad id))

  unfoldable pub place : Bytes → SwapWorld T → Reply T
  place args w =
      let side = bytes_at 0 1 args in
      let token = bytes_at 1 20 args in
      let price = bytes_at 21 32 args in
      let base = bytes_at 53 32 args in
      let quote_lock = quote_lock_ceil base price in
      if not (length args == 85)
      then (w, err bad_input)
      else if side == order_side_buy
      then if not (w.value.amount == quote_lock)
        then (w, err value_mismatch)
        else bought quote_lock (place_buy p.origin token price base p.block_num w.book) w
      else if side == order_side_sell
      then if not (w.value.amount == 0)
        then (w, err value_mismatch)
        else and_then (erc20_transfer_from token p.origin swap_address base w)
            (λ w'. sold (place_sell p.origin token price base p.block_num w'.book) w')
      else (w, err bad_side)

  unfoldable pub refunded : Book × Result BookError Refund → SwapWorld T → Reply T
  refunded (b, err e) w = (with_book b w, err (book_failed e))
  refunded (b, ok r) w =
      and_then (pay_quote p.origin r.quote (with_book b w))
        (λ w'. and_then (erc20_transfer r.token p.origin r.base w') (λ w''. (w'', ok [])))

  unfoldable pub cancel_call : Bytes → SwapWorld T → Reply T
  cancel_call args w =
      if not (length args == 32)
      then (w, err bad_input)
      else refunded (cancel p.origin (u64 (bytes_at 0 32 args)) w.book) w

  -- The excess is refunded where uint256's Sign is positive.
  unfoldable pub refund_excess : ℕ → SwapWorld T → Checked T
  refund_excess excess w = if ltb excess (2 ^ 255) then pay_quote p.origin excess w else (w, none)

  -- The taker of a sell order gets base; its maker and the taker's change are paid in quote.
  unfoldable pub sell_filled : Order → ℕ → Book × Result BookError (ℕ × ℕ) → SwapWorld T → Reply T
  sell_filled o value (b, err e) w = (with_book b w, err (book_failed e))
  sell_filled o value (b, ok (filled, paid)) w =
      and_then (erc20_transfer o.base_token p.origin filled (with_book b w)) (λ w1.
        and_then (pay_quote o.maker paid w1) (λ w2.
          and_then (refund_excess (sub256 value paid) w2) (λ w3.
            (record w3 { value = consumed w3.value }, ok (u256_pad filled ++ u256_pad paid)))))

  -- The maker of a buy order gets base, its taker quote.
  unfoldable pub buy_filled : Order → ℕ → Book × Result BookError (ℕ × ℕ) → SwapWorld T → Reply T
  buy_filled o pulled (b, err e) w = (with_book b w, err (book_failed e))
  buy_filled o pulled (b, ok (filled, paid)) w =
      and_then
        (erc20_transfer o.base_token p.origin
          (if ltb filled pulled then sub256 pulled filled else 0) (with_book b w))
        (λ w1. and_then (erc20_transfer o.base_token o.maker filled w1) (λ w2.
          and_then (pay_quote p.origin paid w2)
            (λ w3. (w3, ok (u256_pad filled ++ u256_pad paid)))))

  unfoldable pub fill_found : ℕ → ℕ → Order → SwapWorld T → Reply T
  fill_found id max_base o w =
      let pulled = filled_base o max_base in
      let quote_need = quote_floor pulled o.price in
      if not (o.status == order_status_open)
      then (w, err (book_failed order_not_open))
      else if o.side == order_side_sell
      then if ltb w.value.amount quote_need
        then (w, err value_mismatch)
        else sell_filled o w.value.amount (fill p.origin id max_base w.book) w
      else if not (w.value.amount == 0)
      then (w, err value_mismatch)
      else and_then (erc20_transfer_from o.base_token p.origin swap_address pulled w)
          (λ w'. buy_filled o pulled (fill p.origin id max_base w'.book) w')

  unfoldable pub fill_call : Bytes → SwapWorld T → Reply T
  fill_call args w =
      let id = u64 (bytes_at 0 32 args) in
      if not (length args == 64) then (w, err bad_input) else elim (get_order id w.book) [
        | none ↦ (w, err (book_failed order_not_found))
        | some o ↦ fill_found id (bytes_at 32 32 args) o w
      ]
