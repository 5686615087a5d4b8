-- ===== src/Vm/Swap/Sums.antt =====
-- core/vm/orderbook_precompile.go: place, cancel and fill keep the sum of the balances, and the makers
-- of the orders among the accounts.
use dew.Base.{
  ℕ, ◌^◌, ◌<◌, ◌≡◌, true, not, ◌&&◌, Option, none, some, List, ◌==◌, ltb, arith, if_rule, length,
  Result, ok, err,
}
use dew.Consensus.ValidatorSet.{Address}
use dew.Consensus.Message.{Bytes, from_be}
use dew.Native.Staking.{sub256}
use dew.Native.Executor.{is_listed, sub_balance}
use dew.Native.Executor.Supply.{supply, Once, supply-add_balance, supply-sub_balance}
use dew.Native.Orderbook.{
  Book, BookError, Order, Refund, order_side_buy, order_side_sell, order_status_open,
}
use dew.Native.Orderbook.Makers.{Makers, Makers-place_buy, Makers-place_sell, Makers-fill}
use dew.Vm.{swap_address, bytes_at}
use dew.Vm.Swap.{
  SwapPrecompile, SwapWorld, Reply, Checked, and_then, with_book, pay_quote, erc20_result,
  erc20_transfer, erc20_transfer_from, bought, sold, place, refunded, refund_excess, sell_filled,
  buy_filled, fill_found,
}

-- The makers of the orders are accounts of the list.
abbrev pub MakersListed : List Address → Book → Type 0
MakersListed accounts = Makers λ a. is_listed a accounts ≡ true

-- The balances of the accounts have this sum, and the makers are among them.
abbrev pub Kept : {T : Type 0} → List Address → ℕ → SwapWorld T → Type 0
Kept accounts sum w = (supply w.ledger.balance accounts ≡ sum) × MakersListed accounts w.book

-- The EVM's calls of contracts keep such a sum, where it is a uint256, and such a list.
abbrev pub CallsConserve : {T : Type 0} → SwapPrecompile T → List Address → Type 0
CallsConserve {T} p accounts =
    (token : Address) (input : Bytes) (w : SwapWorld T) (sum : ℕ)
    → sum < 2 ^ 256
    → Kept accounts sum w
    → Kept accounts sum (p.evm_call token input w).0

module _ {T : Type 0} (p : SwapPrecompile T) (accounts : List Address) (once : Once accounts)
    (module_listed : is_listed swap_address accounts ≡ true)
    (origin_listed : is_listed p.origin accounts ≡ true) (calls : CallsConserve p accounts)
    (sum : ℕ) (fits : sum < 2 ^ 256) where
  abbrev pub Sum : SwapWorld T → Type 0
  Sum = Kept accounts sum

  and_then-Sum :
      (c : Checked T) (next : SwapWorld T → Reply T)
      → Sum c.0
      → ((w : SwapWorld T) → Sum w → Sum (next w).0)
      → Sum (and_then c next).0
  unfolding and_then
  and_then-Sum (w, some e) next before after = before
  and_then-Sum (w, none) next before after = after w before

  pay_quote-Sum :
      (who : Address) (amount : ℕ) (w : SwapWorld T)
      → is_listed who accounts ≡ true
      → Sum w
      → Sum (pay_quote who amount w).0
  unfolding pay_quote
  pay_quote-Sum who amount w listed before =
      if_rule (λ (c : Checked T). Sum c.0) (amount == 0) (λ _. before)
        λ _.
          if_rule (λ (c : Checked T). Sum c.0) (ltb (w.ledger.balance swap_address) amount)
            (λ _. before)
            λ enough.
              let less =
                supply-sub_balance accounts once swap_address amount w.ledger module_listed
                  (omega (arith, before.0)) (ground arith) in
              let more =
                supply-add_balance accounts once who amount
                  (sub_balance swap_address amount w.ledger) listed
                  (omega (arith, less, before.0)) in
              (omega (arith, less, more, before.0), before.1)

  erc20_result-Sum : (r : SwapWorld T × Option Bytes) → Sum r.0 → Sum (erc20_result r).0
  unfolding erc20_result
  erc20_result-Sum (w, none) before = before
  erc20_result-Sum (w, some ret) before =
      if_rule (λ (c : Checked T). Sum c.0) (not (length ret == 0) && from_be 0 ret == 0)
        (λ _. before) λ _. before

  erc20_transfer-Sum :
      (token receiver : Address) (amount : ℕ) (w : SwapWorld T)
      → Sum w
      → Sum (erc20_transfer p token receiver amount w).0
  unfolding erc20_transfer
  erc20_transfer-Sum token receiver amount w before =
      if_rule (λ (c : Checked T). Sum c.0) (amount == 0) (λ _. before)
        λ _. erc20_result-Sum _ (calls token _ w sum fits before)

  erc20_transfer_from-Sum :
      (token sender receiver : Address) (amount : ℕ) (w : SwapWorld T)
      → Sum w
      → Sum (erc20_transfer_from p token sender receiver amount w).0
  unfolding erc20_transfer_from
  erc20_transfer_from-Sum token sender receiver amount w before =
      if_rule (λ (c : Checked T). Sum c.0) (amount == 0) (λ _. before)
        λ _. erc20_result-Sum _ (calls token _ w sum fits before)

  bought-Sum :
      (lock : ℕ) (r : Book × Result BookError (ℕ × ℕ)) (w : SwapWorld T)
      → Sum w
      → MakersListed accounts r.0
      → Sum (bought p lock r w).0
  unfolding bought
  bought-Sum lock (b, err e) w before listed = (before.0, listed)
  bought-Sum lock (b, ok (id, l)) w before listed =
      if_rule (λ (r : Reply T). Sum r.0) (not (l == lock)) (λ _. (before.0, listed))
        λ _. (before.0, listed)

  sold-Sum :
      (r : Book × Result BookError ℕ) (w : SwapWorld T)
      → Sum w
      → MakersListed accounts r.0
      → Sum (sold p r w).0
  unfolding sold
  sold-Sum (b, err e) w before listed = (before.0, listed)
  sold-Sum (b, ok id) w before listed = (before.0, listed)

  pub place-Sum : (args : Bytes) (w : SwapWorld T) → Sum w → Sum (place p args w).0
  unfolding place
  place-Sum args w before =
      if_rule (λ (r : Reply T). Sum r.0) (not (length args == 85)) (λ _. before)
        λ _.
          if_rule (λ (r : Reply T). Sum r.0) (bytes_at 0 1 args == order_side_buy)
            (λ _.
              if_rule (λ (r : Reply T). Sum r.0) (not (w.value.amount == _)) (λ _. before)
                λ _. bought-Sum _ _ w before (
                  Makers-place_buy (λ a. is_listed a accounts ≡ true) p.origin origin_listed w.book
                    before.1 (bytes_at 1 20 args) (bytes_at 21 32 args) (bytes_at 53 32 args)
                    p.block_num))
            λ _.
              if_rule (λ (r : Reply T). Sum r.0) (bytes_at 0 1 args == order_side_sell)
                (λ _.
                  if_rule (λ (r : Reply T). Sum r.0) (not (w.value.amount == 0)) (λ _. before)
                    λ _. and_then-Sum _ _ (erc20_transfer_from-Sum _ _ _ _ w before) λ w' held.
                      sold-Sum _ w' held (
                        Makers-place_sell (λ a. is_listed a accounts ≡ true) p.origin origin_listed
                          w'.book held.1 (bytes_at 1 20 args) (bytes_at 21 32 args)
                          (bytes_at 53 32 args) p.block_num))
                λ _. before

  pub refunded-Sum :
      (r : Book × Result BookError Refund) (w : SwapWorld T)
      → Sum w
      → MakersListed accounts r.0
      → Sum (refunded p r w).0
  unfolding refunded
  refunded-Sum (b, err e) w before listed = (before.0, listed)
  refunded-Sum (b, ok r) w before listed =
      and_then-Sum _ _
        (pay_quote-Sum p.origin r.quote (with_book b w) origin_listed (before.0, listed))
        λ w1 s1. and_then-Sum _ _ (erc20_transfer-Sum r.token p.origin r.base w1 s1) λ w2 s2. s2

  refund_excess-Sum : (excess : ℕ) (w : SwapWorld T) → Sum w → Sum (refund_excess p excess w).0
  unfolding refund_excess
  refund_excess-Sum excess w before =
      if_rule (λ (c : Checked T). Sum c.0) (ltb excess (2 ^ 255))
        (λ _. pay_quote-Sum p.origin excess w origin_listed before) λ _. before

  module _ (o : Order) (maker_listed : is_listed o.maker accounts ≡ true) where
    sell_filled-Sum :
        (value : ℕ) (r : Book × Result BookError (ℕ × ℕ)) (w : SwapWorld T)
        → Sum w
        → MakersListed accounts r.0
        → Sum (sell_filled p o value r w).0
    unfolding sell_filled
    sell_filled-Sum value (b, err e) w before listed = (before.0, listed)
    sell_filled-Sum value (b, ok (filled, paid)) w before listed =
        and_then-Sum _ _
          (erc20_transfer-Sum o.base_token p.origin filled (with_book b w) (before.0, listed))
          λ w1 s1.
            and_then-Sum _ _ (pay_quote-Sum o.maker paid w1 maker_listed s1)
              λ w2 s2. and_then-Sum _ _ (refund_excess-Sum (sub256 value paid) w2 s2) λ w3 s3. s3

    buy_filled-Sum :
        (pulled : ℕ) (r : Book × Result BookError (ℕ × ℕ)) (w : SwapWorld T)
        → Sum w
        → MakersListed accounts r.0
        → Sum (buy_filled p o pulled r w).0
    unfolding buy_filled
    buy_filled-Sum pulled (b, err e) w before listed = (before.0, listed)
    buy_filled-Sum pulled (b, ok (filled, paid)) w before listed =
        and_then-Sum _ _
          (erc20_transfer-Sum o.base_token p.origin _ (with_book b w) (before.0, listed))
          λ w1 s1.
            and_then-Sum _ _ (erc20_transfer-Sum o.base_token o.maker filled w1 s1) λ w2 s2.
              and_then-Sum _ _ (pay_quote-Sum p.origin paid w2 origin_listed s2) λ w3 s3. s3

    pub fill_found-Sum :
        (id max_base : ℕ) (w : SwapWorld T) → Sum w → Sum (fill_found p id max_base o w).0
    unfolding fill_found
    fill_found-Sum id max_base w before =
        if_rule (λ (r : Reply T). Sum r.0) (not (o.status == order_status_open)) (λ _. before)
          λ _.
            if_rule (λ (r : Reply T). Sum r.0) (o.side == order_side_sell)
              (λ _.
                if_rule (λ (r : Reply T). Sum r.0) (ltb w.value.amount _) (λ _. before)
                  λ _. sell_filled-Sum w.value.amount _ w before (
                    Makers-fill (λ a. is_listed a accounts ≡ true) w.book before.1 p.origin id
                      max_base))
              λ _.
                if_rule (λ (r : Reply T). Sum r.0) (not (w.value.amount == 0)) (λ _. before)
                  λ _. and_then-Sum _ _ (erc20_transfer_from-Sum _ _ _ _ w before) λ w' held.
                    buy_filled-Sum _ _ w' held (
                      Makers-fill (λ a. is_listed a accounts ≡ true) w'.book held.1 p.origin id
                        max_base)
