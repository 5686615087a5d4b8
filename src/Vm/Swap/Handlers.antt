-- ===== src/Vm/Swap/Handlers.antt =====
-- core/vm/orderbook_precompile.go: place, cancel and fill, where they succeed, keep the balance of
-- the precompile above the quote in escrow.
use dew.Base.{
  ℕ, ◌+◌, ◌^◌, ◌≤◌, ◌<◌, ◌≡◌, ◌⊎◌, refl, true, not, some, List, ◌==◌, ltb, arith, if_rule, length,
  Result, ok, err, u256,
}
use dew.Consensus.ValidatorSet.{Address}
use dew.Consensus.Message.{Bytes}
use dew.Native.Staking.{sub256}
use dew.Native.Executor.{is_listed}
use dew.Native.Executor.Supply.{Once}
use dew.Native.Orderbook.{
  Book, BookError, Order, Refund, order_side_buy, order_side_sell, order_status_open, quote_floor,
  quote_lock_ceil, get_order,
}
use dew.Native.Orderbook.Calls.{filled_base}
use dew.Native.Orderbook.Payouts.{fill-Paid}
use dew.Native.Orderbook.Quotes.{
  Locked, Unlocked, Refunded, Paid, place_buy-Locked, place_sell-Unlocked,
}
use dew.Vm.{swap_address, bytes_at}
use dew.Vm.Swap.{
  SwapPrecompile, SwapWorld, with_book, bought, sold, place, refunded, sell_filled, buy_filled,
  fill_found,
}
use dew.Vm.Swap.Backed.{
  CallsKeep, Backed, Held, IfOk, and_then-IfOk, pay_quote-Held, refund_excess-Held,
  erc20_transfer-Held, erc20_transfer_from-Held,
}

sub256_back : (x y : ℕ) → y ≤ x → x < 2 ^ 256 → sub256 x y + y ≡ x
unfolding sub256 u256
sub256_back x y le fits = omega arith

module _ {T : Type 0} (p : SwapPrecompile T) (calls : CallsKeep p) (accounts : List Address)
    (once : Once accounts) (origin_listed : is_listed p.origin accounts ≡ true) where
  Held-Backed : (v : ℕ) (b : Book) (w : SwapWorld T) → Held accounts v v b w → Backed accounts w
  Held-Backed v b w (covered, fits, same_value, same_book) =
      (rw (same_book, same_value) covered, fits)

  Backed-Held :
      (w : SwapWorld T) → Backed accounts w → Held accounts w.value.amount w.value.amount w.book w
  Backed-Held w (covered, fits) = (covered, fits, refl, refl)

  bought-IfOk :
      (lock : ℕ) (r : Book × Result BookError (ℕ × ℕ)) (w : SwapWorld T)
      → Backed accounts w
      → w.value.amount ≡ lock
      → Locked accounts once w.book r
      → IfOk accounts (bought p lock r w)
  unfolding bought
  bought-IfOk lock (b, err e) w backed same locked = tt
  bought-IfOk lock (b, ok (id, l)) w (covered, fits) same locked =
      if_rule (IfOk accounts) (not (l == lock)) (λ _. tt)
        λ equal. (ground (arith, covered, same, locked), fits)

  sold-IfOk :
      (v : ℕ) (b : Book) (r : Book × Result BookError ℕ) (w : SwapWorld T)
      → Held accounts v v b w
      → Unlocked accounts once b r
      → IfOk accounts (sold p r w)
  unfolding sold
  sold-IfOk v b (c, err e) w held less = tt
  sold-IfOk v b (c, ok id) w (covered, fits, same_value, same_book) less =
      (omega (arith, covered, same_value, less), fits)

  pub place-IfOk :
      (args : Bytes) (w : SwapWorld T) → Backed accounts w → IfOk accounts (place p args w)
  unfolding place
  place-IfOk args w backed =
      let side = bytes_at 0 1 args in
      let token = bytes_at 1 20 args in
      let price = bytes_at 21 32 args in
      let base = bytes_at 53 32 args in
      if_rule (IfOk accounts) (not (length args == 85)) (λ _. tt)
        λ _.
          if_rule (IfOk accounts) (side == order_side_buy)
            (λ _.
              if_rule (IfOk accounts) (not (w.value.amount == quote_lock_ceil base price)) (λ _. tt)
                λ same. bought-IfOk _ _ w backed (ground (arith, same)) (
                  place_buy-Locked accounts once p.origin token price base p.block_num w.book
                    origin_listed))
            λ _.
              if_rule (IfOk accounts) (side == order_side_sell)
                (λ _.
                  if_rule (IfOk accounts) (not (w.value.amount == 0)) (λ _. tt)
                    λ _.
                      and_then-IfOk accounts (Held accounts w.value.amount w.value.amount w.book) _
                        _
                        (erc20_transfer_from-Held accounts p calls _ _ w.book token p.origin
                          swap_address base w (Backed-Held w backed))
                        λ w' held. sold-IfOk _ w.book _ w' held (
                          rw held.3 (
                            place_sell-Unlocked accounts once p.origin token price base p.block_num
                              w.book)))
                λ _. tt

  pub refunded-IfOk :
      (r : Book × Result BookError Refund) (w : SwapWorld T)
      → Backed accounts w
      → Refunded accounts once w.book r
      → IfOk accounts (refunded p r w)
  unfolding refunded
  refunded-IfOk (b, err e) w backed less = tt
  refunded-IfOk (b, ok r) w (covered, fits) less =
      let v = w.value.amount in
      let held : Held accounts (v + r.quote) v b (with_book b w) =
        (omega (arith, covered, less), fits, refl, refl) in
      and_then-IfOk accounts (Held accounts v v b) _ _
        (pay_quote-Held accounts p.origin r.quote v v b (with_book b w) held)
        λ w1 h1.
          and_then-IfOk accounts (Held accounts v v b) _ _
            (erc20_transfer-Held accounts p calls v v b r.token p.origin r.base w1 h1)
            λ w2 h2. Held-Backed v b w2 h2

  module _ (o : Order) where
    sell_filled-IfOk :
        (filled value : ℕ) (r : Book × Result BookError (ℕ × ℕ)) (w : SwapWorld T)
        → Backed accounts w
        → w.value.amount ≡ value
        → quote_floor filled o.price ≤ value
        → Paid accounts once o filled w.book r
        → IfOk accounts (sell_filled p o value r w)
    unfolding sell_filled
    sell_filled-IfOk filled value (b, err e) w backed same enough less = tt
    sell_filled-IfOk filled value (b, ok (f, paid)) w (covered, fits) same enough
          (less, as_filled, as_paid) =
        let excess = sub256 value paid in
        let held : Held accounts (0 + excess + paid) value b (with_book b w) = (
          ground (
            arith,
            covered,
            same,
            less,
            sub256_back value paid (rw as_paid enough) (omega (arith, covered, same, fits)),
          ),
          fits,
          same,
          refl,
        ) in
        and_then-IfOk accounts (Held accounts (0 + excess + paid) value b) _ _
          (erc20_transfer-Held accounts p calls _ value b o.base_token p.origin f (with_book b w)
            held)
          λ w1 h1.
            and_then-IfOk accounts (Held accounts (0 + excess) value b) _ _
              (pay_quote-Held accounts o.maker paid (0 + excess) value b w1 h1)
              λ w2 h2.
                and_then-IfOk accounts (Held accounts 0 value b) _ _
                  (refund_excess-Held accounts p excess 0 value b w2 h2)
                  λ w3 h3. (rw h3.3 h3.0, h3.1)

    buy_filled-IfOk :
        (pulled filled : ℕ) (b : Book) (r : Book × Result BookError (ℕ × ℕ)) (w : SwapWorld T)
        → Held accounts 0 0 b w
        → (o.side == order_side_buy) ≡ true
        → Paid accounts once o filled b r
        → IfOk accounts (buy_filled p o pulled r w)
    unfolding buy_filled
    buy_filled-IfOk pulled filled b (c, err e) w held buy less = tt
    buy_filled-IfOk pulled filled b (c, ok (f, paid)) w (covered, fits, same_value, same_book) buy
          (less, as_filled, as_paid) =
        let held : Held accounts (0 + paid) 0 c (with_book c w) =
          (omega (arith, covered, (rw buy at less)), fits, same_value, refl) in
        and_then-IfOk accounts (Held accounts (0 + paid) 0 c) _ _
          (erc20_transfer-Held accounts p calls _ 0 c o.base_token p.origin _ (with_book c w) held)
          λ w1 h1.
            and_then-IfOk accounts (Held accounts (0 + paid) 0 c) _ _
              (erc20_transfer-Held accounts p calls _ 0 c o.base_token o.maker f w1 h1)
              λ w2 h2.
                and_then-IfOk accounts (Held accounts 0 0 c) _ _
                  (pay_quote-Held accounts p.origin paid 0 0 c w2 h2) λ w3 h3. Held-Backed 0 c w3 h3

    pub fill_found-IfOk :
        (id max_base : ℕ) (w : SwapWorld T)
        → Backed accounts w
        → get_order id w.book ≡ some o
        → is_listed o.maker accounts ≡ true
        → ((o.side ≡ order_side_buy) ⊎ (o.side ≡ order_side_sell))
        → IfOk accounts (fill_found p id max_base o w)
    unfolding fill_found
    fill_found-IfOk id max_base w backed found listed sided =
        let pulled = filled_base o max_base in
        if_rule (IfOk accounts) (not (o.status == order_status_open)) (λ _. tt)
          λ _.
            if_rule (IfOk accounts) (o.side == order_side_sell)
              (λ sell.
                if_rule (IfOk accounts) (ltb w.value.amount (quote_floor pulled o.price)) (λ _. tt)
                  λ enough.
                    sell_filled-IfOk pulled w.value.amount _ w backed refl (ground (arith, enough))
                      (fill-Paid accounts once p.origin id max_base o w.book found listed))
              λ buy.
                if_rule (IfOk accounts) (not (w.value.amount == 0)) (λ _. tt)
                  λ empty.
                    let no_value : w.value.amount ≡ 0 = ground (arith, empty) in
                    and_then-IfOk accounts (Held accounts 0 0 w.book) _ _
                      (erc20_transfer_from-Held accounts p calls 0 0 w.book o.base_token p.origin
                        swap_address pulled w
                        (omega (arith, backed.0, no_value), backed.1, no_value, refl))
                      λ w' held.
                        buy_filled-IfOk pulled pulled w.book _ w' held (ground (arith, buy, sided))
                          (rw held.3
                            (fill-Paid accounts once p.origin id max_base o w.book found listed))
