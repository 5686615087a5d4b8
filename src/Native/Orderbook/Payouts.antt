-- ===== src/Native/Orderbook/Payouts.antt =====
-- core/native/orderbook.go: what a cancel and a fill take out of the quote in escrow, summed over the
-- makers.
use dew.Base.{
  Option-cases, ℕ, ◌+◌, ◌≤◌, ◌≡◌, refl, Bool-cases, true, ◌==◌, not, List, none, some, arith, inl,
  inr, if_rule, if◌then◌else◌,
}
use dew.Consensus.ValidatorSet.{Address}
use dew.Native.Executor.{is_listed}
use dew.Native.Executor.Supply.{Once}
use dew.Native.Orderbook.{
  Book, Order, order_side_buy, order_status_open, quote_floor, get_order, write_order, sub_escrow_q,
  sub_escrow_b,
}
use dew.Native.Orderbook.Calls.{
  close, release, capped_lock, cancel_order, cancel, settle, update_filled, filled_base, fill_order,
  fill,
}
use dew.Native.Orderbook.Closing.{close-Closed}
use dew.Native.Orderbook.Quotes.{quotes, quotes-sub_escrow_q, Refunded, Paid}

module _ (accounts : List Address) (once : Once accounts) where
  close-escrow_quote :
      (id : ℕ) (o : Order) (b : Book) → (close id o b).escrow_quote ≡ b.escrow_quote
  close-escrow_quote id o b = (close-Closed id o b).same_quote

  capped-le-escrow : (o : Order) (b : Book) → capped_lock o b ≤ b.escrow_quote o.maker
  capped-le-escrow o b = ground arith

  release-Refunded :
      (o : Order) (b : Book)
      → is_listed o.maker accounts ≡ true
      → quotes accounts once (release o b).0.0 + (release o b).1.quote ≤ quotes accounts once b
  unfolding release sub_escrow_b
  release-Refunded o b listed = elim (Bool-cases (o.side == order_side_buy)) [
    | inl buy ↦
        rw (release, buy)
          (quotes-sub_escrow_q accounts once o.maker _ b listed (capped-le-escrow o b))
    | inr sell ↦ rw (release, sell) (ground arith)
  ]

  cancel_order-Refunded :
      (actor : Address) (id : ℕ) (o : Order) (b : Book)
      → is_listed o.maker accounts ≡ true
      → Refunded accounts once b (cancel_order actor id o b)
  unfolding cancel_order write_order
  cancel_order-Refunded actor id o b listed =
      if_rule (Refunded accounts once b) (not (o.status == order_status_open)) (λ _. tt)
        λ _.
          if_rule (Refunded accounts once b) (not (o.maker == actor)) (λ _. tt)
            λ _. elim (Option-cases (release o b).0.1) [
              | inl done ↦ rw done (rw (close-escrow_quote) (release-Refunded o b listed))
              | inr (e, short) ↦ rw short tt
            ]

  pub cancel-Refunded :
      (actor : Address) (id : ℕ) (b : Book)
      → ((o : Order) → get_order id b ≡ some o → is_listed o.maker accounts ≡ true)
      → Refunded accounts once b (cancel actor id b)
  unfolding cancel
  cancel-Refunded actor id b makers = elim (Option-cases (get_order id b)) [
    | inl missing ↦ rw (cancel, missing) tt
    | inr (o, found) ↦ rw (cancel, found) (cancel_order-Refunded actor id o b (makers o found))
  ]

  sub_escrow_q-enough :
      (maker : Address) (x : ℕ) (b : Book)
      → (sub_escrow_q maker x b).1 ≡ none
      → x ≤ b.escrow_quote maker
  unfolding sub_escrow_q
  sub_escrow_q-enough maker x b done = ground (arith, done)

  settle-Paid :
      (o : Order) (filled paid : ℕ) (b : Book)
      → is_listed o.maker accounts ≡ true
      → (settle o filled paid b).1 ≡ none
      → quotes accounts once (settle o filled paid b).0
          + (if o.side == order_side_buy then paid else 0)
        ≤ quotes accounts once b
  unfolding settle sub_escrow_b
  settle-Paid o filled paid b listed done = elim (Bool-cases (o.side == order_side_buy)) [
    | inl buy ↦
        rw (settle, buy)
          (quotes-sub_escrow_q accounts once o.maker paid b listed
            (sub_escrow_q-enough o.maker paid b (rw (settle, buy) at done)))
    | inr sell ↦ rw (settle, sell) (ground arith)
  ]

  update_filled-escrow_quote :
      (id : ℕ) (o : Order) (remaining : ℕ) (b : Book)
      → (update_filled id o remaining b).escrow_quote ≡ b.escrow_quote
  unfolding update_filled write_order
  update_filled-escrow_quote id o remaining b =
      if_rule (λ (c : Book). c.escrow_quote ≡ b.escrow_quote) (remaining == 0)
        (λ _. close-escrow_quote id o b) λ _. refl

  fill_order-Paid :
      (id : ℕ) (o : Order) (max_base : ℕ) (b : Book)
      → is_listed o.maker accounts ≡ true
      → Paid accounts once o (filled_base o max_base) b (fill_order id o max_base b)
  unfolding fill_order
  fill_order-Paid id o max_base b listed =
      let filled = filled_base o max_base in
      let paid = quote_floor filled o.price in
      if_rule (Paid accounts once o filled b) (not (o.status == order_status_open)) (λ _. tt)
        λ _. elim (Option-cases (settle o filled paid b).1) [
          | inl done ↦ rw done (
            rw (update_filled-escrow_quote) (settle-Paid o filled paid b listed done),
            refl,
            refl,
          )
          | inr (e, short) ↦ rw short tt
        ]

  pub fill-Paid :
      (taker : Address) (id max_base : ℕ) (o : Order) (b : Book)
      → get_order id b ≡ some o
      → is_listed o.maker accounts ≡ true
      → Paid accounts once o (filled_base o max_base) b (fill taker id max_base b)
  unfolding fill
  fill-Paid taker id max_base o b found listed =
      if_rule (Paid accounts once o (filled_base o max_base) b) (taker == 0) (λ _. tt)
        λ _.
          if_rule (Paid accounts once o (filled_base o max_base) b) (max_base == 0) (λ _. tt)
            λ _. rw (found) (fill_order-Paid id o max_base b listed)
