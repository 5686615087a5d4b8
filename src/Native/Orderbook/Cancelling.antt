-- ===== src/Native/Orderbook/Cancelling.antt =====
-- core/native/orderbook.go: a cancel of an open order by its maker.
use dew.Base.{
  ℕ, ◌+◌, ◌≤◌, ◌<◌, ◌≡◌, refl, ap, ◌∙◌, ◌==◌, Bool-cases, arith, inl, inr, if◌then◌else◌, none,
  u256,
}
use dew.Consensus.ValidatorSet.{Address}
use dew.Native.Staking.{set, set_pair, sub256}
use dew.Native.Orderbook.{
  Order, Book, Refund, set_order, write_order, order_side_buy, order_status_open, dec_open_count,
  sub_escrow_q, sub_escrow_b,
}
use dew.Native.Orderbook.Calls.{close, cancelled, release, capped_lock}
use dew.Native.Orderbook.Covered.{
  Covered, Replaced, full_lock, count_weight, quote_weight, base_weight, replaced-Covered,
}
use dew.Native.Orderbook.Closing.{Closed, close-Closed, count_drop}
use dew.Native.Orderbook.Filling.{lock-le-escrow, base-le-escrow}
use dew.Native.Orderbook.Quote.{quote_lock_ceil_of_fits}

-- What the maker of an open order gets back.
abbrev pub full_refund : Order → Refund
full_refund o = record {
  quote = if o.side == order_side_buy then full_lock o.base_open o.price else 0;
  base = if o.side == order_side_buy then 0 else o.base_open;
  token = o.base_token;
  side = o.side;
}

module _ (id : ℕ) (b : Book) (k : Covered b) (pos : 0 < id) (le : id ≤ b.next_id)
    (is_open : (b.orders id).status ≡ order_status_open) where
  abbrev o : Order
  o = b.orders id

  abbrev pub released : Book
  released = (release o b).0.0

  capped_lock_lem : o.side ≡ order_side_buy → capped_lock o b ≡ full_lock o.base_open o.price
  capped_lock_lem buy =
      let covered = lock-le-escrow id b k pos le is_open buy in
      ground
        (arith, quote_lock_ceil_of_fits o.base_open o.price (omega (arith, k.quote_fits o.maker)))

  pub release-none : (release o b).0.1 ≡ none
  unfolding release sub_escrow_q sub_escrow_b
  release-none = ground (
    arith,
    capped_lock_lem,
    lock-le-escrow id b k pos le is_open,
    base-le-escrow id b k pos le is_open,
  )

  pub release-refund : (release o b).1 ≡ full_refund o
  unfolding release
  release-refund = elim (Bool-cases (o.side == order_side_buy)) [
    | inl e ↦ let lock = capped_lock_lem (ground arith) in rw (e, release) (ground (arith, lock))
    | inr e ↦ rw (e, release) refl
  ]

  released-next_id : released.next_id ≡ b.next_id
  unfolding release sub_escrow_q sub_escrow_b
  released-next_id = ground arith

  released-orders : released.orders ≡ b.orders
  unfolding release sub_escrow_q sub_escrow_b
  released-orders = ground arith

  released-open_count : released.open_count ≡ b.open_count
  unfolding release sub_escrow_q sub_escrow_b
  released-open_count = ground arith

  released-escrow_quote :
      (m : Address) → released.escrow_quote m + quote_weight m o ≡ b.escrow_quote m
  unfolding release sub_escrow_q sub_escrow_b set sub256 u256 quote_weight
  released-escrow_quote m =
      ground (arith, capped_lock_lem, lock-le-escrow id b k pos le is_open, k.quote_fits o.maker)

  released-escrow_base :
      (m t : Address) → released.escrow_base m t + base_weight m t o ≡ b.escrow_base m t
  unfolding release sub_escrow_q sub_escrow_b set_pair sub256 u256 base_weight
  released-escrow_base m t =
      ground (arith, base-le-escrow id b k pos le is_open, k.base_fits o.maker o.base_token)

  abbrev written : Book
  written = write_order id (cancelled o) released

  abbrev pub after_cancel : Book
  after_cancel = close id o written

  closed : Closed (dec_open_count o.maker written).open_count written after_cancel
  closed = close-Closed id o written

  count_left :
      (m : Address)
      → (dec_open_count o.maker written).open_count m + count_weight m o ≡ b.open_count m
  unfolding write_order
  count_left m = count_drop id b written k pos le is_open released-open_count m

  count_weight-cancelled : (m : Address) → count_weight m (cancelled o) ≡ 0
  unfolding count_weight
  count_weight-cancelled m = ground arith

  quote_weight-cancelled : (m : Address) → quote_weight m (cancelled o) ≡ 0
  unfolding quote_weight
  quote_weight-cancelled m = ground arith

  base_weight-cancelled : (m t : Address) → base_weight m t (cancelled o) ≡ 0
  unfolding base_weight
  base_weight-cancelled m t = ground arith

  cancelled-orders : after_cancel.orders ≡ set_order b.orders id (cancelled o)
  unfolding write_order
  cancelled-orders = closed.same_orders ∙ ap (λ f. set_order f id (cancelled o)) released-orders

  cancelled-next_id : after_cancel.next_id ≡ b.next_id
  unfolding write_order
  cancelled-next_id = closed.same_ids ∙ released-next_id

  cancelled-quote : after_cancel.escrow_quote ≡ released.escrow_quote
  unfolding write_order
  cancelled-quote = closed.same_quote

  cancelled-base : after_cancel.escrow_base ≡ released.escrow_base
  unfolding write_order
  cancelled-base = closed.same_base

  pub cancel-Replaced : Replaced id (cancelled o) b after_cancel
  cancel-Replaced = record {
    same_ids = cancelled-next_id;
    replaced = cancelled-orders;
    same_price = refl;
    less_open = omega arith;
    count_follows =
        λ m. rw closed.same_counts (omega (arith, count_left m, count_weight-cancelled m));
    count_falls = λ m. rw closed.same_counts (omega (arith, count_left m));
    quote_follows =
        λ m. rw cancelled-quote (omega (arith, released-escrow_quote m, quote_weight-cancelled m));
    quote_falls = λ m. rw cancelled-quote (omega (arith, released-escrow_quote m));
    base_follows = λ m t.
        rw cancelled-base (omega (arith, released-escrow_base m t, base_weight-cancelled m t));
    base_falls = λ m t. rw cancelled-base (omega (arith, released-escrow_base m t));
  }

  pub cancel_order-Covered : Covered after_cancel
  cancel_order-Covered = replaced-Covered id (cancelled o) b after_cancel cancel-Replaced pos le k
