-- ===== src/Native/Orderbook/Filling.antt =====
-- core/native/orderbook.go: a fill of an open order.
use dew.Base.{
  ℕ, ◌+◌, ◌-◌, ◌≤◌, ◌<◌, ◌≡◌, ◌≢◌, refl, ap, ◌∙◌, ◌&&◌, not, ◌==◌, Bool-cases, arith, inl, inr,
  if◌then◌else◌, none, u256,
}
use dew.Consensus.ValidatorSet.{Address}
use dew.Native.Staking.{set, set_pair, sub256}
use dew.Native.Orderbook.{
  Order, Book, set_order, write_order, order_side_buy, order_status_open, order_status_filled,
  dec_open_count, quote_floor, sub_escrow_q, sub_escrow_b,
}
use dew.Native.Orderbook.Calls.{close, update_filled, settle, filled_base}
use dew.Native.Orderbook.Sums.{sum_of, term-le-sum}
use dew.Native.Orderbook.Covered.{
  Covered, Replaced, full_lock, count_weight, quote_weight, base_weight, replaced-Covered,
}
use dew.Native.Orderbook.Closing.{close-Closed, after_fill, count_drop}
use dew.Native.Orderbook.Quote.{paid-le}

module _ (id : ℕ) (b : Book) (k : Covered b) (pos : 0 < id) (le : id ≤ b.next_id)
    (is_open : (b.orders id).status ≡ order_status_open) where
  abbrev o : Order
  o = b.orders id

  -- The escrow of an open order is there.
  pub lock-le-escrow :
      o.side ≡ order_side_buy → full_lock o.base_open o.price ≤ b.escrow_quote o.maker
  unfolding sum_of quote_weight
  lock-le-escrow buy = ground (
    arith,
    k.quote_covered o.maker,
    term-le-sum (λ i. quote_weight o.maker (b.orders i)) id b.next_id pos le,
  )

  pub base-le-escrow : o.side ≢ order_side_buy → o.base_open ≤ b.escrow_base o.maker o.base_token
  unfolding sum_of base_weight
  base-le-escrow sell = ground (
    arith,
    k.base_covered o.maker o.base_token,
    term-le-sum (λ i. base_weight o.maker o.base_token (b.orders i)) id b.next_id pos le,
  )

  module _ (max_base : ℕ) where
    abbrev filled : ℕ
    filled = filled_base o max_base

    abbrev paid : ℕ
    paid = quote_floor filled o.price

    abbrev pub settled : Book
    settled = (settle o filled paid b).0

    filled-le : filled ≤ o.base_open
    filled-le = ground arith

    pub settle-none : (settle o filled paid b).1 ≡ none
    unfolding settle sub_escrow_q sub_escrow_b
    settle-none =
        ground
          (arith, lock-le-escrow, base-le-escrow, filled-le, paid-le o.base_open filled o.price)

    settled-next_id : settled.next_id ≡ b.next_id
    unfolding settle sub_escrow_q sub_escrow_b
    settled-next_id = ground arith

    settled-orders : settled.orders ≡ b.orders
    unfolding settle sub_escrow_q sub_escrow_b
    settled-orders = ground arith

    settled-open_count : settled.open_count ≡ b.open_count
    unfolding settle sub_escrow_q sub_escrow_b
    settled-open_count = ground arith

    settled-escrow_quote :
        (m : Address)
        → settled.escrow_quote m + (if o.side == order_side_buy && o.maker == m then paid else 0)
          ≡ b.escrow_quote m
    unfolding settle sub_escrow_q sub_escrow_b set sub256 u256
    settled-escrow_quote m =
        ground (
          arith,
          lock-le-escrow,
          filled-le,
          k.quote_fits o.maker,
          paid-le o.base_open filled o.price,
        )

    settled-escrow_base :
        (m t : Address)
        → settled.escrow_base m t
            + (if not (o.side == order_side_buy) && (o.maker == m && o.base_token == t)
                then filled
                else 0)
          ≡ b.escrow_base m t
    unfolding settle sub_escrow_q sub_escrow_b set_pair sub256 u256
    settled-escrow_base m t =
        ground (arith, base-le-escrow, filled-le, k.base_fits o.maker o.base_token)

    abbrev pub remaining : ℕ
    remaining = o.base_open - filled

    pub remaining_lem : sub256 o.base_open filled ≡ remaining
    unfolding sub256 u256
    remaining_lem = omega (arith, filled-le, k.amounts_fit id pos le)

    count_left :
        (m : Address)
        → (if remaining == 0 then (dec_open_count o.maker settled).open_count m else b.open_count m)
            + count_weight m o
          ≡ b.open_count m + count_weight m (after_fill o remaining)
    unfolding count_weight
    count_left m = ground (arith, count_drop id b settled k pos le is_open settled-open_count m)

    quote_left :
        (m : Address)
        → b.escrow_quote m + quote_weight m (after_fill o remaining)
          ≤ settled.escrow_quote m + quote_weight m o
    unfolding quote_weight
    quote_left m =
        ground (arith, settled-escrow_quote m, filled-le, paid-le o.base_open filled o.price)

    base_left :
        (m t : Address)
        → settled.escrow_base m t + base_weight m t o
          ≡ b.escrow_base m t + base_weight m t (after_fill o remaining)
    unfolding base_weight
    base_left m t = ground (arith, settled-escrow_base m t, filled-le)

    abbrev pub updated : Book
    updated = update_filled id o remaining settled

    updated-next_id : updated.next_id ≡ b.next_id
    unfolding update_filled write_order
    updated-next_id = ground (arith, (close-Closed id o settled).same_ids, settled-next_id)

    updated-orders : updated.orders ≡ set_order b.orders id (after_fill o remaining)
    unfolding update_filled write_order
    updated-orders = elim (Bool-cases (remaining == 0)) [
      | inl e ↦
          let orders : (close id o settled).orders ≡ b.orders =
            (close-Closed id o settled).same_orders ∙ settled-orders in
          rw (e, update_filled)
            (ap
              (λ f.
                set_order f id (record o { status = order_status_filled; base_open = remaining }))
              orders)
      | inr e ↦
          rw (e, update_filled)
            (ap (λ f. set_order f id (record o { base_open = remaining })) settled-orders)
    ]

    updated-escrow_quote : updated.escrow_quote ≡ settled.escrow_quote
    unfolding update_filled write_order
    updated-escrow_quote = ground (arith, (close-Closed id o settled).same_quote)

    updated-escrow_base : updated.escrow_base ≡ settled.escrow_base
    unfolding update_filled write_order
    updated-escrow_base = ground (arith, (close-Closed id o settled).same_base)

    updated-open_count :
        (m : Address)
        → updated.open_count m ≡ (
            if remaining == 0
            then (dec_open_count o.maker settled).open_count m
            else b.open_count m)
    unfolding update_filled write_order
    updated-open_count m = ground (
      arith,
      ap (λ f. f m) (close-Closed id o settled).same_counts,
      ap (λ f. f m) settled-open_count,
    )

    updated_falls : (m : Address) → updated.open_count m ≤ b.open_count m
    updated_falls m =
        ground (
          arith,
          updated-open_count m,
          count_drop id b settled k pos le is_open settled-open_count m,
        )

    pub fill-Replaced : Replaced id (after_fill o remaining) b updated
    fill-Replaced = record {
      same_ids = updated-next_id;
      replaced = updated-orders;
      same_price = refl;
      less_open = omega arith;
      count_follows = λ m. rw (updated-open_count m) (count_left m);
      count_falls = updated_falls;
      quote_follows = λ m. rw (updated-escrow_quote) (quote_left m);
      quote_falls = λ m. rw updated-escrow_quote (omega (arith, settled-escrow_quote m));
      base_follows = λ m t. rw updated-escrow_base (base_left m t);
      base_falls = λ m t. rw updated-escrow_base (omega (arith, settled-escrow_base m t));
    }

    pub fill-Covered : Covered updated
    fill-Covered = replaced-Covered id (after_fill o remaining) b updated fill-Replaced pos le k
