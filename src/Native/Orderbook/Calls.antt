-- ===== src/Native/Orderbook/Calls.antt =====
-- core/native/orderbook.go: PlaceBuy, PlaceSell, Cancel and Fill.
use dew.Base.{ℕ, not, Option, none, some, ltb, ◌==◌, if◌then◌else◌, Result, ok, err}
use dew.Consensus.ValidatorSet.{Address}
use dew.Native.Staking.{sub256}
use dew.Native.Orderbook.{
  Order, Book, Refund, BookError, zero_maker, zero_price, zero_base_amount, zero_base_token,
  zero_quote_lock, order_not_found, order_not_open, not_maker, zero_taker, zero_fill,
  order_side_buy, order_side_sell, order_status_open, order_status_filled, order_status_cancelled,
  quote_floor, quote_lock_ceil, next_order_id, write_order, get_order, inc_open_count,
  dec_open_count, add_escrow_q, sub_escrow_q, add_escrow_b, sub_escrow_b, add_open_index,
  remove_open_index,
}

unfoldable pub validate_place : Address → ℕ → ℕ → Book → Book × Option BookError
validate_place maker price base b =
    if maker == 0
    then (b, some zero_maker)
    else if price == 0
    then (b, some zero_price)
    else if base == 0
    then (b, some zero_base_amount)
    else inc_open_count maker b

unfoldable pub new_order : Address → Address → ℕ → ℕ → ℕ → ℕ → Order
new_order maker token side price base now = record {
  maker = maker;
  base_token = token;
  side = side;
  price = price;
  base_open = base;
  base_orig = base;
  created_at = now;
  status = order_status_open;
}

-- The part of PlaceBuy after its checks.
unfoldable pub record_buy : Address → Address → ℕ → ℕ → ℕ → ℕ → Book → Book × ℕ
record_buy maker token price base now lock b =
    let (b', id) = next_order_id b in
    (
      add_open_index token order_side_buy id (
          add_escrow_q maker lock
            (write_order id (new_order maker token order_side_buy price base now) b')),
      id,
    )

-- PlaceBuy: the storage after the call, and the id with the quote to lock, or the error.
unfoldable pub place_buy : Address → Address → ℕ → ℕ → ℕ → Book → Book × Result BookError (ℕ × ℕ)
place_buy maker token price base now b =
    let checked = validate_place maker price base b in
    elim checked.1 [
      | some e ↦ (checked.0, err e)
      | none ↦
          let lock = quote_lock_ceil base price in
          let placed = record_buy maker token price base now lock checked.0 in
          if token == 0
          then (dec_open_count maker checked.0, err zero_base_token)
          else if lock == 0
          then (dec_open_count maker checked.0, err zero_quote_lock)
          else (placed.0, ok (placed.1, lock))
    ]

unfoldable pub record_sell : Address → Address → ℕ → ℕ → ℕ → Book → Book × ℕ
record_sell maker token price base now b =
    let (b', id) = next_order_id b in
    (
      add_open_index token order_side_sell id (
          add_escrow_b maker token base
            (write_order id (new_order maker token order_side_sell price base now) b')),
      id,
    )

unfoldable pub place_sell : Address → Address → ℕ → ℕ → ℕ → Book → Book × Result BookError ℕ
place_sell maker token price base now b =
    let checked = validate_place maker price base b in
    elim checked.1 [
      | some e ↦ (checked.0, err e)
      | none ↦
          let placed = record_sell maker token price base now checked.0 in
          if token == 0
          then (dec_open_count maker checked.0, err zero_base_token)
          else (placed.0, ok placed.1)
    ]

-- An order that is closed leaves the maker's count and the index.
unfoldable pub close : ℕ → Order → Book → Book
close id o b = remove_open_index o.base_token o.side id (dec_open_count o.maker b)

abbrev pub cancelled : Order → Order
cancelled o = record o { status = order_status_cancelled; base_open = 0 }

-- The lock of what is left of a buy order, capped by the escrow.
abbrev pub capped_lock : Order → Book → ℕ
capped_lock o b =
    let q = quote_lock_ceil o.base_open o.price in
    if ltb (b.escrow_quote o.maker) q then b.escrow_quote o.maker else q

-- What Cancel takes out of escrow: the storage, the refund, and the error.
unfoldable pub release : Order → Book → (Book × Option BookError) × Refund
release o b =
    if o.side == order_side_buy
    then (
      sub_escrow_q o.maker (capped_lock o b) b,
      record { quote = capped_lock o b; base = 0; token = o.base_token; side = o.side },
    )
    else (
      sub_escrow_b o.maker o.base_token o.base_open b,
      record { quote = 0; base = o.base_open; token = o.base_token; side = o.side },
    )

unfoldable pub cancel_order : Address → ℕ → Order → Book → Book × Result BookError Refund
cancel_order actor id o b =
    let released = release o b in
    if not (o.status == order_status_open)
    then (b, err order_not_open)
    else if not (o.maker == actor)
    then (b, err not_maker)
    else elim released.0.1 [
      | some e ↦ (released.0.0, err e)
      | none ↦ (close id o (write_order id (cancelled o) released.0.0), ok released.1)
    ]

unfoldable pub cancel : Address → ℕ → Book → Book × Result BookError Refund
cancel actor id b = elim (get_order id b) [
  | none ↦ (b, err order_not_found)
  | some o ↦ cancel_order actor id o b
]

-- The escrow that a fill of `filled` for `paid` takes out of the order's side.
unfoldable pub settle : Order → ℕ → ℕ → Book → Book × Option BookError
settle o filled paid b =
    if o.side == order_side_buy
    then sub_escrow_q o.maker paid b
    else sub_escrow_b o.maker o.base_token filled b

-- The order's new open amount; a filled order is closed before it is written.
unfoldable pub update_filled : ℕ → Order → ℕ → Book → Book
update_filled id o remaining b =
    if remaining == 0
    then write_order id (record o { status = order_status_filled; base_open = remaining })
        (close id o b)
    else write_order id (record o { base_open = remaining }) b

abbrev pub filled_base : Order → ℕ → ℕ
filled_base o max_base = if ltb o.base_open max_base then o.base_open else max_base

unfoldable pub fill_order : ℕ → Order → ℕ → Book → Book × Result BookError (ℕ × ℕ)
fill_order id o max_base b =
    let filled = filled_base o max_base in
    let paid = quote_floor filled o.price in
    let settled = settle o filled paid b in
    if not (o.status == order_status_open) then (b, err order_not_open) else elim settled.1 [
      | some e ↦ (settled.0, err e)
      | none ↦ (update_filled id o (sub256 o.base_open filled) settled.0, ok (filled, paid))
    ]

-- Fill: the storage after the call, and the base filled with the quote paid, or the error.
unfoldable pub fill : Address → ℕ → ℕ → Book → Book × Result BookError (ℕ × ℕ)
fill taker id max_base b =
    if taker == 0
    then (b, err zero_taker)
    else if max_base == 0
    then (b, err zero_fill)
    else elim (get_order id b) [
      | none ↦ (b, err order_not_found)
      | some o ↦ fill_order id o max_base b
    ]
