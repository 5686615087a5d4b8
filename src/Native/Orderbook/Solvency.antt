-- ===== src/Native/Orderbook/Solvency.antt =====
-- core/native/orderbook.go: any sequence of calls keeps the escrow over the open orders.
use dew.Base.{
  ℕ, suc, ◌+◌, ◌^◌, ◌≤◌, ◌<◌, ◌≡◌, ◌≢◌, refl, true, false, ◌==◌, ltb, Bool-cases, Option, Result,
  ok, err, arith, inl, inr, if◌then◌else◌, none, some,
}
use dew.Consensus.ValidatorSet.{Address}
use dew.Native.Orderbook.{
  Order, Book, BookError, order_side_buy, order_side_sell, order_status_open, max_open_per_maker,
  write_order, quote_floor, quote_lock_ceil, inc_open_count, order_not_open, not_maker, zero_taker,
  zero_fill, order_not_found, zero_base_token, zero_quote_lock,
}
use dew.Native.Orderbook.Calls.{
  place_buy, place_sell, cancel, cancel_order, fill, fill_order, release, close, record_buy,
  record_sell, cancelled,
}
use dew.Native.Orderbook.Covered.{Covered, full_lock}
use dew.Native.Orderbook.Accepting.{
  validate_place-cases, get_order-cases, get_order-some, dec_open_count-inc_open_count,
}
use dew.Native.Orderbook.Placing.{buy-Covered, sell-Covered}
use dew.Native.Orderbook.Cancelling.{
  cancel_order-Covered, full_refund, release-none, release-refund,
}
use dew.Native.Orderbook.Filling.{fill-Covered, settle-none, remaining_lem, updated}

-- The four calls that change the book.
pub data Call : Type 0 where
  buy sell : (maker token : Address) (price base now : ℕ) → Call
  cancel_by : (actor : Address) (id : ℕ) → Call
  fill_by : (taker : Address) (id max_base : ℕ) → Call

abbrev pub error_of {ℓ} : {A : Type ℓ} → Result BookError A → Option BookError
error_of (err e) = some e
error_of (ok v) = none

abbrev pub perform : Call → Book → Book × Option BookError
perform (buy maker token price base now) b =
    let r = place_buy maker token price base now b in (r.0, error_of r.1)
perform (sell maker token price base now) b =
    let r = place_sell maker token price base now b in (r.0, error_of r.1)
perform (cancel_by actor id) b = let r = cancel actor id b in (r.0, error_of r.1)
perform (fill_by taker id max_base) b = let r = fill taker id max_base b in (r.0, error_of r.1)

-- A call's amount is a 256-bit number, and neither an id, the escrow of the caller nor the length
-- of an index wraps.
abbrev pub Fits : Call → Book → Type 0
Fits (buy maker token price base now) b =
    (base < 2 ^ 256)
    × (suc b.next_id < 2 ^ 64)
    × (b.escrow_quote maker + full_lock base price < 2 ^ 256)
    × (suc (b.open_len token order_side_buy) < 2 ^ 64)
Fits (sell maker token price base now) b =
    (base < 2 ^ 256)
    × (suc b.next_id < 2 ^ 64)
    × (b.escrow_base maker token + base < 2 ^ 256)
    × (suc (b.open_len token order_side_sell) < 2 ^ 64)
Fits (cancel_by actor id) b = Unit {0}
Fits (fill_by taker id max_base) b = Unit {0}

-- To prove something of the book after a call, prove it of the book before and of what each
-- accepted call writes. An error leaves the book as it was.
module _ (b : Book) (k : Covered b) (P : Book → Type 0) (before : P b)
    (on_buy : (maker token price base now : ℕ)
      → price ≢ 0
      → b.open_count maker < max_open_per_maker
      → Fits (buy maker token price base now) b
      → P
          (record_buy maker token price base now
            (quote_lock_ceil base price)
            (inc_open_count maker b).0).0)
    (on_sell : (maker token price base now : ℕ)
      → price ≢ 0
      → b.open_count maker < max_open_per_maker
      → Fits (sell maker token price base now) b
      → P (record_sell maker token price base now (inc_open_count maker b).0).0)
    (on_cancel : (id : ℕ)
      → 0 < id
      → id ≤ b.next_id
      → (b.orders id).status ≡ order_status_open
      → P (
          close id
            (b.orders id)
            (write_order id (cancelled (b.orders id)) (release (b.orders id) b).0.0)))
    (on_fill : (id : ℕ) (pos : 0 < id) (le : id ≤ b.next_id)
        (is_open : (b.orders id).status ≡ order_status_open) (max_base : ℕ)
      → P (updated id b k pos le is_open max_base)) where
  abbrev Sound : Book × Option BookError → Type 0
  Sound r = P r.0 × ((e : BookError) → r.1 ≡ some e → r.0 ≡ b)

  failed : (e : BookError) → Sound (b, some e)
  failed e = (before, λ _ _. refl)

  succeeded : {c : Book} → P c → Sound (c, none)
  succeeded kept = (kept, λ e h. cc)

  place_buy-Sound :
      (maker token price base now : ℕ)
      → Fits (buy maker token price base now) b
      → Sound (perform (buy maker token price base now) b)
  unfolding place_buy
  place_buy-Sound maker token price base now fits =
      elim (validate_place-cases b k maker price base) [
        | inl (e, refused) ↦ rw (refused, place_buy, refused) (failed e)
        | inr (valid, passed) ↦
            let back = dec_open_count-inc_open_count b k maker valid.room in
            elim (Bool-cases (token == 0)) [
              | inl t ↦ rw (passed, t, place_buy, passed, back) (failed zero_base_token)
              | inr t ↦ elim (Bool-cases (quote_lock_ceil base price == 0)) [
                | inl q ↦ rw (passed, t, q, place_buy, passed, back) (failed zero_quote_lock)
                | inr q ↦
                    rw (passed, t, q, place_buy, passed)
                      (succeeded
                        (on_buy maker token price base now valid.has_price valid.room fits))
              ]
            ]
      ]

  place_sell-Sound :
      (maker token price base now : ℕ)
      → Fits (sell maker token price base now) b
      → Sound (perform (sell maker token price base now) b)
  unfolding place_sell
  place_sell-Sound maker token price base now fits =
      elim (validate_place-cases b k maker price base) [
        | inl (e, refused) ↦ rw (refused, place_sell, refused) (failed e)
        | inr (valid, passed) ↦
            let back = dec_open_count-inc_open_count b k maker valid.room in
            elim (Bool-cases (token == 0)) [
              | inl t ↦ rw (passed, t, place_sell, passed, back) (failed zero_base_token)
              | inr t ↦
                  rw (passed, t, place_sell, passed)
                    (succeeded (on_sell maker token price base now valid.has_price valid.room fits))
            ]
      ]

  cancel-Sound : (actor id : ℕ) → Sound (perform (cancel_by actor id) b)
  unfolding cancel cancel_order
  cancel-Sound actor id = elim (get_order-cases b k id) [
    | inl e ↦ rw (e, cancel) (failed order_not_found)
    | inr (pos, le, found) ↦ elim (Bool-cases ((b.orders id).status == order_status_open)) [
      | inr s ↦ rw (found, cancel, s, cancel_order) (failed order_not_open)
      | inl s ↦ elim (Bool-cases ((b.orders id).maker == actor)) [
        | inr a ↦ rw (found, cancel, s, a, cancel_order) (failed not_maker)
        | inl a ↦
            let is_open : (b.orders id).status ≡ order_status_open = ground arith in
            let released = release-none id b k pos le is_open in
            rw (found, cancel, s, a, released, cancel_order)
              (succeeded (on_cancel id pos le is_open))
      ]
    ]
  ]

  fill-Sound : (taker id max_base : ℕ) → Sound (perform (fill_by taker id max_base) b)
  unfolding fill fill_order
  fill-Sound taker id max_base = elim (Bool-cases (taker == 0)) [
    | inl t ↦ rw (t, fill) (failed zero_taker)
    | inr t ↦ elim (Bool-cases (max_base == 0)) [
      | inl m ↦ rw (t, m, fill) (failed zero_fill)
      | inr m ↦ elim (get_order-cases b k id) [
        | inl e ↦ rw (t, m, e, fill) (failed order_not_found)
        | inr (pos, le, found) ↦ elim (Bool-cases ((b.orders id).status == order_status_open)) [
          | inr s ↦ rw (t, m, found, fill, s, fill_order) (failed order_not_open)
          | inl s ↦
              let is_open : (b.orders id).status ≡ order_status_open = ground arith in
              let settled = settle-none id b k pos le is_open max_base in
              let rest = remaining_lem id b k pos le is_open max_base in
              rw (t, m, found, fill, s, settled, rest, fill_order)
                (succeeded (on_fill id pos le is_open max_base))
        ]
      ]
    ]
  ]

  pub perform_rule : (c : Call) → Fits c b → Sound (perform c b)
  perform_rule (buy maker token price base now) fits =
      place_buy-Sound maker token price base now fits
  perform_rule (sell maker token price base now) fits =
      place_sell-Sound maker token price base now fits
  perform_rule (cancel_by actor id) _ = cancel-Sound actor id
  perform_rule (fill_by taker id max_base) _ = fill-Sound taker id max_base

perform-Sound :
    (b : Book)
    → Covered b
    → (m : Call) → Fits m b
    → Covered (perform m b).0 × ((e : BookError) → (perform m b).1 ≡ some e → (perform m b).0 ≡ b)
perform-Sound b k =
    perform_rule b k Covered k
      (λ maker token price base now priced room fits.
        buy-Covered maker token price base now b k priced fits.0 fits.1 room fits.2)
      (λ maker token price base now priced room fits.
        sell-Covered maker token price base now b k priced fits.0 fits.1 room fits.2)
      (λ id. cancel_order-Covered id b k) λ id. fill-Covered id b k

-- Every reachable book: from any covered book, by calls that fit where they are made.
pub data Reach (b : Book) : Book → Type 0 where
  start : Reach b b
  call : {c : Book} (m : Call) → Reach b c → Fits m c → Reach b (perform m c).0

-- From a book whose escrow covers its open orders, no sequence of placings, cancels and fills,
-- accepted or refused, leaves an order uncovered: for each maker the open count is the number of
-- the maker's open orders and at most 64, the quote escrow is at least the sum of the locks of
-- the maker's open buy orders, and for each token the base escrow is exactly the sum of the open
-- amounts of the open sell orders. The condition is that the amounts are 256-bit numbers and that
-- at each placing neither the id counter, the escrow that takes the true lock, nor the length of
-- the index wraps.
pub perform-Covered : (b c : Book) → Covered b → Reach b c → Covered c
perform-Covered b c k start = k
perform-Covered b _ k (call {c} m r fits) = (perform-Sound c (perform-Covered b c k r) m fits).0

-- A call that returns an error leaves every slot of a covered book as it was, the open count that
-- a refused placing took and gave back included; the call fits as above.
pub perform-failed :
    (m : Call) (b : Book) (e : BookError)
    → Covered b
    → Fits m b
    → (perform m b).1 ≡ some e
    → (perform m b).0 ≡ b
perform-failed m b e k fits = (perform-Sound b k m fits).1 e

module _ (b : Book) (k : Covered b) (id : ℕ) (pos : 0 < id) (le : id ≤ b.next_id)
    (is_open : (b.orders id).status ≡ order_status_open) where
  abbrev o : Order
  o = b.orders id

  abbrev taken : ℕ → ℕ
  taken max_base = if ltb o.base_open max_base then o.base_open else max_base

  -- In a covered book a fill of any open order by any taker but the zero address, for a positive
  -- amount, succeeds: it returns the lesser of the amount and what is open, with the rounded-down
  -- quote, never an escrow underflow.
  pub fill-ok :
      (taker max_base : ℕ)
      → taker ≢ 0
      → max_base ≢ 0
      → (fill taker id max_base b).1 ≡ ok (taken max_base, quote_floor (taken max_base) o.price)
  unfolding fill fill_order
  fill-ok taker max_base some_taker some_base =
      let t : (taker == 0) ≡ false = ground arith in
      let m : (max_base == 0) ≡ false = ground arith in
      let s : (o.status == order_status_open) ≡ true = ground arith in
      let settled = settle-none id b k pos le is_open max_base in
      rw (t, m, get_order-some b k id pos le, fill, s, settled, fill_order) refl

  -- In a covered book a maker's cancel of an open order succeeds and refunds the whole rest: the
  -- true lock, rounded up, of what is open of a buy order, and the open amount of a sell order.
  -- Neither the cap by the escrow nor the underflow check takes effect.
  pub cancel-ok : (cancel o.maker id b).1 ≡ ok (full_refund o)
  unfolding cancel cancel_order
  cancel-ok =
      let s : (o.status == order_status_open) ≡ true = ground arith in
      let a : (o.maker == o.maker) ≡ true = ground arith in
      rw
        (
          get_order-some b k id pos le,
          cancel,
          s,
          a,
          release-none id b k pos le is_open,
          cancel_order,
          release-refund id b k pos le is_open,
        )
        refl
