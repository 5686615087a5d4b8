-- ===== src/Native/Orderbook/Ordering.antt =====
-- core/native/orderbook.go: the four calls keep the open index.
use dew.Base.{ℕ, ◌≤◌, ◌<◌, ◌≡◌, ◌≢◌, refl, ap, ◌∙◌, ◌==◌, Bool-cases, arith, inl, inr}
use dew.Consensus.ValidatorSet.{Address}
use dew.Native.Orderbook.{
  Order, Book, order_side_buy, order_side_sell, order_status_open, quote_lock_ceil, inc_open_count,
  dec_open_count, add_escrow_q, add_escrow_b, sub_escrow_q, sub_escrow_b, write_order,
  next_order_id, add_open_index,
}
use dew.Native.Orderbook.Calls.{
  update_filled, release, settle, close, record_buy, record_sell, new_order, cancelled,
}
use dew.Native.Orderbook.Covered.{Covered}
use dew.Native.Orderbook.Placing.{buy-Added, sell-Added, counted-next}
use dew.Native.Orderbook.Cancelling.{cancel-Replaced}
use dew.Native.Orderbook.Closing.{after_fill}
use dew.Native.Orderbook.Filling.{fill-Replaced, remaining, settled}
use dew.Native.Orderbook.Listing.{
  Indexed, SameIndex, dec_open_count-SameIndex, written-Indexed, closed-Indexed,
}
use dew.Native.Orderbook.Joining.{joined-Indexed}
use dew.Native.Orderbook.Solvency.{
  Call, buy, sell, perform, Fits, Reach, start, call, perform-Covered, perform_rule,
}

inc_open_count-SameIndex : (m : Address) (b : Book) → SameIndex b (inc_open_count m b).0
unfolding inc_open_count
inc_open_count-SameIndex m b = record { same_len = ground arith; same_at = ground arith }

module _ (b : Book) (k : Covered b) (x : Indexed b) where
  module _ (maker token price base now : ℕ) (priced : price ≢ 0)
      (room : b.open_count maker < 64) where
    buy_Indexed :
        Fits (buy maker token price base now) b
        → Indexed
            (record_buy maker token price base now
              (quote_lock_ceil base price)
              (inc_open_count maker b).0).0
    unfolding record_buy add_escrow_q write_order next_order_id new_order
    buy_Indexed fits =
        let added = buy-Added maker token price base now b k priced fits.0 fits.1 room fits.2 in
        let id = counted-next maker token price base now b k priced fits.0 fits.1 room in
        let same = inc_open_count-SameIndex maker b in
        let c : Book = add_escrow_q maker (quote_lock_ceil base price) (
          write_order (next_order_id (inc_open_count maker b).0).1
            (new_order maker token order_side_buy price base now)
            (next_order_id (inc_open_count maker b).0).0) in
        joined-Indexed b x (new_order maker token order_side_buy price base now) refl fits.3 c
          record { same_len = same.same_len; same_at = same.same_at } _ added.next added.added
          (ap (λ i. (add_open_index token order_side_buy i c).open_len) id)
          (ap (λ i. (add_open_index token order_side_buy i c).open_at) id)

    sell_Indexed :
        Fits (sell maker token price base now) b
        → Indexed (record_sell maker token price base now (inc_open_count maker b).0).0
    unfolding record_sell add_escrow_b write_order next_order_id new_order
    sell_Indexed fits =
        let added = sell-Added maker token price base now b k priced fits.0 fits.1 room fits.2 in
        let id = counted-next maker token price base now b k priced fits.0 fits.1 room in
        let same = inc_open_count-SameIndex maker b in
        let c : Book = add_escrow_b maker token base (
          write_order (next_order_id (inc_open_count maker b).0).1
            (new_order maker token order_side_sell price base now)
            (next_order_id (inc_open_count maker b).0).0) in
        joined-Indexed b x (new_order maker token order_side_sell price base now) refl fits.3 c
          record { same_len = same.same_len; same_at = same.same_at } _ added.next added.added
          (ap (λ i. (add_open_index token order_side_sell i c).open_len) id)
          (ap (λ i. (add_open_index token order_side_sell i c).open_at) id)

  module _ (id : ℕ) (pos : 0 < id) (le : id ≤ b.next_id)
      (is_open : (b.orders id).status ≡ order_status_open) where
    abbrev o : Order
    o = b.orders id

    released-SameIndex : SameIndex b (release o b).0.0
    unfolding release sub_escrow_q sub_escrow_b
    released-SameIndex = record { same_len = ground arith; same_at = ground arith }

    cancelled_Indexed : Indexed (close id o (write_order id (cancelled o) (release o b).0.0))
    unfolding close write_order
    cancelled_Indexed =
        let replaced = cancel-Replaced id b k pos le is_open in
        let written : Book = write_order id (cancelled o) (release o b).0.0 in
        let dec = dec_open_count-SameIndex o.maker written in
        closed-Indexed b k x id pos le is_open (cancelled o) (dec_open_count o.maker written) _
          record {
            same_len = dec.same_len ∙ released-SameIndex.same_len;
            same_at = dec.same_at ∙ released-SameIndex.same_at;
          }
          (omega arith) replaced.same_ids replaced.replaced refl refl

    module _ (max_base : ℕ) where
      abbrev settled_book : Book
      settled_book = settled id b k pos le is_open max_base

      abbrev rest : ℕ
      rest = remaining id b k pos le is_open max_base

      settled-SameIndex : SameIndex b settled_book
      unfolding settle sub_escrow_q sub_escrow_b
      settled-SameIndex = record { same_len = ground arith; same_at = ground arith }

      filled_Indexed : Indexed (update_filled id o rest settled_book)
      unfolding close write_order update_filled
      filled_Indexed =
          let replaced = fill-Replaced id b k pos le is_open max_base in
          elim (Bool-cases (rest == 0)) [
            | inl e ↦
                let dec = dec_open_count-SameIndex o.maker settled_book in
                closed-Indexed b k x id pos le is_open (after_fill o rest)
                  (dec_open_count o.maker settled_book) _
                  record {
                    same_len = dec.same_len ∙ settled-SameIndex.same_len;
                    same_at = dec.same_at ∙ settled-SameIndex.same_at;
                  }
                  (rw e (omega arith)) replaced.same_ids replaced.replaced
                  (rw (e, update_filled) refl) (rw (e, update_filled) refl)
            | inr e ↦
                written-Indexed b k x id pos le (after_fill o rest) _ (rw e refl) refl refl
                  replaced.same_ids replaced.replaced
                  record {
                    same_len = rw (e, update_filled) settled-SameIndex.same_len;
                    same_at = rw (e, update_filled) settled-SameIndex.same_at;
                  }
          ]

  pub perform-Indexed : (m : Call) → Fits m b → Indexed (perform m b).0
  perform-Indexed m fits =
      (perform_rule b k Indexed x buy_Indexed sell_Indexed cancelled_Indexed filled_Indexed m
        fits).0

-- From a book whose escrow covers its open orders and whose index is right, no sequence of calls
-- that fit, accepted or refused, breaks the index: for every token and side the slots below the
-- length hold exactly the ids of the open orders of that token and side, each once.
pub reach-Indexed : (b c : Book) → Covered b → Indexed b → Reach b c → Indexed c
reach-Indexed b _ k x start = x
reach-Indexed b _ k x (call {c} m r fits) =
    perform-Indexed c (perform-Covered b c k r) (reach-Indexed b c k x r) m fits
