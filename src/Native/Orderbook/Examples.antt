-- ===== src/Native/Orderbook/Examples.antt =====
-- core/native/orderbook.go: the calls and the theorems on concrete books.
use dew.Base.{u64, u256, true, false, ◌^◌, ◌≡◌, refl, ok, some, arith}
use dew.Native.Staking.{set, set_pair, sub256}
use dew.Native.Orderbook.{
  Book, inc_open_count, quote_lock_ceil, quote_floor, add_open_index, remove_open_index, find_open,
  swap_remove, dec_open_count, add_escrow_q, sub_escrow_q, write_order, next_order_id, set_order,
  set_at, get_order, not_maker, order_side_buy, order_side_sell,
}
use dew.Native.Orderbook.Calls.{
  place_buy, validate_place, record_buy, new_order, fill, cancel, cancel_order, fill_order, settle,
  update_filled, close,
}
use dew.Native.Orderbook.Best.{best_bid, best_ask, best, best_loop, better, pick, is_better}
use dew.Native.Orderbook.Covered.{Covered}
use dew.Native.Orderbook.Listing.{Indexed}
use dew.Native.Orderbook.Solvency.{
  buy, fill_by, cancel_by, perform, perform-Covered, perform-failed, call, start, fill-ok,
  cancel-ok,
}
use dew.Native.Orderbook.Ordering.{reach-Indexed}
use dew.Native.Orderbook.Lifecycle.{Aged, reach-Aged}
use dew.Native.Orderbook.Overflow.{place_buy-wraps}
use dew.Native.Orderbook.Top.{Answer, best_bid-Answer, best_ask-Answer}
use dew.Native.Orderbook.Toy.{
  no_orders, no_orders-Covered, no_orders-Indexed, bid, bid-Covered, bid-Indexed, partly_filled,
  partly_filled-Reach,
}

perform-Covered_example : Covered partly_filled
perform-Covered_example =
    perform-Covered no_orders partly_filled no_orders-Covered partly_filled-Reach

perform-failed_example : (perform (cancel_by 5 1) bid).0 ≡ bid
unfolding place_buy validate_place inc_open_count u64 quote_lock_ceil u256 record_buy add_open_index
    add_escrow_q write_order next_order_id set_order new_order get_order cancel cancel_order
perform-failed_example = perform-failed (cancel_by 5 1) bid not_maker bid-Covered tt refl

fill-ok_example : (fill 9 1 2 bid).1 ≡ ok (2, 1)
unfolding place_buy validate_place inc_open_count u64 quote_lock_ceil u256 record_buy add_open_index
    add_escrow_q write_order next_order_id set_order new_order quote_floor
fill-ok_example =
    fill-ok bid bid-Covered 1 (omega arith) (omega arith) refl 9 2 (omega arith) (omega arith)

cancel-ok_example : (cancel 7 1 bid).1 ≡ ok (record { quote = 2; base = 0; token = 8; side = 0 })
unfolding place_buy validate_place inc_open_count u64 quote_lock_ceil u256 record_buy add_open_index
    add_escrow_q write_order next_order_id set_order new_order
cancel-ok_example = cancel-ok bid bid-Covered 1 (omega arith) (omega arith) refl

reach-Indexed_example : Indexed partly_filled
reach-Indexed_example =
    reach-Indexed no_orders partly_filled no_orders-Covered no_orders-Indexed partly_filled-Reach

reach-Aged_example : Aged (bid.orders 1) (partly_filled.orders 1)
unfolding place_buy validate_place inc_open_count u64 quote_lock_ceil u256 record_buy add_open_index
    add_escrow_q write_order next_order_id set_order new_order
reach-Aged_example =
    reach-Aged bid partly_filled 1 bid-Covered (omega arith) (call (fill_by 9 1 2) start tt)

best_bid-Answer_example : Answer bid bid-Covered bid-Indexed true 8 order_side_buy (best_bid 8 bid)
best_bid-Answer_example = best_bid-Answer bid bid-Covered bid-Indexed 8

best_ask-Answer_example :
    Answer bid bid-Covered bid-Indexed false 8 order_side_sell (best_ask 8 bid)
best_ask-Answer_example = best_ask-Answer bid bid-Covered bid-Indexed 8

place_buy-wraps_example :
    (place_buy 7 8 (2 ^ 255) 2000000000000000001 1 no_orders).1
    ≡ ok (1, 57896044618658097711785492504343953926634992332820282019729)
unfolding u64
place_buy-wraps_example =
    place_buy-wraps no_orders 7 8 (2 ^ 255) 2000000000000000001 1
      57896044618658097711785492504343953926634992332820282019729 no_orders-Covered (omega arith)
      (omega arith) (omega arith) (omega arith) (omega arith) (omega arith) (omega arith) refl

-- A second bid of a higher price.
abbrev two_bids : Book
two_bids = (perform (buy 7 8 600000000000000000 3 1) bid).0

best_bid-run : best_bid 8 two_bids ≡ some (600000000000000000, 2)
unfolding place_buy validate_place inc_open_count u64 quote_lock_ceil u256 record_buy add_open_index
    add_escrow_q write_order next_order_id set_order new_order get_order best_bid best best_loop
    better pick is_better set_at set set_pair
best_bid-run = refl

fill-run : (perform (fill_by 9 1 5) two_bids).0.open_at 8 0 0 ≡ 2
unfolding place_buy validate_place inc_open_count u64 quote_lock_ceil u256 record_buy add_open_index
    add_escrow_q write_order next_order_id set_order new_order get_order set_at set set_pair sub256
    fill fill_order settle sub_escrow_q quote_floor update_filled close dec_open_count
    remove_open_index find_open swap_remove
fill-run = refl
