-- ===== src/Native/Orderbook/Toy.antt =====
-- Concrete books, to run the code of core/native/orderbook.go on.
use dew.Base.{refl, arith}
use dew.Native.Orderbook.{Order, Book}
use dew.Native.Orderbook.Covered.{Covered}
use dew.Native.Orderbook.Listing.{Indexed}
use dew.Native.Orderbook.Sums.{sum, sum_of}
use dew.Native.Orderbook.Solvency.{buy, fill_by, perform, Fits, Reach, start, call, perform-Covered}
use dew.Native.Orderbook.Ordering.{reach-Indexed}

abbrev pub blank : Order
blank = record {
  maker = 0;
  base_token = 0;
  side = 0;
  price = 0;
  base_open = 0;
  base_orig = 0;
  created_at = 0;
  status = 0;
}

abbrev pub no_orders : Book
no_orders = record {
  next_id = 0;
  orders = λ i. blank;
  open_count = λ m. 0;
  escrow_quote = λ m. 0;
  escrow_base = λ m t. 0;
  open_len = λ t s. 0;
  open_at = λ t s i. 0;
}

pub no_orders-Covered : Covered no_orders
unfolding sum_of sum
no_orders-Covered = record {
  ids_fit = omega arith;
  priced = λ i p q. absurd (omega arith);
  amounts_fit = λ i p q. absurd (omega arith);
  counted = λ m. refl;
  limited = λ m. omega arith;
  quote_covered = λ m. omega arith;
  quote_fits = λ m. omega arith;
  base_covered = λ m t. refl;
  base_fits = λ m t. omega arith;
}

pub no_orders-Indexed : Indexed no_orders
no_orders-Indexed = record {
  listed = λ t s. record {
    given = λ i h. absurd (omega arith);
    rests = λ i h. absurd (omega arith);
    once = λ i j p q e. absurd (omega arith);
    all = λ id p q r. absurd (omega arith);
  };
  lens_fit = λ t s. omega arith;
}

-- Maker 7 bids for 3 of token 8 at half a wei each, and locks 2 wei.
abbrev pub bid : Book
bid = (perform (buy 7 8 500000000000000000 3 1) no_orders).0

pub bid-Fits : Fits (buy 7 8 500000000000000000 3 1) no_orders
bid-Fits = (omega arith, omega arith, omega arith, omega arith)

pub bid-Reach : Reach no_orders bid
bid-Reach = call (buy 7 8 500000000000000000 3 1) start bid-Fits

pub bid-Covered : Covered bid
bid-Covered = perform-Covered no_orders bid no_orders-Covered bid-Reach

pub bid-Indexed : Indexed bid
bid-Indexed = reach-Indexed no_orders bid no_orders-Covered no_orders-Indexed bid-Reach

-- Taker 9 sells 2 of it.
abbrev pub partly_filled : Book
partly_filled = (perform (fill_by 9 1 2) bid).0

pub partly_filled-Reach : Reach no_orders partly_filled
partly_filled-Reach = call (fill_by 9 1 2) bid-Reach tt
