-- ===== src/Native/Orderbook/Placing.antt =====
-- core/native/orderbook.go: an accepted order.
use dew.Base.{ℕ, suc, ◌+◌, ◌^◌, ◌<◌, ◌≡◌, ◌≢◌, ap₂, ◌==◌, arith, if◌then◌else◌, none, u64, u256}
use dew.Consensus.ValidatorSet.{Address}
use dew.Native.Staking.{set, set_pair}
use dew.Native.Orderbook.{
  Order, Book, set_order, write_order, order_side_buy, order_side_sell, max_open_per_maker,
  quote_lock_ceil, next_order_id, inc_open_count, add_open_index, add_escrow_q, add_escrow_b,
}
use dew.Native.Orderbook.Calls.{new_order, record_buy, record_sell}
use dew.Native.Orderbook.Covered.{
  Covered, Added, full_lock, count_weight, quote_weight, base_weight, added-Covered,
}
use dew.Native.Orderbook.Quote.{quote_lock_ceil_of_fits}

module _ (maker token price base now : ℕ) (b : Book) (k : Covered b) (priced : price ≢ 0)
    (amount : base < 2 ^ 256) (ids : suc b.next_id < 2 ^ 64)
    (room : b.open_count maker < max_open_per_maker) where
  abbrev pub counted : Book
  counted = (inc_open_count maker b).0

  pub inc_open_count-none : (inc_open_count maker b).1 ≡ none
  unfolding inc_open_count u64
  inc_open_count-none = ground arith

  counted-count :
      (m : Address)
      → counted.open_count m ≡ (if maker == m then b.open_count m + 1 else b.open_count m)
  unfolding inc_open_count set u64
  counted-count m = ground arith

  pub counted-next : (next_order_id counted).1 ≡ suc b.next_id
  unfolding inc_open_count next_order_id u64
  counted-next = ground arith

  counted-orders : counted.orders ≡ b.orders
  unfolding inc_open_count
  counted-orders = ground arith

  counted-quote : counted.escrow_quote ≡ b.escrow_quote
  unfolding inc_open_count
  counted-quote = ground arith

  counted-base : counted.escrow_base ≡ b.escrow_base
  unfolding inc_open_count
  counted-base = ground arith

  module _ (fits : b.escrow_quote maker + full_lock base price < 2 ^ 256) where
    abbrev pub bid : Order
    bid = new_order maker token order_side_buy price base now

    abbrev pub after_buy : Book
    after_buy = (record_buy maker token price base now (quote_lock_ceil base price) counted).0

    buy_orders : after_buy.orders ≡ set_order b.orders (suc b.next_id) bid
    unfolding record_buy add_open_index add_escrow_q write_order next_order_id
    buy_orders = ap₂ (λ f i. set_order f i bid) counted-orders counted-next

    lock_lem : quote_lock_ceil base price ≡ full_lock base price
    lock_lem = quote_lock_ceil_of_fits base price (omega arith)

    pub buy-Added : Added bid b after_buy
    unfolding record_buy add_open_index add_escrow_q write_order next_order_id new_order
        count_weight quote_weight base_weight set u256
    buy-Added = record {
      next = counted-next;
      added = buy_orders;
      has_price = priced;
      amount_fits = amount;
      ids_left = ids;
      count_grows = λ m. ground (arith, counted-count m);
      count_left = λ m. ground (arith, counted-count m, k.limited m);
      quote_grows = λ m. rw (counted-quote, lock_lem) (ground arith);
      quote_left = λ m. rw (counted-quote, lock_lem) (ground (arith, k.quote_fits m));
      base_grows = λ m t. rw counted-base (ground arith);
      base_left = λ m t. rw counted-base (k.base_fits m t);
    }

    pub buy-Covered : Covered after_buy
    buy-Covered = added-Covered bid b after_buy buy-Added k

  module _ (fits : b.escrow_base maker token + base < 2 ^ 256) where
    abbrev pub ask : Order
    ask = new_order maker token order_side_sell price base now

    abbrev pub after_sell : Book
    after_sell = (record_sell maker token price base now counted).0

    sell_orders : after_sell.orders ≡ set_order b.orders (suc b.next_id) ask
    unfolding record_sell add_open_index add_escrow_b write_order next_order_id
    sell_orders = ap₂ (λ f i. set_order f i ask) counted-orders counted-next

    pub sell-Added : Added ask b after_sell
    unfolding record_sell add_open_index add_escrow_b write_order next_order_id new_order
        count_weight quote_weight base_weight set_pair u256
    sell-Added = record {
      next = counted-next;
      added = sell_orders;
      has_price = priced;
      amount_fits = amount;
      ids_left = ids;
      count_grows = λ m. ground (arith, counted-count m);
      count_left = λ m. ground (arith, counted-count m, k.limited m);
      quote_grows = λ m. rw counted-quote (ground arith);
      quote_left = λ m. rw counted-quote (k.quote_fits m);
      base_grows = λ m t. rw counted-base (ground arith);
      base_left = λ m t. rw counted-base (ground (arith, k.base_fits m t));
    }

    pub sell-Covered : Covered after_sell
    sell-Covered = added-Covered ask b after_sell sell-Added k
