-- ===== src/Native/Orderbook.antt =====
-- core/native/orderbook.go: the storage of the order book, and its four calls.

pub mod Calls
pub mod Best
pub mod Sums
pub mod Covered
pub mod Closing
pub mod Quote
pub mod Filling
pub mod Cancelling
pub mod Placing
pub mod Accepting
pub mod Solvency
pub mod Index
pub mod Listing
pub mod Joining
pub mod Ordering
pub mod Top
pub mod Lifecycle
pub mod Quotes
pub mod Makers
pub mod Payouts
pub mod Overflow
pub mod Toy
mod Examples
use dew.Base.{
  ℕ, zero, suc, ◌+◌, ◌-◌, ◌*◌, ◌/◌, ◌^◌, Bool, true, false, not, ◌&&◌, ◌||◌, Option, none, some,
  leb, ltb, ◌==◌, if◌then◌else◌, u64, u256, Result, ok, err,
}
use dew.Consensus.ValidatorSet.{Address}
use dew.Native.Staking.{set, set_pair, sub256}

abbrev pub order_side_buy : ℕ
order_side_buy = 0

abbrev pub order_side_sell : ℕ
order_side_sell = 1

abbrev pub order_status_open : ℕ
order_status_open = 0

abbrev pub order_status_filled : ℕ
order_status_filled = 1

abbrev pub order_status_cancelled : ℕ
order_status_cancelled = 2

-- A resting limit order. Its id is the key of its slots.
pub record Order : Type 0 where
  pub maker : Address
  pub base_token : Address
  pub side : ℕ
  pub price : ℕ
  pub base_open : ℕ
  pub base_orig : ℕ
  pub created_at : ℕ
  pub status : ℕ

pub record Refund : Type 0 where
  pub quote : ℕ
  pub base : ℕ
  pub token : Address
  pub side : ℕ

-- The storage under the module's address, a map for each domain of its slots; the five slots of
-- an order are one value. A slot that was never set holds 0.
pub record Book : Type 0 where
  pub next_id : ℕ
  pub orders : ℕ → Order
  pub open_count : ℕ → ℕ
  pub escrow_quote : ℕ → ℕ
  pub escrow_base : ℕ → ℕ → ℕ
  pub open_len : ℕ → ℕ → ℕ
  pub open_at : ℕ → ℕ → ℕ → ℕ

pub data BookError : Type 0 where
  max_open_orders zero_maker zero_price zero_base_amount zero_base_token : BookError
  zero_quote_lock order_not_found order_not_open not_maker zero_taker zero_fill : BookError
  escrow_quote_underflow escrow_base_underflow : BookError

abbrev pub one_e18 : ℕ
one_e18 = 1000000000000000000

abbrev pub max_open_per_maker : ℕ
max_open_per_maker = 64

-- The product is a big integer; FromBig keeps the low 256 bits of the quotient, and its overflow
-- flag is dropped.
unfoldable pub quote_floor : ℕ → ℕ → ℕ
quote_floor base price = if base == 0 || price == 0 then 0 else u256 (base * price / one_e18)

unfoldable pub quote_lock_ceil : ℕ → ℕ → ℕ
quote_lock_ceil base price =
    if base == 0 || price == 0 then 0 else u256 ((base * price + (one_e18 - 1)) / one_e18)

-- The id to assign, and the storage with the counter moved.
unfoldable pub next_order_id : Book → Book × ℕ
next_order_id b = let next = u64 (u64 b.next_id + 1) in (record b { next_id = next }, next)

unfoldable pub set_order : (ℕ → Order) → ℕ → Order → ℕ → Order
set_order f id o i = if id == i then o else f i

unfoldable pub write_order : ℕ → Order → Book → Book
write_order id o b = record b { orders = set_order b.orders id o }

-- Every slot of the order holds 0.
abbrev pub is_blank : Order → Bool
is_blank o = o.base_orig == 0 && o.base_open == 0 && o.price == 0 && o.maker == 0

unfoldable pub get_order : ℕ → Book → Option Order
get_order id b =
    if id == 0
    then none
    else if ltb (u64 b.next_id) id
    then none
    else if is_blank (b.orders id)
    then none
    else some (b.orders id)

abbrev pub open_orders : Book → Address → ℕ
open_orders b maker = u64 (b.open_count maker)

unfoldable pub inc_open_count : Address → Book → Book × Option BookError
inc_open_count maker b =
    if leb max_open_per_maker (open_orders b maker)
    then (b, some max_open_orders)
    else (record b { open_count = set b.open_count maker (u64 (open_orders b maker + 1)) }, none)

unfoldable pub dec_open_count : Address → Book → Book
dec_open_count maker b =
    if open_orders b maker == 0
    then b
    else record b { open_count = set b.open_count maker (open_orders b maker - 1) }

unfoldable pub add_escrow_q : Address → ℕ → Book → Book
add_escrow_q maker amount b = record b {
  escrow_quote = set b.escrow_quote maker (u256 (b.escrow_quote maker + amount));
}

unfoldable pub sub_escrow_q : Address → ℕ → Book → Book × Option BookError
sub_escrow_q maker amount b =
    if ltb (b.escrow_quote maker) amount then (b, some escrow_quote_underflow) else (
      record b { escrow_quote = set b.escrow_quote maker (sub256 (b.escrow_quote maker) amount) },
      none,
    )

unfoldable pub add_escrow_b : Address → Address → ℕ → Book → Book
add_escrow_b maker token amount b = record b {
  escrow_base = set_pair b.escrow_base maker token (u256 (b.escrow_base maker token + amount));
}

unfoldable pub sub_escrow_b : Address → Address → ℕ → Book → Book × Option BookError
sub_escrow_b maker token amount b =
    if ltb (b.escrow_base maker token) amount then (b, some escrow_base_underflow) else (
      record b {
        escrow_base =
            set_pair b.escrow_base maker token (sub256 (b.escrow_base maker token) amount);
      },
      none,
    )

-- The open index of a token and a side: the list of the ids in the slots 0 .. open_len - 1.
unfoldable pub set_at : (ℕ → ℕ → ℕ → ℕ) → Address → ℕ → ℕ → ℕ → ℕ → ℕ → ℕ → ℕ
set_at f token side i v t s j = if token == t && side == s && i == j then v else f t s j

unfoldable pub add_open_index : Address → ℕ → ℕ → Book → Book
add_open_index token side id b =
    let n = u64 (b.open_len token side) in
    record b {
      open_at = set_at b.open_at token side n id;
      open_len = set_pair b.open_len token side (u64 (n + 1));
    }

-- The first index from `i` on, of `rounds` many, whose slot holds the id.
unfoldable pub find_open : ℕ → (ℕ → ℕ) → ℕ → ℕ → Option ℕ
find_open zero slots id i = none
find_open (suc rounds) slots id i =
    let rest = find_open rounds slots id (i + 1) in if u64 (slots i) == id then some i else rest

-- Swap-remove with the last: `n` is the length, `i` the index found.
unfoldable pub swap_remove : Address → ℕ → ℕ → ℕ → Book → Book
swap_remove token side n i b =
    let last = b.open_at token side (n - 1) in
    let moved = if i == n - 1 then b.open_at else set_at b.open_at token side i last in
    record b {
      open_at = set_at moved token side (n - 1) 0;
      open_len = set_pair b.open_len token side (n - 1);
    }

unfoldable pub remove_open_index : Address → ℕ → ℕ → Book → Book
remove_open_index token side id b =
    let n = u64 (b.open_len token side) in
    elim (find_open n (b.open_at token side) id 0) [
      | none ↦ b
      | some i ↦ swap_remove token side n i b
    ]
