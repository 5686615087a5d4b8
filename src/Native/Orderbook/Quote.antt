-- ===== src/Native/Orderbook/Quote.antt =====
-- core/native/orderbook.go: the quote of a fill against the lock of the order.
use dew.Base.{ℕ, ◌+◌, ◌-◌, ◌*◌, ◌/◌, ◌^◌, ◌≤◌, ◌<◌, ◌≡◌, arith, u256, subst}
use dew.Native.Orderbook.{one_e18, quote_floor, quote_lock_ceil}
use dew.Native.Orderbook.Covered.{full_lock}

pub floor-add-lock-le :
    (filled rest price : ℕ)
    → filled * price / one_e18 + full_lock rest price ≤ full_lock (filled + rest) price
floor-add-lock-le filled rest price = omega arith

pub quote_floor-le : (filled price : ℕ) → quote_floor filled price ≤ filled * price / one_e18
unfolding quote_floor u256
quote_floor-le filled price = ground arith

pub quote_lock_ceil_of_fits :
    (base price : ℕ)
    → full_lock base price < 2 ^ 256
    → quote_lock_ceil base price ≡ full_lock base price
unfolding quote_lock_ceil u256
quote_lock_ceil_of_fits base price fits = ground arith

pub quote_lock_ceil-le : (base price : ℕ) → quote_lock_ceil base price ≤ full_lock base price
unfolding quote_lock_ceil u256
quote_lock_ceil-le base price = ground arith

-- The part of a lock that a fill pays, and the rest, which still covers what stays open.
pub paid-le :
    (amount filled price : ℕ)
    → filled ≤ amount
    → quote_floor filled price + full_lock (amount - filled) price ≤ full_lock amount price
paid-le amount filled price le =
    let whole : filled + (amount - filled) ≡ amount = omega arith in
    omega (
      arith,
      quote_floor-le filled price,
      subst (λ n. filled * price / one_e18 + full_lock (amount - filled) price ≤ full_lock n price)
          whole (floor-add-lock-le filled (amount - filled) price),
    )
