-- ===== src/Native/Orderbook/Overflow.antt =====
-- core/native/orderbook.go: a buy order whose lock does not fit in 256 bits.
use dew.Base.{ℕ, ◌+◌, ◌^◌, ◌<◌, ◌≡◌, ◌≢◌, refl, ok, arith, u64, u256, leb, ◌==◌, false}
use dew.Native.Orderbook.{Book, next_order_id, quote_lock_ceil, inc_open_count, max_open_per_maker}
use dew.Native.Orderbook.Calls.{place_buy, validate_place, record_buy}
use dew.Native.Orderbook.Covered.{Covered, full_lock}

quote_lock_ceil-wraps :
    (base price x : ℕ)
    → full_lock base price ≡ 2 ^ 256 + x
    → x < 2 ^ 256
    → quote_lock_ceil base price ≡ x
unfolding quote_lock_ceil u256
quote_lock_ceil-wraps base price x wraps small = ground arith

-- A buy order whose true lock is 2^256 + x wei, for 0 < x < 2^256, is accepted for a lock of x wei:
-- the overflow that FromBig reports is dropped. The conditions are those of an accepted order: a
-- covered book, a maker and a token that are not the zero address, an amount and a price that are
-- not zero, and fewer than 64 open orders of the maker.
pub place_buy-wraps :
    (b : Book) (maker token price base now x : ℕ)
    → Covered b
    → maker ≢ 0
    → token ≢ 0
    → price ≢ 0
    → base ≢ 0
    → b.open_count maker < max_open_per_maker
    → x ≢ 0
    → x < 2 ^ 256
    → full_lock base price ≡ 2 ^ 256 + x
    → (place_buy maker token price base now b).1 ≡ ok (u64 (u64 b.next_id + 1), x)
unfolding place_buy validate_place inc_open_count record_buy next_order_id u64
place_buy-wraps b maker token price base now x k m t p q room nonzero small wraps =
    let lock = quote_lock_ceil-wraps base price x wraps small in
    let m' : (maker == 0) ≡ false = ground arith in
    let t' : (token == 0) ≡ false = ground arith in
    let p' : (price == 0) ≡ false = ground arith in
    let q' : (base == 0) ≡ false = ground arith in
    let x' : (x == 0) ≡ false = ground arith in
    let r' : leb max_open_per_maker (u64 (b.open_count maker)) ≡ false = ground arith in
    let same : (validate_place maker price base b).0.next_id ≡ b.next_id = ground arith in
    rw (validate_place, m', p', q', inc_open_count, r', place_buy, t', lock, x') (rw same refl)
