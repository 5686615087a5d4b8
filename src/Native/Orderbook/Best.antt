-- ===== src/Native/Orderbook/Best.antt =====
-- core/native/orderbook.go: BestBid and BestAsk.
use dew.Base.{
  ℕ, zero, suc, ◌+◌, Bool, true, false, not, ◌&&◌, ◌||◌, Option, none, some, ltb, ◌==◌,
  if◌then◌else◌, u64,
}
use dew.Consensus.ValidatorSet.{Address}
use dew.Native.Orderbook.{Book, order_side_buy, order_side_sell, order_status_open, get_order}

-- The better of two prices; equal prices go by the lower id.
unfoldable pub is_better : Bool → ℕ → ℕ → ℕ → ℕ → Bool
is_better prefer_high price id best_price best_id =
    if prefer_high
    then ltb best_price price || (price == best_price && ltb id best_id)
    else ltb price best_price || (price == best_price && ltb id best_id)

-- An open order against the best one found before it.
unfoldable pub pick : Bool → ℕ → ℕ → Option (ℕ × ℕ) → Option (ℕ × ℕ)
pick prefer_high price id none = some (price, id)
pick prefer_high price id (some (best_price, best_id)) =
    if is_better prefer_high price id best_price best_id
    then some (price, id)
    else some (best_price, best_id)

-- One round of the loop of `best`.
unfoldable pub better : Bool → Book → ℕ → Option (ℕ × ℕ) → Option (ℕ × ℕ)
better prefer_high b id found = elim (get_order id b) [
  | none ↦ found
  | some o ↦
      if not (o.status == order_status_open) then found else pick prefer_high o.price id found
]

unfoldable pub best_loop : Bool → Book → (ℕ → ℕ) → ℕ → ℕ → Option (ℕ × ℕ) → Option (ℕ × ℕ)
best_loop prefer_high b slots zero i found = found
best_loop prefer_high b slots (suc rounds) i found =
    best_loop prefer_high b slots rounds (i + 1) (better prefer_high b (u64 (slots i)) found)

-- The best price and its id; `none` stands for `ok` false.
unfoldable pub best : Bool → Address → ℕ → Book → Option (ℕ × ℕ)
best prefer_high token side b =
    best_loop prefer_high b (b.open_at token side) (u64 (b.open_len token side)) 0 none

unfoldable pub best_bid : Address → Book → Option (ℕ × ℕ)
best_bid token b = best true token order_side_buy b

unfoldable pub best_ask : Address → Book → Option (ℕ × ℕ)
best_ask token b = best false token order_side_sell b
