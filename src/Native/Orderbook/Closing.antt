-- ===== src/Native/Orderbook/Closing.antt =====
-- core/native/orderbook.go: what closing an order, cancelled or filled, leaves of the book.
use dew.Base.{
  ℕ, ◌+◌, ◌-◌, ◌≤◌, ◌<◌, ◌≡◌, refl, ap, ◌==◌, Option-cases, arith, inl, inr, if◌then◌else◌, u64,
  if_rule,
}
use dew.Consensus.ValidatorSet.{Address}
use dew.Native.Staking.{set}
use dew.Native.Orderbook.{
  Order, Book, order_status_open, order_status_filled, max_open_per_maker, remove_open_index,
  swap_remove, dec_open_count, find_open,
}
use dew.Native.Orderbook.Calls.{close}
use dew.Native.Orderbook.Sums.{sum_of, term-le-sum}
use dew.Native.Orderbook.Covered.{Covered, count_weight}

-- Nothing but the index and the counts has changed.
pub record Closed (counts : ℕ → ℕ) (b c : Book) : Type 0 where
  pub same_ids : c.next_id ≡ b.next_id
  pub same_orders : c.orders ≡ b.orders
  pub same_quote : c.escrow_quote ≡ b.escrow_quote
  pub same_base : c.escrow_base ≡ b.escrow_base
  pub same_counts : c.open_count ≡ counts

dec-Closed :
    (m : Address) (b : Book) → Closed (dec_open_count m b).open_count b (dec_open_count m b)
unfolding dec_open_count
dec-Closed m b = if_rule (λ c. Closed c.open_count b c) _ (λ _. closed) (λ _. closed)
  where
    closed : {f : ℕ → ℕ} → Closed f b (record b { open_count = f })
    closed = record {
      same_ids = refl;
      same_orders = refl;
      same_quote = refl;
      same_base = refl;
      same_counts = refl;
    }

remove-Closed :
    (f : ℕ → ℕ) (t s id : ℕ) (b c : Book) → Closed f b c → Closed f b (remove_open_index t s id c)
unfolding remove_open_index swap_remove
remove-Closed f t s id b c k =
    elim (Option-cases (find_open (u64 (c.open_len t s)) (c.open_at t s) id 0)) [
      | inl e ↦ rw (e, remove_open_index) k
      | inr (i, e) ↦
          rw (e, remove_open_index)
            record {
              same_ids = k.same_ids;
              same_orders = k.same_orders;
              same_quote = k.same_quote;
              same_base = k.same_base;
              same_counts = k.same_counts;
            }
    ]

pub close-Closed :
    (id : ℕ) (o : Order) (b : Book) → Closed (dec_open_count o.maker b).open_count b (close id o b)
unfolding close
close-Closed id o b = remove-Closed _ o.base_token o.side id b _ (dec-Closed o.maker b)

-- A count of at least one, not above the limit, falls by one.
pub dec_open_count-count :
    (m k : ℕ) (b : Book)
    → 0 < b.open_count m
    → b.open_count m ≤ max_open_per_maker
    → (dec_open_count m b).open_count k ≡ (if m == k then b.open_count k - 1 else b.open_count k)
unfolding dec_open_count set u64
dec_open_count-count m k b pos le = ground arith

-- The order after a fill that leaves `remaining`.
abbrev pub after_fill : Order → ℕ → Order
after_fill o remaining = record o {
  status = if remaining == 0 then order_status_filled else o.status;
  base_open = remaining;
}

-- An open order of the book, its slots settled: `s` is `b` with less escrow.
module _ (id : ℕ) (b s : Book) (k : Covered b) (pos : 0 < id) (le : id ≤ b.next_id)
    (is_open : (b.orders id).status ≡ order_status_open)
    (counts : s.open_count ≡ b.open_count) where
  abbrev pub order : Order
  order = b.orders id

  pub count_pos : 0 < b.open_count order.maker
  unfolding count_weight sum_of
  count_pos = ground (
    arith,
    k.counted order.maker,
    term-le-sum (λ i. count_weight order.maker (b.orders i)) id b.next_id pos le,
  )

  pub count_drop :
      (m : Address)
      → (dec_open_count order.maker s).open_count m + count_weight m order ≡ b.open_count m
  unfolding count_weight
  count_drop m = ground (
    arith,
    dec_open_count-count order.maker m s,
    k.limited order.maker,
    ap (λ f. f order.maker) counts,
    ap (λ f. f m) counts,
    count_pos,
  )
