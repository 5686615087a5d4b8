-- ===== src/Native/Orderbook/Covered.antt =====
-- core/native/orderbook.go: the escrow covers the open orders, and what it takes to keep it so.
use dew.Base.{
  ℕ, suc, ◌+◌, ◌-◌, ◌*◌, ◌/◌, ◌^◌, ◌≤◌, ◌<◌, ◌≡◌, ◌≢◌, refl, ◌&&◌, ◌==◌, Bool-cases, arith, inl,
  inr, if◌then◌else◌,
}
use dew.Consensus.ValidatorSet.{Address}
use dew.Native.Orderbook.{
  Order, Book, set_order, write_order, order_side_buy, order_status_open, one_e18,
  max_open_per_maker,
}
use dew.Native.Orderbook.Sums.{sum_of, sum-write, sum-new}

-- What the maker of a buy order locks, before FromBig cuts it to 256 bits.
abbrev pub full_lock : ℕ → ℕ → ℕ
full_lock base price = (base * price + (one_e18 - 1)) / one_e18

-- What one order adds to its maker's count, quote escrow and base escrow.
unfoldable pub count_weight : Address → Order → ℕ
count_weight m o = if o.status == order_status_open && o.maker == m then 1 else 0

unfoldable pub quote_weight : Address → Order → ℕ
quote_weight m o =
    if o.status == order_status_open && (o.side == order_side_buy && o.maker == m)
    then full_lock o.base_open o.price
    else 0

unfoldable pub base_weight : Address → Address → Order → ℕ
base_weight m t o =
    if o.side == order_side_buy
    then 0
    else if o.status == order_status_open && (o.maker == m && o.base_token == t)
    then o.base_open
    else 0

pub record Covered (b : Book) : Type 0 where
  pub ids_fit : b.next_id < 2 ^ 64
  pub priced : (i : ℕ) → 0 < i → i ≤ b.next_id → (b.orders i).price ≢ 0
  pub amounts_fit : (i : ℕ) → 0 < i → i ≤ b.next_id → (b.orders i).base_open < 2 ^ 256
  pub counted : (m : Address) → b.open_count m ≡ sum_of (count_weight m) b
  pub limited : (m : Address) → b.open_count m ≤ max_open_per_maker
  pub quote_covered : (m : Address) → sum_of (quote_weight m) b ≤ b.escrow_quote m
  pub quote_fits : (m : Address) → b.escrow_quote m < 2 ^ 256
  pub base_covered : (m t : Address) → b.escrow_base m t ≡ sum_of (base_weight m t) b
  pub base_fits : (m t : Address) → b.escrow_base m t < 2 ^ 256

-- An order that the book holds is replaced, and its maker's slots follow.
pub record Replaced (id : ℕ) (o : Order) (b c : Book) : Type 0 where
  pub same_ids : c.next_id ≡ b.next_id
  pub replaced : c.orders ≡ set_order b.orders id o
  pub same_price : o.price ≡ (b.orders id).price
  pub less_open : o.base_open ≤ (b.orders id).base_open
  pub count_follows :
      (m : Address)
      → c.open_count m + count_weight m (b.orders id) ≡ b.open_count m + count_weight m o
  pub count_falls : (m : Address) → c.open_count m ≤ b.open_count m
  pub quote_follows :
      (m : Address)
      → b.escrow_quote m + quote_weight m o ≤ c.escrow_quote m + quote_weight m (b.orders id)
  pub quote_falls : (m : Address) → c.escrow_quote m ≤ b.escrow_quote m
  pub base_follows :
      (m t : Address)
      → c.escrow_base m t + base_weight m t (b.orders id) ≡ b.escrow_base m t + base_weight m t o
  pub base_falls : (m t : Address) → c.escrow_base m t ≤ b.escrow_base m t

module _ (id : ℕ) (o : Order) (b c : Book) (r : Replaced id o b c) (pos : 0 < id)
    (le : id ≤ b.next_id) where
  sum-replaced :
      (weight : Order → ℕ) → sum_of weight c + weight (b.orders id) ≡ sum_of weight b + weight o
  unfolding sum_of write_order
  sum-replaced weight = rw (r.same_ids, r.replaced) (sum-write weight id o b pos le)

  order-at :
      (P : Order → Type 0)
      → P o
      → ((i : ℕ) → 0 < i → i ≤ b.next_id → P (b.orders i))
      → (i : ℕ) → 0 < i
      → i ≤ c.next_id
      → P (c.orders i)
  unfolding set_order
  order-at P here there i p q = elim (Bool-cases (id == i)) [
    | inl e ↦ rw (r.replaced, e) here
    | inr e ↦ rw (r.replaced, e) (there i p (omega (arith, r.same_ids)))
  ]

  pub replaced-Covered : Covered b → Covered c
  replaced-Covered k = record {
    ids_fit = omega (arith, r.same_ids, k.ids_fit);
    priced = order-at (λ p. p.price ≢ 0) (rw r.same_price (k.priced id pos le)) k.priced;
    amounts_fit =
        order-at (λ p. p.base_open < 2 ^ 256) (omega (arith, r.less_open, k.amounts_fit id pos le))
          k.amounts_fit;
    counted = λ m. omega (arith, k.counted m, r.count_follows m, sum-replaced (count_weight m));
    limited = λ m. omega (arith, k.limited m, r.count_falls m);
    quote_covered =
        λ m. omega (arith, k.quote_covered m, r.quote_follows m, sum-replaced (quote_weight m));
    quote_fits = λ m. omega (arith, k.quote_fits m, r.quote_falls m);
    base_covered = λ m t.
        omega (arith, k.base_covered m t, r.base_follows m t, sum-replaced (base_weight m t));
    base_fits = λ m t. omega (arith, k.base_fits m t, r.base_falls m t);
  }

-- A new order under the next id.
pub record Added (o : Order) (b c : Book) : Type 0 where
  pub next : c.next_id ≡ suc b.next_id
  pub added : c.orders ≡ set_order b.orders (suc b.next_id) o
  pub has_price : o.price ≢ 0
  pub amount_fits : o.base_open < 2 ^ 256
  pub ids_left : suc b.next_id < 2 ^ 64
  pub count_grows : (m : Address) → c.open_count m ≡ b.open_count m + count_weight m o
  pub count_left : (m : Address) → c.open_count m ≤ max_open_per_maker
  pub quote_grows : (m : Address) → c.escrow_quote m ≡ b.escrow_quote m + quote_weight m o
  pub quote_left : (m : Address) → c.escrow_quote m < 2 ^ 256
  pub base_grows : (m t : Address) → c.escrow_base m t ≡ b.escrow_base m t + base_weight m t o
  pub base_left : (m t : Address) → c.escrow_base m t < 2 ^ 256

module _ (o : Order) (b c : Book) (a : Added o b c) where
  sum-added : (weight : Order → ℕ) → sum_of weight c ≡ sum_of weight b + weight o
  unfolding sum_of
  sum-added weight = rw (a.next, a.added) (sum-new weight (suc b.next_id) o b refl)

  added-at :
      (P : Order → Type 0)
      → P o
      → ((i : ℕ) → 0 < i → i ≤ b.next_id → P (b.orders i))
      → (i : ℕ) → 0 < i
      → i ≤ c.next_id
      → P (c.orders i)
  unfolding set_order
  added-at P here there i p q = elim (Bool-cases (suc b.next_id == i)) [
    | inl e ↦ rw (a.added, e) here
    | inr e ↦
        let other : suc b.next_id ≢ i = ground arith in
        rw (a.added, e) (there i p (omega (arith, a.next)))
  ]

  pub added-Covered : Covered b → Covered c
  added-Covered k = record {
    ids_fit = omega (arith, a.next, a.ids_left);
    priced = added-at (λ p. p.price ≢ 0) a.has_price k.priced;
    amounts_fit = added-at (λ p. p.base_open < 2 ^ 256) a.amount_fits k.amounts_fit;
    counted = λ m. omega (arith, k.counted m, a.count_grows m, sum-added (count_weight m));
    limited = a.count_left;
    quote_covered =
        λ m. omega (arith, k.quote_covered m, a.quote_grows m, sum-added (quote_weight m));
    quote_fits = a.quote_left;
    base_covered =
        λ m t. omega (arith, k.base_covered m t, a.base_grows m t, sum-added (base_weight m t));
    base_fits = a.base_left;
  }
