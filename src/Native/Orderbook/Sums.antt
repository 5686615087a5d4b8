-- ===== src/Native/Orderbook/Sums.antt =====
-- core/native/orderbook.go: sums over the orders of the book, and what one written order does to
-- them.
use dew.Base.{
  ℕ, zero, suc, ◌+◌, ◌≤◌, ◌<◌, ◌≡◌, ◌≢◌, refl, subst, true, false, ap, ◌==◌, Bool-cases, arith, inl,
  inr,
}
use dew.Native.Orderbook.{Order, Book, set_order, write_order}

-- f 1 + … + f n
unfoldable pub sum : ℕ → (ℕ → ℕ) → ℕ
sum zero f = 0
sum (suc n) f = f (suc n) + sum n f

-- The sum of a weight over the orders with an id.
unfoldable pub sum_of : (Order → ℕ) → Book → ℕ
sum_of weight b = sum b.next_id (λ i. weight (b.orders i))

pub sum_congr : (f g : ℕ → ℕ) (n : ℕ) → ((i : ℕ) → i ≤ n → f i ≡ g i) → sum n f ≡ sum n g
unfolding sum
sum_congr f g zero same = refl
sum_congr f g (suc n) same =
    omega (arith, same (suc n) (omega arith), sum_congr f g n λ i h. same i (omega arith))

pub term-le-sum : (f : ℕ → ℕ) (k n : ℕ) → 0 < k → k ≤ n → f k ≤ sum n f
unfolding sum
term-le-sum f k zero pos le = absurd (omega arith)
term-le-sum f k (suc n) pos le = elim (Bool-cases (k == suc n)) [
  | inl e ↦ let same : k ≡ suc n = ground arith in rw same (omega arith)
  | inr e ↦ let below : k ≤ n = ground arith in omega (arith, term-le-sum f k n pos below)
]

-- One term changes.
pub sum-update :
    (f g : ℕ → ℕ) (k n : ℕ)
    → 0 < k
    → k ≤ n
    → ((i : ℕ) → i ≢ k → f i ≡ g i)
    → sum n g + f k ≡ sum n f + g k
unfolding sum
sum-update f g k zero pos le same = absurd (omega arith)
sum-update f g k (suc n) pos le same = elim (Bool-cases (k == suc n)) [
  | inl e ↦
      let here : k ≡ suc n = ground arith in
      let below : sum n f ≡ sum n g = sum_congr f g n (λ i h. same i (omega arith)) in
      rw (here, below) (omega arith)
  | inr e ↦
      let below : k ≤ n = ground arith in
      omega (arith, sum-update f g k n pos below same, same (suc n) (omega arith))
]

module _ (weight : Order → ℕ) (id : ℕ) (o : Order) (b : Book) where
  set_order-here : set_order b.orders id o id ≡ o
  unfolding set_order
  set_order-here = let e : (id == id) ≡ true = ground arith in rw e refl

  set_order-other : (i : ℕ) → i ≢ id → set_order b.orders id o i ≡ b.orders i
  unfolding set_order
  set_order-other i other = let e : (id == i) ≡ false = ground arith in rw e refl

  pub sum-write :
      0 < id
      → id ≤ b.next_id
      → sum_of weight (write_order id o b) + weight (b.orders id) ≡ sum_of weight b + weight o
  unfolding sum_of write_order
  sum-write pos le =
      let updated =
        sum-update (λ i. weight (b.orders i)) (λ i. weight (set_order b.orders id o i)) id b.next_id
          pos le (λ i other. rw (set_order-other i other) refl) in
      rw (ap weight set_order-here) at updated

  -- A new order, under the next id.
  pub sum-new :
      id ≡ suc b.next_id
      → sum (suc b.next_id) (λ i. weight (set_order b.orders id o i)) ≡ sum_of weight b + weight o
  unfolding sum_of sum
  sum-new next = omega (
    arith,
    sum_congr (λ i. weight (set_order b.orders id o i)) (λ i. weight (b.orders i)) b.next_id
        λ i h. ap weight (set_order-other i (omega arith)),
    ap weight (subst (λ k. set_order b.orders id o k ≡ o) next set_order-here),
  )
