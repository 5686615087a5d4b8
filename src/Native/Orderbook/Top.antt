-- ===== src/Native/Orderbook/Top.antt =====
-- core/native/orderbook.go: BestBid and BestAsk against all open orders.
use dew.Base.{
  ℕ, zero, suc, ◌+◌, ◌≤◌, ◌<◌, ◌≡◌, refl, ap, ◌∙◌, Bool, true, false, ◌==◌, Bool-cases, ◌⊎◌, Option,
  arith, inl, inr, none, some, u64, sym, subst, u64_of_lt,
}
use dew.Consensus.ValidatorSet.{Address}
use dew.Native.Orderbook.{Book, order_status_open, order_side_buy, order_side_sell}
use dew.Native.Orderbook.Best.{is_better, better, pick, best_loop, best, best_bid, best_ask}
use dew.Native.Orderbook.Covered.{Covered}
use dew.Native.Orderbook.Accepting.{get_order-some}
use dew.Native.Orderbook.Index.{Rests}
use dew.Native.Orderbook.Listing.{Indexed}

-- A price and an id come before another: the better price, or the same price and a lower id or the
-- same one.
abbrev pub Before : Bool → ℕ → ℕ → ℕ → ℕ → Type 0
Before true p id q other = (q < p) ⊎ ((q ≡ p) × (id ≤ other))
Before false p id q other = (p < q) ⊎ ((q ≡ p) × (id ≤ other))

Before-refl : (high : Bool) (p id : ℕ) → Before high p id p id
Before-refl true p id = inr (refl, omega arith)
Before-refl false p id = inr (refl, omega arith)

better-Before :
    (high : Bool) (p id q other : ℕ) → is_better high p id q other ≡ true → Before high p id q other
unfolding is_better
better-Before true p id q other h = ground arith
better-Before false p id q other h = ground arith

not_better-Before :
    (high : Bool) (p id q other : ℕ)
    → is_better high p id q other ≡ false
    → Before high q other p id
unfolding is_better
not_better-Before true p id q other h = ground arith
not_better-Before false p id q other h = ground arith

Before-trans :
    (high : Bool) (p i q j r k : ℕ)
    → Before high p i q j
    → Before high q j r k
    → Before high p i r k
Before-trans true p i q j r k f g = ground arith
Before-trans false p i q j r k f g = ground arith

module _ (b : Book) (c : Covered b) (x : Indexed b) (high : Bool) (t s : ℕ) where
  abbrev n : ℕ
  n = b.open_len t s

  abbrev slot : ℕ → ℕ
  slot = b.open_at t s

  abbrev price_at : ℕ → ℕ
  price_at j = (b.orders (slot j)).price

  -- The result of the first `i` rounds.
  abbrev Top : ℕ → Option (ℕ × ℕ) → Type 0
  Top i none = i ≡ 0
  Top i (some (p, id)) =
      ((j : ℕ) × (j < i) × (slot j ≡ id) × (price_at j ≡ p))
      × ((j : ℕ) → j < i → Before high p id (price_at j) (slot j))

  extend :
      (i p id : ℕ)
      → ((j : ℕ) → j < i → Before high p id (price_at j) (slot j))
      → Before high p id (price_at i) (slot i)
      → (j : ℕ) → j < i + 1
      → Before high p id (price_at j) (slot j)
  extend i p id old new j h = elim (Bool-cases (j == i)) [
    | inl e ↦
        let same : j ≡ i = ground arith in
        subst (λ j. Before high p id (price_at j) (slot j)) (sym same) new
    | inr e ↦ old j (ground arith)
  ]

  pick-Top :
      (i : ℕ) (found : Option (ℕ × ℕ))
      → Top i found
      → Top (i + 1) (pick high (price_at i) (slot i) found)
  unfolding pick
  pick-Top i none first = (
    (i, omega arith, refl, refl),
    extend i (price_at i) (slot i) (λ j h. absurd (omega arith))
        (Before-refl high (price_at i) (slot i)),
  )
  pick-Top i (some (p, id)) ((j, below, same, price), all) =
      elim (Bool-cases (is_better high (price_at i) (slot i) p id)) [
        | inl e ↦
            let first = better-Before high (price_at i) (slot i) p id e in
            rw e (
              (i, omega arith, refl, refl),
              extend i (price_at i) (slot i)
                  (λ k h.
                    Before-trans high (price_at i) (slot i) p id (price_at k) (slot k) first
                      (all k h))
                  (Before-refl high (price_at i) (slot i)),
            )
        | inr e ↦ rw e (
          (j, omega arith, same, price),
          extend i p id all (not_better-Before high (price_at i) (slot i) p id e),
        )
      ]

  better-Top :
      (i : ℕ) (found : Option (ℕ × ℕ))
      → i < n
      → Top i found
      → Top (i + 1) (better high b (u64 (slot i)) found)
  unfolding better
  better-Top i found below top =
      let l = x.listed t s in
      let given = l.given i below in
      let low : u64 (slot i) ≡ slot i = u64_of_lt (slot i) (omega (arith, given.1, c.ids_fit)) in
      let is_open : ((b.orders (slot i)).status == order_status_open) ≡ true =
        ground (arith, (l.rests i below).is_open) in
      rw (low, get_order-some b c (slot i) given.0 given.1, better, is_open, low)
        (pick-Top i found top)

  loop-Top :
      (rounds i : ℕ) (found : Option (ℕ × ℕ))
      → i + rounds ≡ n
      → Top i found
      → Top n (best_loop high b slot rounds i found)
  unfolding best_loop
  loop-Top zero i found e top = let same : i ≡ n = omega arith in subst (λ k. Top k found) same top
  loop-Top (suc rounds) i found e top =
      loop-Top rounds (i + 1) _ (omega arith) (better-Top i found (omega arith) top)

  best-Top : Top n (best high t s b)
  unfolding best
  best-Top =
      let len : u64 n ≡ n = u64_of_lt n (x.lens_fit t s) in
      rw len (loop-Top n 0 none (omega arith) refl)

  -- The answer of `best` against the orders themselves.
  abbrev pub Answer : Option (ℕ × ℕ) → Type 0
  Answer none = (id : ℕ) → 0 < id → id ≤ b.next_id → Rests t s (b.orders id) → ⊥
  Answer (some (p, id)) =
      Rests t s (b.orders id)
      × ((b.orders id).price ≡ p)
      × ((other : ℕ)
          → 0 < other
          → other ≤ b.next_id
          → Rests t s (b.orders other)
          → Before high p id (b.orders other).price other)

  Top-Answer : (found : Option (ℕ × ℕ)) → Top n found → Answer found
  Top-Answer none empty =
      λ id pos le r. let (j, below, _) = (x.listed t s).all id pos le r in absurd (omega arith)
  Top-Answer (some (p, id)) ((j, below, same, price), all) = (
    subst (λ k. Rests t s (b.orders k)) same ((x.listed t s).rests j below),
    ap (λ k. (b.orders k).price) (sym same) ∙ price,
    λ other pos le r.
        let (k, under, holds) = (x.listed t s).all other pos le r in
        subst (λ k. Before high p id (b.orders k).price k) holds (all k under),
  )

  pub best-Answer : Answer (best high t s b)
  best-Answer = Top-Answer (best high t s b) best-Top

-- In a book with covered escrow and a right index, `BestBid` finds nothing only if the token has no
-- open buy order. Otherwise it returns the price and the id of an open buy order of the token that
-- comes before all others: any other has a lower price, or the same price and no lower id.
pub best_bid-Answer :
    (b : Book) (c : Covered b) (x : Indexed b) (token : Address)
    → Answer b c x true token order_side_buy (best_bid token b)
unfolding best_bid
best_bid-Answer b c x token = best-Answer b c x true token order_side_buy

-- In such a book `BestAsk` finds nothing only if the token has no open sell order. Otherwise it
-- returns the price and the id of an open sell order of the token, and any other has a higher
-- price, or the same price and no lower id.
pub best_ask-Answer :
    (b : Book) (c : Covered b) (x : Indexed b) (token : Address)
    → Answer b c x false token order_side_sell (best_ask token b)
unfolding best_ask
best_ask-Answer b c x token = best-Answer b c x false token order_side_sell
