-- ===== src/Native/Orderbook/Quotes.antt =====
-- core/native/orderbook.go: what the calls do to the quote in escrow, summed over the makers.
use dew.Base.{
  Option-cases, u64, ℕ, ◌+◌, ◌≤◌, ◌≡◌, refl, Bool-cases, true, ◌==◌, ltb, List, none, some, arith,
  inl, inr, Result, ok, err, if_rule, if◌then◌else◌, u256,
}
use dew.Consensus.ValidatorSet.{Address}
use dew.Native.Staking.{sub256}
use dew.Native.Executor.{is_listed}
use dew.Native.Executor.Supply.{supply, Once, supply-set, balance-le-supply}
use dew.Native.Orderbook.{
  Book, BookError, Order, Refund, order_side_buy, quote_floor, get_order, is_blank, quote_lock_ceil,
  next_order_id, write_order, inc_open_count, add_escrow_q, sub_escrow_q, add_escrow_b,
  add_open_index,
}
use dew.Native.Orderbook.Calls.{validate_place, record_buy, place_buy, record_sell, place_sell}

-- An order that is found is one of the book.
pub get_order-same : (id : ℕ) (o : Order) (b : Book) → get_order id b ≡ some o → b.orders id ≡ o
unfolding get_order
get_order-same id o b found = elim (Bool-cases (id == 0)) [
  | inl is_zero ↦ absurd (missing (rw is_zero at found))
  | inr nonzero ↦ elim (Bool-cases (ltb (u64 b.next_id) id)) [
    | inl later ↦ absurd (missing (rw (nonzero, later) at found))
    | inr earlier ↦ elim (Bool-cases (is_blank (b.orders id))) [
      | inl empty ↦ absurd (missing (rw (nonzero, earlier, empty) at found))
      | inr full ↦
          let same : some (b.orders id) ≡ some o = rw (nonzero, earlier, full) at found in cc
    ]
  ]
]
  where
    missing : none ≡ some o → ⊥
    missing h = cc

module _ (accounts : List Address) (once : Once accounts) where
  abbrev pub quotes : Book → ℕ
  quotes b = supply b.escrow_quote accounts

  quotes-add_escrow_q :
      (maker : Address) (x : ℕ) (b : Book)
      → is_listed maker accounts ≡ true
      → quotes (add_escrow_q maker x b) ≤ quotes b + x
  unfolding add_escrow_q u256
  quotes-add_escrow_q maker x b listed = ground (
    arith,
    supply-set b.escrow_quote maker (u256 (b.escrow_quote maker + x)) accounts once listed,
  )

  pub quotes-sub_escrow_q :
      (maker : Address) (x : ℕ) (b : Book)
      → is_listed maker accounts ≡ true
      → x ≤ b.escrow_quote maker
      → quotes (sub_escrow_q maker x b).0 + x ≤ quotes b
  unfolding sub_escrow_q sub256 u256
  quotes-sub_escrow_q maker x b listed enough = ground (
    arith,
    supply-set b.escrow_quote maker (sub256 (b.escrow_quote maker) x) accounts once listed,
    balance-le-supply b.escrow_quote maker accounts listed,
  )

  -- Quotes that follow the slot's function.
  quotes_congr : (b c : Book) → c.escrow_quote ≡ b.escrow_quote → quotes c ≡ quotes b
  quotes_congr b c same = rw same refl

  -- The quote in escrow grows by no more than the lock of a new order.
  abbrev pub Locked : Book → Book × Result BookError (ℕ × ℕ) → Type 0
  Locked b (c, ok (id, lock)) = quotes c ≤ quotes b + lock
  Locked b (c, err e) = Unit

  abbrev pub Unlocked : Book → Book × Result BookError ℕ → Type 0
  Unlocked b (c, ok id) = quotes c ≤ quotes b
  Unlocked b (c, err e) = Unit

  -- It falls by the refund.
  abbrev pub Refunded : Book → Book × Result BookError Refund → Type 0
  Refunded b (c, ok r) = quotes c + r.quote ≤ quotes b
  Refunded b (c, err e) = Unit

  -- It falls by what a fill of a buy order pays.
  abbrev pub Paid : Order → ℕ → Book → Book × Result BookError (ℕ × ℕ) → Type 0
  Paid o filled b (c, ok (f, paid)) =
      (quotes c + (if o.side == order_side_buy then paid else 0) ≤ quotes b)
      × (f ≡ filled)
      × (paid ≡ quote_floor filled o.price)
  Paid o filled b (c, err e) = Unit

  validate_place-escrow_quote :
      (maker : Address) (price base : ℕ) (b : Book)
      → (validate_place maker price base b).0.escrow_quote ≡ b.escrow_quote
  unfolding validate_place inc_open_count
  validate_place-escrow_quote maker price base b = ground arith

  record_buy-Locked :
      (maker token : Address) (price base now lock : ℕ) (b c : Book)
      → is_listed maker accounts ≡ true
      → c.escrow_quote ≡ b.escrow_quote
      → quotes (record_buy maker token price base now lock c).0 ≤ quotes b + lock
  unfolding record_buy add_open_index next_order_id write_order add_escrow_q
  record_buy-Locked maker token price base now lock b c listed same =
      omega (arith, quotes_congr b c same, quotes-add_escrow_q maker lock c listed)

  pub place_buy-Locked :
      (maker token : Address) (price base now : ℕ) (b : Book)
      → is_listed maker accounts ≡ true
      → Locked b (place_buy maker token price base now b)
  unfolding place_buy
  place_buy-Locked maker token price base now b listed =
      let checked = validate_place maker price base b in
      elim (Option-cases checked.1) [
        | inl passed ↦
            rw (place_buy, passed)
              (if_rule (Locked b) (token == 0) (λ _. tt)
                λ _.
                  if_rule (Locked b) (quote_lock_ceil base price == 0) (λ _. tt)
                    λ _.
                      record_buy-Locked maker token price base now (quote_lock_ceil base price) b
                        checked.0 listed (validate_place-escrow_quote maker price base b))
        | inr (e, refused) ↦ rw (place_buy, refused) tt
      ]

  record_sell-escrow_quote :
      (maker token : Address) (price base now : ℕ) (b : Book)
      → (record_sell maker token price base now b).0.escrow_quote ≡ b.escrow_quote
  unfolding record_sell add_open_index add_escrow_b next_order_id write_order
  record_sell-escrow_quote maker token price base now b = refl

  pub place_sell-Unlocked :
      (maker token : Address) (price base now : ℕ) (b : Book)
      → Unlocked b (place_sell maker token price base now b)
  unfolding place_sell
  place_sell-Unlocked maker token price base now b =
      let checked = validate_place maker price base b in
      elim (Option-cases checked.1) [
        | inl passed ↦
            rw (place_sell, passed)
              (if_rule (Unlocked b) (token == 0) (λ _. tt)
                λ _. rw (record_sell-escrow_quote, validate_place-escrow_quote) (omega arith))
        | inr (e, refused) ↦ rw (place_sell, refused) tt
      ]
