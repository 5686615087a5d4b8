-- ===== src/Native/Orderbook/Makers.antt =====
-- core/native/orderbook.go: the calls bring no maker into the book but the one that places an order.
use dew.Base.{
  arith, ℕ, ◌≡◌, refl, ◌∙◌, subst, Bool-cases, not, ◌==◌, Option-cases, some, inl, inr, Result,
  if_rule,
}
use dew.Consensus.ValidatorSet.{Address}
use dew.Native.Staking.{sub256}
use dew.Native.Orderbook.{
  Book, BookError, Order, Refund, order_side_buy, order_side_sell, order_status_open,
  order_status_filled, quote_floor, quote_lock_ceil, get_order, set_order, next_order_id,
  write_order, inc_open_count, dec_open_count, add_escrow_q, sub_escrow_q, add_escrow_b,
  sub_escrow_b, add_open_index,
}
use dew.Native.Orderbook.Calls.{
  validate_place, new_order, record_buy, place_buy, record_sell, place_sell, close, cancelled,
  release, cancel_order, cancel, settle, update_filled, filled_base, fill_order, fill,
}
use dew.Native.Orderbook.Closing.{close-Closed}
use dew.Native.Orderbook.Quotes.{get_order-same}

module _ (P : Address → Type 0) where
  -- Each order's maker has the property, that of a blank order included.
  abbrev pub Makers : Book → Type 0
  Makers b = (id : ℕ) → P (b.orders id).maker

  Makers-congr : (b c : Book) → c.orders ≡ b.orders → Makers b → Makers c
  Makers-congr b c same all id = rw same (all id)

  -- One order is written over the orders of the book.
  Makers-set_order :
      (id : ℕ) (o : Order) (b c d : Book)
      → c.orders ≡ b.orders
      → d.orders ≡ set_order c.orders id o
      → P o.maker
      → Makers b
      → Makers d
  unfolding set_order
  Makers-set_order id o b c d same set here all i = elim (Bool-cases (id == i)) [
    | inl e ↦ rw (set, e) here
    | inr e ↦ rw (set, e, same) (all i)
  ]

  validate_place-orders :
      (maker : Address) (price base : ℕ) (b : Book)
      → (validate_place maker price base b).0.orders ≡ b.orders
  unfolding validate_place inc_open_count
  validate_place-orders maker price base b = ground arith

  dec_open_count-orders : (maker : Address) (b : Book) → (dec_open_count maker b).orders ≡ b.orders
  unfolding dec_open_count
  dec_open_count-orders maker b = ground arith

  module _ (maker : Address) (here : P maker) (b : Book) (all : Makers b) where
    pub Makers-place_buy :
        (token : Address) (price base now : ℕ) → Makers (place_buy maker token price base now b).0
    unfolding place_buy record_buy add_open_index add_escrow_q next_order_id new_order write_order
    Makers-place_buy token price base now =
        let checked = validate_place maker price base b in
        let kept = validate_place-orders maker price base b in
        elim (Option-cases checked.1) [
          | inl passed ↦
              rw (place_buy, passed)
                (if_rule (λ (r : Book × Result BookError (ℕ × ℕ)). Makers r.0) (token == 0)
                  (λ _.
                    Makers-congr b (dec_open_count maker checked.0)
                      (dec_open_count-orders maker checked.0 ∙ kept) all)
                  λ _.
                    if_rule (λ (r : Book × Result BookError (ℕ × ℕ)). Makers r.0)
                      (quote_lock_ceil base price == 0)
                      (λ _.
                        Makers-congr b (dec_open_count maker checked.0)
                          (dec_open_count-orders maker checked.0 ∙ kept) all)
                      λ _.
                        Makers-set_order (next_order_id checked.0).1
                          (new_order maker token order_side_buy price base now) b checked.0
                          (record_buy maker token price base now (quote_lock_ceil base price)
                            checked.0).0
                          kept refl here all)
          | inr (e, refused) ↦ rw (place_buy, refused) (Makers-congr b checked.0 kept all)
        ]

    pub Makers-place_sell :
        (token : Address) (price base now : ℕ) → Makers (place_sell maker token price base now b).0
    unfolding place_sell record_sell add_open_index add_escrow_b next_order_id new_order write_order
    Makers-place_sell token price base now =
        let checked = validate_place maker price base b in
        let kept = validate_place-orders maker price base b in
        elim (Option-cases checked.1) [
          | inl passed ↦
              rw (place_sell, passed)
                (if_rule (λ (r : Book × Result BookError ℕ). Makers r.0) (token == 0)
                  (λ _.
                    Makers-congr b (dec_open_count maker checked.0)
                      (dec_open_count-orders maker checked.0 ∙ kept) all)
                  λ _.
                    Makers-set_order (next_order_id checked.0).1
                      (new_order maker token order_side_sell price base now) b checked.0
                      (record_sell maker token price base now checked.0).0 kept refl here all)
          | inr (e, refused) ↦ rw (place_sell, refused) (Makers-congr b checked.0 kept all)
        ]

  close-orders : (id : ℕ) (o : Order) (b : Book) → (close id o b).orders ≡ b.orders
  close-orders id o b = (close-Closed id o b).same_orders

  release-orders : (o : Order) (b : Book) → (release o b).0.0.orders ≡ b.orders
  unfolding release sub_escrow_q sub_escrow_b
  release-orders o b = ground arith

  settle-orders :
      (o : Order) (filled paid : ℕ) (b : Book) → (settle o filled paid b).0.orders ≡ b.orders
  unfolding settle sub_escrow_q sub_escrow_b
  settle-orders o filled paid b = ground arith

  module _ (b : Book) (all : Makers b) where
    found-maker : (id : ℕ) (o : Order) → get_order id b ≡ some o → P o.maker
    found-maker id o found = subst (λ (x : Order). P x.maker) (get_order-same id o b found) (all id)

    Makers-cancel_order :
        (actor : Address) (id : ℕ) (o : Order) → P o.maker → Makers (cancel_order actor id o b).0
    unfolding cancel_order write_order
    Makers-cancel_order actor id o here =
        if_rule (λ (r : Book × Result BookError Refund). Makers r.0)
          (not (o.status == order_status_open)) (λ _. all)
          λ _.
            if_rule (λ (r : Book × Result BookError Refund). Makers r.0) (not (o.maker == actor))
              (λ _. all)
              λ _. elim (Option-cases (release o b).0.1) [
                | inl done ↦ rw done (
                    let written = write_order id (cancelled o) (release o b).0.0 in
                    Makers-congr written (close id o written) (close-orders id o written) (
                      Makers-set_order id (cancelled o) b (release o b).0.0 written
                        (release-orders o b) refl here all))
                | inr (e, short) ↦
                    rw short (Makers-congr b (release o b).0.0 (release-orders o b) all)
              ]

    pub Makers-cancel : (actor : Address) (id : ℕ) → Makers (cancel actor id b).0
    unfolding cancel
    Makers-cancel actor id = elim (Option-cases (get_order id b)) [
      | inl missing ↦ rw (cancel, missing) all
      | inr (o, found) ↦
          rw (cancel, found) (Makers-cancel_order actor id o (found-maker id o found))
    ]

    Makers-update_filled :
        (id : ℕ) (o : Order) (remaining : ℕ) (c : Book)
        → c.orders ≡ b.orders
        → P o.maker
        → Makers (update_filled id o remaining c)
    unfolding update_filled write_order
    Makers-update_filled id o remaining c same here =
        if_rule Makers (remaining == 0)
          (λ _.
            let gone : Order = record o { status = order_status_filled; base_open = remaining } in
            Makers-set_order id gone b (close id o c) (write_order id gone (close id o c))
              (close-orders id o c ∙ same) refl here all)
          λ _.
            let left : Order = record o { base_open = remaining } in
            Makers-set_order id left b c (write_order id left c) same refl here all

    pub Makers-fill : (taker : Address) (id max_base : ℕ) → Makers (fill taker id max_base b).0
    unfolding fill fill_order
    Makers-fill taker id max_base =
        if_rule (λ (r : Book × Result BookError (ℕ × ℕ)). Makers r.0) (taker == 0) (λ _. all)
          λ _.
            if_rule (λ (r : Book × Result BookError (ℕ × ℕ)). Makers r.0) (max_base == 0) (λ _. all)
              λ _. elim (Option-cases (get_order id b)) [
                | inl missing ↦ rw missing all
                | inr (o, found) ↦ rw found (filled o (found-maker id o found))
              ]
      where
        filled : (o : Order) → P o.maker → Makers (fill_order id o max_base b).0
        filled o here =
            let base = filled_base o max_base in
            let paid = quote_floor base o.price in
            if_rule (λ (r : Book × Result BookError (ℕ × ℕ)). Makers r.0)
              (not (o.status == order_status_open)) (λ _. all)
              λ _. elim (Option-cases (settle o base paid b).1) [
                | inl done ↦ rw done (
                    Makers-update_filled id o (sub256 o.base_open base) (settle o base paid b).0
                      (settle-orders o base paid b) here)
                | inr (e, short) ↦
                    rw short
                      (Makers-congr b (settle o base paid b).0 (settle-orders o base paid b) all)
              ]
