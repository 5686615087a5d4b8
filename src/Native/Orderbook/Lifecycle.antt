-- ===== src/Native/Orderbook/Lifecycle.antt =====
-- core/native/orderbook.go: what the calls may change of an order once it is placed.
use dew.Base.{
  ℕ, suc, ◌≤◌, ◌≡◌, ◌≢◌, refl, ap, ◌∙◌, false, ◌==◌, Bool-cases, arith, inl, inr, sym, subst,
}
use dew.Native.Orderbook.{Order, Book, set_order, order_status_open}
use dew.Native.Orderbook.Calls.{cancelled}
use dew.Native.Orderbook.Covered.{Covered, Replaced, Added}
use dew.Native.Orderbook.Closing.{after_fill}
use dew.Native.Orderbook.Placing.{buy-Added, sell-Added}
use dew.Native.Orderbook.Cancelling.{cancel-Replaced}
use dew.Native.Orderbook.Filling.{fill-Replaced, remaining}
use dew.Native.Orderbook.Solvency.{
  Call, perform, Fits, Reach, start, call, perform-Covered, perform_rule,
}

-- The terms of an order stay, its open amount only falls, and once closed it does not change.
pub record Aged (o p : Order) : Type 0 where
  pub same_maker : p.maker ≡ o.maker
  pub same_token : p.base_token ≡ o.base_token
  pub same_side : p.side ≡ o.side
  pub same_price : p.price ≡ o.price
  pub same_orig : p.base_orig ≡ o.base_orig
  pub same_time : p.created_at ≡ o.created_at
  pub less_open : p.base_open ≤ o.base_open
  pub closed : o.status ≢ order_status_open → p ≡ o

Aged-refl : (o : Order) → Aged o o
Aged-refl o = record {
  same_maker = refl;
  same_token = refl;
  same_side = refl;
  same_price = refl;
  same_orig = refl;
  same_time = refl;
  less_open = omega arith;
  closed = λ _. refl;
}

Aged-trans : (o p q : Order) → Aged o p → Aged p q → Aged o q
Aged-trans o p q a c = record {
  same_maker = c.same_maker ∙ a.same_maker;
  same_token = c.same_token ∙ a.same_token;
  same_side = c.same_side ∙ a.same_side;
  same_price = c.same_price ∙ a.same_price;
  same_orig = c.same_orig ∙ a.same_orig;
  same_time = c.same_time ∙ a.same_time;
  less_open = omega (arith, c.less_open, a.less_open);
  closed =
      λ h. c.closed (λ e. h (ap (λ (o : Order). o.status) (sym (a.closed h)) ∙ e)) ∙ a.closed h;
}

module _ (b : Book) (k : Covered b) (id : ℕ) (le : id ≤ b.next_id) where
  -- The order of the id in the book before and after.
  abbrev Kept : Book → Type 0
  Kept c = Aged (b.orders id) (c.orders id) × (b.next_id ≤ c.next_id)

  Added-Kept : (o : Order) (c : Book) → Added o b c → Kept c
  unfolding set_order
  Added-Kept o c a =
      let other : (suc b.next_id == id) ≡ false = ground arith in
      (rw (a.added, other) (Aged-refl (b.orders id)), omega (arith, a.next))

  Replaced-Kept :
      (at : ℕ) (o : Order) (c : Book) → Replaced at o b c → Aged (b.orders at) o → Kept c
  unfolding set_order
  Replaced-Kept at o c r aged = elim (Bool-cases (at == id)) [
    | inl e ↦
        let same : at ≡ id = ground arith in
        (rw (r.replaced, e) (subst (λ k. Aged (b.orders k) o) same aged), omega (arith, r.same_ids))
    | inr e ↦ (rw (r.replaced, e) (Aged-refl (b.orders id)), omega (arith, r.same_ids))
  ]

  Aged-cancelled : (o : Order) → o.status ≡ order_status_open → Aged o (cancelled o)
  Aged-cancelled o is_open = record {
    same_maker = refl;
    same_token = refl;
    same_side = refl;
    same_price = refl;
    same_orig = refl;
    same_time = refl;
    less_open = omega arith;
    closed = λ h. absurd (h is_open);
  }

  Aged-after_fill :
      (o : Order) (rest : ℕ)
      → o.status ≡ order_status_open
      → rest ≤ o.base_open
      → Aged o (after_fill o rest)
  Aged-after_fill o rest is_open less = record {
    same_maker = refl;
    same_token = refl;
    same_side = refl;
    same_price = refl;
    same_orig = refl;
    same_time = refl;
    less_open = less;
    closed = λ h. absurd (h is_open);
  }

  perform-Kept : (m : Call) → Fits m b → Kept (perform m b).0
  perform-Kept m fits =
      (perform_rule b k Kept (Aged-refl (b.orders id), omega arith)
        (λ maker token price base now priced room fits.
          Added-Kept _ _
            (buy-Added maker token price base now b k priced fits.0 fits.1 room fits.2))
        (λ maker token price base now priced room fits.
          Added-Kept _ _
            (sell-Added maker token price base now b k priced fits.0 fits.1 room fits.2))
        (λ at pos below is_open.
          Replaced-Kept at _ _ (cancel-Replaced at b k pos below is_open)
            (Aged-cancelled (b.orders at) is_open))
        (λ at pos below is_open max_base.
          let r = fill-Replaced at b k pos below is_open max_base in
          Replaced-Kept at _ _ r (
            Aged-after_fill (b.orders at) (remaining at b k pos below is_open max_base) is_open
              r.less_open))
        m fits).0

-- From a book with covered escrow, no sequence of calls that fit changes the maker, token, side,
-- price, original amount or time of an order that was placed, or raises its open amount; and an
-- order that was filled or cancelled does not change at all.
pub reach-Aged :
    (b c : Book) (id : ℕ)
    → Covered b
    → id ≤ b.next_id
    → Reach b c
    → Aged (b.orders id) (c.orders id)
reach-Aged b c id k le r = (kept r).0
  where
    kept : {c : Book} → Reach b c → Kept b k id le c
    kept start = (Aged-refl (b.orders id), omega arith)
    kept (call {c} m r fits) =
        let before = kept r in
        let after = perform-Kept c (perform-Covered b c k r) id (omega (arith, before.1)) m fits in
        (Aged-trans _ _ _ before.0 after.0, omega (arith, before.1, after.1))
