-- ===== src/Native/Orderbook/Joining.antt =====
-- core/native/orderbook.go: a new order joins the open index.
use dew.Base.{
  ℕ, suc, ◌+◌, ◌^◌, ◌<◌, ◌≡◌, refl, ◌&&◌, false, ◌==◌, Bool-cases, arith, inl, inr, u64, subst,
}
use mathlib.Core.Path.{fun_ext}
use dew.Native.Staking.{set_pair}
use dew.Native.Orderbook.{Order, Book, set_order, set_at, order_status_open, add_open_index}
use dew.Native.Orderbook.Index.{Rests, Listed, listed-added, listed-passed, added}
use dew.Native.Orderbook.Listing.{Indexed, SameIndex}

-- A new order joins the index of its token and side.
module _ (b : Book) (x : Indexed b) (p : Order) (is_open : p.status ≡ order_status_open)
    (room : suc (b.open_len p.base_token p.side) < 2 ^ 64) where
  abbrev id : ℕ
  id = suc b.next_id

  abbrev t0 : ℕ
  t0 = p.base_token

  abbrev s0 : ℕ
  s0 = p.side

  abbrev n0 : ℕ
  n0 = b.open_len t0 s0

  module _ (c : Book) (same : SameIndex b c) where
    abbrev joined : Book
    joined = add_open_index t0 s0 id c

    joined-here :
        (joined.open_len t0 s0 ≡ n0 + 1)
        × (joined.open_at t0 s0
            ≡ added t0 s0 b.next_id b.orders n0 (b.open_at t0 s0) (x.listed t0 s0) id p)
    unfolding add_open_index set_pair set_at u64
    joined-here = rw (same.same_len, same.same_at) (ground arith, fun_ext λ j. ground arith)

    joined-other :
        (t s : ℕ)
        → (t0 == t && s0 == s) ≡ false
        → (joined.open_len t s ≡ b.open_len t s) × (joined.open_at t s ≡ b.open_at t s)
    unfolding add_open_index set_pair set_at
    joined-other t s e = rw (same.same_len, same.same_at) (ground arith, fun_ext λ j. ground arith)

    joined-lens : (t s : ℕ) → joined.open_len t s < 2 ^ 64
    unfolding add_open_index set_pair u64
    joined-lens t s = rw same.same_len (ground (arith, x.lens_fit t s))

    abbrev ListedJoined : ℕ → ℕ → Type 0
    ListedJoined t s =
        Listed t s id (set_order b.orders id p) (joined.open_len t s) (joined.open_at t s)

    joined-Listed : (t s : ℕ) → ListedJoined t s
    joined-Listed t s = elim (Bool-cases (t0 == t && s0 == s)) [
      | inl e ↦
          let token : t0 ≡ t = ground arith in
          let side : s0 ≡ s = ground arith in
          let at_home : ListedJoined t0 s0 =
            rw (joined-here.0, joined-here.1)
              (listed-added t0 s0 b.next_id b.orders n0 (b.open_at t0 s0) (x.listed t0 s0) id p refl
                record { is_open = is_open; same_token = refl; same_side = refl }) in
          subst (λ t. ListedJoined t s) token (subst (λ s. ListedJoined t0 s) side at_home)
      | inr e ↦
          let away : Rests t s p → ⊥ = λ r. ground (arith, r.same_token, r.same_side) in
          rw ((joined-other t s e).0, (joined-other t s e).1)
            (listed-passed t s b.next_id b.orders (b.open_len t s) (b.open_at t s) (x.listed t s) id
              p refl away)
    ]

    pub joined-Indexed :
        (d : Book)
        → d.next_id ≡ id
        → d.orders ≡ set_order b.orders id p
        → d.open_len ≡ joined.open_len
        → d.open_at ≡ joined.open_at
        → Indexed d
    joined-Indexed d ids orders len slots = record {
      listed = λ t s. rw (ids, orders, len, slots) (joined-Listed t s);
      lens_fit = λ t s. rw len (joined-lens t s);
    }
