-- ===== src/Native/Orderbook/Accepting.antt =====
-- core/native/orderbook.go: the checks of the four calls, and what a failed call leaves.
use dew.Base.{
  ℕ, ◌+◌, ◌-◌, ◌≤◌, ◌<◌, ◌≡◌, ◌≢◌, refl, ap, false, ◌==◌, leb, ltb, Bool-cases, ◌⊎◌, arith, inl,
  inr, none, some, u64, u64_of_lt,
}
use mathlib.Core.Path.{fun_ext}
use dew.Consensus.ValidatorSet.{Address}
use dew.Native.Staking.{set}
use dew.Native.Orderbook.{
  Book, BookError, max_open_per_maker, inc_open_count, dec_open_count, get_order, zero_maker,
  zero_price, zero_base_amount, max_open_orders,
}
use dew.Native.Orderbook.Calls.{validate_place}
use dew.Native.Orderbook.Covered.{Covered}

set-here : (f : ℕ → ℕ) (a v : ℕ) → set f a v a ≡ v
unfolding set
set-here f a v = ground arith

module _ (b : Book) (k : Covered b) where
  pub get_order-some : (id : ℕ) → 0 < id → id ≤ b.next_id → get_order id b ≡ some (b.orders id)
  unfolding get_order u64
  get_order-some id pos le = ground (arith, k.ids_fit, k.priced id pos le)

  -- An id that is found is one that was given out.
  pub get_order-cases :
      (id : ℕ)
      → (get_order id b ≡ none)
        ⊎ ((0 < id) × (id ≤ b.next_id) × (get_order id b ≡ some (b.orders id)))
  unfolding get_order u64
  get_order-cases id = elim (Bool-cases (id == 0)) [
    | inl e ↦ inl (ground arith)
    | inr e ↦ elim (Bool-cases (ltb b.next_id id)) [
      | inl f ↦ inl (ground (arith, k.ids_fit))
      | inr f ↦
          let pos : 0 < id = ground arith in
          let le : id ≤ b.next_id = ground arith in inr (pos, le, get_order-some id pos le)
    ]
  ]

  set-back : (m n : ℕ) → b.open_count m ≡ n → set (set b.open_count m (n + 1)) m n ≡ b.open_count
  unfolding set
  set-back m n same =
      fun_ext λ a. elim (Bool-cases (m == a)) [ inl e ↦ ground arith | inr e ↦ ground arith ]

  module _ (maker : Address) (room : b.open_count maker < max_open_per_maker) where
    inc_open_count-one :
        inc_open_count maker b
        ≡ (record b { open_count = set b.open_count maker (b.open_count maker + 1) }, none)
    unfolding inc_open_count
    inc_open_count-one =
        let count : u64 (b.open_count maker) ≡ b.open_count maker = u64_of_lt _ (omega arith) in
        let next : u64 (b.open_count maker + 1) ≡ b.open_count maker + 1 =
          u64_of_lt _ (omega arith) in
        let test : leb max_open_per_maker (b.open_count maker) ≡ false = ground arith in
        rw (inc_open_count, count, next, test) refl

    -- The count that a refused order took is given back.
    pub dec_open_count-inc_open_count : dec_open_count maker (inc_open_count maker b).0 ≡ b
    unfolding dec_open_count
    dec_open_count-inc_open_count =
        let next : u64 (b.open_count maker + 1) ≡ b.open_count maker + 1 =
          u64_of_lt _ (omega arith) in
        let here : set b.open_count maker (b.open_count maker + 1) maker ≡ b.open_count maker + 1 =
          set-here b.open_count maker (b.open_count maker + 1) in
        let test : (b.open_count maker + 1 == 0) ≡ false = ground arith in
        let less : (b.open_count maker + 1) - 1 ≡ b.open_count maker = omega arith in
        rw (inc_open_count-one, dec_open_count, here, next, test, less)
          (ap (λ f. record b { open_count = f }) (set-back maker (b.open_count maker) refl))

  pub record Valid (maker price base : ℕ) : Type 0 where
    pub has_maker : maker ≢ 0
    pub has_price : price ≢ 0
    pub has_base : base ≢ 0
    pub room : b.open_count maker < max_open_per_maker

  pub validate_place-cases :
      (maker price base : ℕ)
      → ((e : BookError) × (validate_place maker price base b ≡ (b, some e)))
        ⊎ (Valid maker price base
            × (validate_place maker price base b ≡ ((inc_open_count maker b).0, none)))
  unfolding validate_place inc_open_count
  validate_place-cases maker price base = elim (Bool-cases (maker == 0)) [
    | inl e ↦ inl (zero_maker, rw (e, validate_place) refl)
    | inr e ↦ elim (Bool-cases (price == 0)) [
      | inl f ↦ inl (zero_price, rw (e, f, validate_place) refl)
      | inr f ↦ elim (Bool-cases (base == 0)) [
        | inl g ↦ inl (zero_base_amount, rw (e, f, g, validate_place) refl)
        | inr g ↦ elim (Bool-cases (leb max_open_per_maker (u64 (b.open_count maker)))) [
          | inl h ↦ inl (max_open_orders, rw (e, f, g, h, validate_place, inc_open_count) refl)
          | inr h ↦ inr (
            record {
              has_maker = ground arith;
              has_price = ground arith;
              has_base = ground arith;
              room = ground (arith, h, k.limited maker, u64_of_lt (b.open_count maker));
            },
            rw (e, f, g, h, validate_place, inc_open_count) refl,
          )
        ]
      ]
    ]
  ]
