-- ===== src/Native/Orderbook/Listing.antt =====
-- core/native/orderbook.go: what each call does to the open index.
use dew.Base.{
  ℕ, ◌-◌, ◌^◌, ◌≤◌, ◌<◌, ◌≡◌, ◌≢◌, refl, ap, ◌∙◌, ◌&&◌, false, ◌==◌, Bool-cases, arith, inl, inr,
  if◌then◌else◌, some, u64, sym, subst, u64_of_lt, if_rule,
}
use mathlib.Core.Path.{fun_ext}
use dew.Consensus.ValidatorSet.{Address}
use dew.Native.Staking.{set_pair}
use dew.Native.Orderbook.{
  Order, Book, set_order, set_at, order_status_open, find_open, swap_remove, remove_open_index,
  dec_open_count,
}
use dew.Native.Orderbook.Covered.{Covered}
use dew.Native.Orderbook.Index.{
  Rests, Listed, find_open-cases, listed-written, listed-removed, removed,
}

pub record Indexed (b : Book) : Type 0 where
  pub listed : (t s : ℕ) → Listed t s b.next_id b.orders (b.open_len t s) (b.open_at t s)
  pub lens_fit : (t s : ℕ) → b.open_len t s < 2 ^ 64

-- The index of the second book is that of the first.
pub record SameIndex (b c : Book) : Type 0 where
  pub same_len : c.open_len ≡ b.open_len
  pub same_at : c.open_at ≡ b.open_at

pub dec_open_count-SameIndex : (m : Address) (b : Book) → SameIndex b (dec_open_count m b)
unfolding dec_open_count
dec_open_count-SameIndex m b =
    if_rule (SameIndex b) (u64 (b.open_count m) == 0) (λ _. same) (λ _. same)
  where
    same : {f : ℕ → ℕ} → SameIndex b (record b { open_count = f })
    same = record { same_len = refl; same_at = refl }

module _ (b : Book) (k : Covered b) (x : Indexed b) (id : ℕ) (pos : 0 < id)
    (le : id ≤ b.next_id) where
  abbrev o : Order
  o = b.orders id

  -- The written order rests where the old one did.
  pub written-Indexed :
      (p : Order) (c : Book)
      → p.status ≡ o.status
      → p.base_token ≡ o.base_token
      → p.side ≡ o.side
      → c.next_id ≡ b.next_id
      → c.orders ≡ set_order b.orders id p
      → SameIndex b c
      → Indexed c
  written-Indexed p c status token side ids orders i = record {
    listed = λ t s.
        rw (ids, orders, i.same_len, i.same_at)
          (listed-written t s b.next_id b.orders (b.open_len t s) (b.open_at t s) (x.listed t s) id
            p
            (λ r. record {
              is_open = sym status ∙ r.is_open;
              same_token = sym token ∙ r.same_token;
              same_side = sym side ∙ r.same_side;
            })
            λ r. record {
              is_open = status ∙ r.is_open;
              same_token = token ∙ r.same_token;
              same_side = side ∙ r.same_side;
            });
    lens_fit = λ t s. rw i.same_len (x.lens_fit t s);
  }

  module _ (is_open : o.status ≡ order_status_open) where
    abbrev t0 : ℕ
    t0 = o.base_token

    abbrev s0 : ℕ
    s0 = o.side

    abbrev n0 : ℕ
    n0 = b.open_len t0 s0

    -- The loop finds the order.
    pub remove-swap :
        (c : Book)
        → SameIndex b c
        → (i : ℕ) × (i < n0)
          × (b.open_at t0 s0 i ≡ id)
          × (remove_open_index t0 s0 id c ≡ swap_remove t0 s0 n0 i c)
    unfolding remove_open_index
    remove-swap c same =
        let l = x.listed t0 s0 in
        let (j, below, holds) =
          l.all id pos le record { is_open = is_open; same_token = refl; same_side = refl } in
        let len : u64 n0 ≡ n0 = u64_of_lt n0 (x.lens_fit t0 s0) in
        elim (find_open-cases n0 (b.open_at t0 s0) id 0) [
          | inl (_, missing) ↦ absurd (
              missing j (omega arith) (omega arith)
                (ap u64 holds ∙ u64_of_lt id (omega (arith, k.ids_fit))))
          | inr (i, found, inside, here) ↦
              let given = l.given i (omega arith) in
              let low : u64 (b.open_at t0 s0 i) ≡ b.open_at t0 s0 i =
                u64_of_lt (b.open_at t0 s0 i) (omega (arith, given.1, k.ids_fit)) in
              let count : u64 (c.open_len t0 s0) ≡ n0 =
                ap (λ f. u64 (f t0 s0)) same.same_len ∙ len in
              let hit : find_open n0 (c.open_at t0 s0) id 0 ≡ some i =
                ap (λ f. find_open n0 (f t0 s0) id 0) same.same_at ∙ found in
              (i, omega arith, sym low ∙ here, rw (count, hit, remove_open_index, count) refl)
        ]

    module _ (i : ℕ) (inside : i < n0) (here : b.open_at t0 s0 i ≡ id) where
      abbrev after_len : ℕ → ℕ → ℕ
      after_len = (swap_remove t0 s0 n0 i b).open_len

      abbrev after_at : ℕ → ℕ → ℕ → ℕ
      after_at = (swap_remove t0 s0 n0 i b).open_at

      swap_remove-here :
          (after_len t0 s0 ≡ n0 - 1)
          × (after_at t0 s0
              ≡ removed t0 s0 b.next_id b.orders n0 (b.open_at t0 s0) (x.listed t0 s0) id o i)
      unfolding swap_remove set_pair set_at
      swap_remove-here = (ground arith, fun_ext λ j. ground arith)

      swap_remove-other :
          (t s : ℕ)
          → (t0 == t && s0 == s) ≡ false
          → (after_len t s ≡ b.open_len t s) × (after_at t s ≡ b.open_at t s)
      unfolding swap_remove set_pair set_at
      swap_remove-other t s e = (ground arith, fun_ext λ j. ground arith)

      after_len-le : (t s : ℕ) → after_len t s ≤ b.open_len t s
      unfolding swap_remove set_pair
      after_len-le t s = ground arith

      -- The order is closed and leaves its index, and no other index changes.
      module _ (p : Order) (closed : p.status ≢ order_status_open) where
        abbrev ListedAfter : ℕ → ℕ → Type 0
        ListedAfter t s =
            Listed t s b.next_id (set_order b.orders id p) (after_len t s) (after_at t s)

        after-Listed : (t s : ℕ) → ListedAfter t s
        after-Listed t s = elim (Bool-cases (t0 == t && s0 == s)) [
          | inl e ↦
              let token : t0 ≡ t = ground arith in
              let side : s0 ≡ s = ground arith in
              let at_home : ListedAfter t0 s0 =
                rw (swap_remove-here.0, swap_remove-here.1)
                  (listed-removed t0 s0 b.next_id b.orders n0 (b.open_at t0 s0) (x.listed t0 s0) id
                    p i inside here closed) in
              subst (λ t. ListedAfter t s) token (subst (λ s. ListedAfter t0 s) side at_home)
          | inr e ↦
              let away : Rests t s o → ⊥ = λ r. ground (arith, r.same_token, r.same_side) in
              rw ((swap_remove-other t s e).0, (swap_remove-other t s e).1)
                (listed-written t s b.next_id b.orders (b.open_len t s) (b.open_at t s)
                  (x.listed t s) id p (λ r. absurd (closed r.is_open)) λ r. absurd (away r))
        ]

      pub removed-Indexed :
          (p : Order) (c : Book)
          → p.status ≢ order_status_open
          → c.next_id ≡ b.next_id
          → c.orders ≡ set_order b.orders id p
          → c.open_len ≡ after_len
          → c.open_at ≡ after_at
          → Indexed c
      removed-Indexed p c closed ids orders len slots = record {
        listed = λ t s. rw (ids, orders, len, slots) (after-Listed p closed t s);
        lens_fit = λ t s. rw len (omega (arith, after_len-le t s, x.lens_fit t s));
      }

    -- Closing the order: the loop finds it, and it leaves the index.
    pub closed-Indexed :
        (p : Order) (c d : Book)
        → SameIndex b c
        → p.status ≢ order_status_open
        → d.next_id ≡ b.next_id
        → d.orders ≡ set_order b.orders id p
        → d.open_len ≡ (remove_open_index t0 s0 id c).open_len
        → d.open_at ≡ (remove_open_index t0 s0 id c).open_at
        → Indexed d
    unfolding swap_remove
    closed-Indexed p c d same closed ids orders len slots =
        let (i, inside, here, swaps) = remove-swap c same in
        removed-Indexed i inside here p d closed ids orders
          (len
            ∙ ap (λ (b : Book). b.open_len) swaps
            ∙ ap (λ f. set_pair f t0 s0 (n0 - 1)) same.same_len)
          (slots
            ∙ ap (λ (b : Book). b.open_at) swaps
            ∙ ap
                (λ f.
                  set_at (if i == n0 - 1 then f else set_at f t0 s0 i (f t0 s0 (n0 - 1))) t0 s0
                    (n0 - 1) 0)
                same.same_at)
