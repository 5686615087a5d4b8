-- ===== src/Native/Orderbook/Index.antt =====
-- core/native/orderbook.go: the open index of one token and side lists exactly its open orders.
use dew.Base.{
  ℕ, zero, suc, ◌+◌, ◌-◌, ◌≤◌, ◌<◌, ◌≡◌, ◌≢◌, refl, ap, ◌∙◌, true, false, ◌==◌, Bool-cases, ◌⊎◌,
  arith, inl, inr, if◌then◌else◌, none, some, u64, sym, subst,
}
use dew.Native.Orderbook.{Order, set_order, order_status_open, find_open}

-- An open order of the token and the side.
pub record Rests (t s : ℕ) (o : Order) : Type 0 where
  pub is_open : o.status ≡ order_status_open
  pub same_token : o.base_token ≡ t
  pub same_side : o.side ≡ s

-- The ids 1 .. next are given out; `slots` holds the index, `n` its length.
pub record Listed (t s next : ℕ) (orders : ℕ → Order) (n : ℕ) (slots : ℕ → ℕ) : Type 0 where
  pub given : (i : ℕ) → i < n → (0 < slots i) × (slots i ≤ next)
  pub rests : (i : ℕ) → i < n → Rests t s (orders (slots i))
  pub once : (i j : ℕ) → i < n → j < n → slots i ≡ slots j → i ≡ j
  pub all :
      (id : ℕ) → 0 < id → id ≤ next → Rests t s (orders id) → (i : ℕ) × (i < n) × (slots i ≡ id)

-- The first index that holds the id.
pub find_open-cases :
    (rounds : ℕ) (slots : ℕ → ℕ) (id i : ℕ)
    → ((find_open rounds slots id i ≡ none)
        × ((j : ℕ) → i ≤ j → j < i + rounds → u64 (slots j) ≢ id))
      ⊎ ((j : ℕ) × (find_open rounds slots id i ≡ some j) × (j < i + rounds) × (u64 (slots j) ≡ id))
unfolding find_open
find_open-cases zero slots id i = inl (refl, λ j p q. absurd (omega arith))
find_open-cases (suc rounds) slots id i = elim (Bool-cases (u64 (slots i) == id)) [
  | inl e ↦ inr (i, rw e refl, omega arith, ground arith)
  | inr e ↦ elim (find_open-cases rounds slots id (i + 1)) [
    | inl (f, others) ↦ inl (
      rw e f,
      λ j p q. elim (Bool-cases (i == j)) [
        | inl same ↦ ground arith
        | inr other ↦ others j (ground arith) (omega arith)
      ],
    )
    | inr (j, f, p, q) ↦ inr (j, rw e f, omega arith, q)
  ]
]

module _ (t s next : ℕ) (orders : ℕ → Order) (n : ℕ) (slots : ℕ → ℕ)
    (l : Listed t s next orders n slots) where
  module _ (id : ℕ) (o : Order) where
    at_id : set_order orders id o id ≡ o
    unfolding set_order
    at_id = let e : (id == id) ≡ true = ground arith in rw e refl

    at_other : (i : ℕ) → i ≢ id → set_order orders id o i ≡ orders i
    unfolding set_order
    at_other i other = let e : (id == i) ≡ false = ground arith in rw e refl

    -- An order that rests here exactly when the old one did may be written.
    pub listed-written :
        (Rests t s o → Rests t s (orders id))
        → (Rests t s (orders id) → Rests t s o)
        → Listed t s next (set_order orders id o) n slots
    listed-written back forth = record {
      given = l.given;
      rests = λ i h. elim (Bool-cases (slots i == id)) [
        | inl e ↦
            let same : slots i ≡ id = ground arith in
            subst (λ k. Rests t s (set_order orders id o k)) (sym same)
              (rw at_id (forth (subst (λ k. Rests t s (orders k)) same (l.rests i h))))
        | inr e ↦ rw (at_other (slots i) (ground arith)) (l.rests i h)
      ];
      once = l.once;
      all = λ k p q r. elim (Bool-cases (k == id)) [
        | inl e ↦
            let same : k ≡ id = ground arith in
            l.all k p q (
              subst (λ k. Rests t s (orders k)) (sym same)
                (back (rw at_id at (subst (λ k. Rests t s (set_order orders id o k)) same r))))
        | inr e ↦ l.all k p q (rw (at_other k (ground arith)) at r)
      ];
    }

    -- The order leaves: the last slot moves into its place.
    abbrev pub removed : ℕ → ℕ → ℕ
    removed i j = if n - 1 == j then 0 else if i == j then slots (n - 1) else slots j

    -- The old index of what stands at `j` now.
    abbrev origin : ℕ → ℕ → ℕ
    origin i j = if i == j then n - 1 else j

    module _ (i : ℕ) (inside : i < n) (here : slots i ≡ id)
        (closed : o.status ≢ order_status_open) where
      origin_lem :
          (j : ℕ)
          → j < n - 1
          → (removed i j ≡ slots (origin i j)) × (origin i j < n) × (origin i j ≢ i)
      origin_lem j h = (ground arith, ground arith, ground arith)

      kept : (j : ℕ) → j < n - 1 → set_order orders id o (removed i j) ≡ orders (removed i j)
      kept j h =
          let (same, below, other) = origin_lem j h in
          at_other (removed i j)
            λ e. other (l.once (origin i j) i below inside (sym same ∙ e ∙ sym here))

      still_all :
          (k : ℕ)
          → 0 < k
          → k ≤ next
          → Rests t s (set_order orders id o k)
          → (j : ℕ) × (j < n - 1) × (removed i j ≡ k)
      still_all k p q r = elim (Bool-cases (k == id)) [
        | inl e ↦
            let same : k ≡ id = ground arith in
            absurd (
              closed (
                ap (λ (o : Order). o.status) (sym at_id)
                ∙ (subst (λ k. Rests t s (set_order orders id o k)) same r).is_open))
        | inr e ↦
            let other : k ≢ id = ground arith in
            moved other (l.all k p q (rw (at_other k other) at r))
      ]
        where
          moved :
              k ≢ id → (m : ℕ) × (m < n) × (slots m ≡ k) → (j : ℕ) × (j < n - 1) × (removed i j ≡ k)
          moved other (m, below, holds) = elim (Bool-cases (m == n - 1)) [
            | inl e ↦
                let last : m ≡ n - 1 = ground arith in
                let apart : i ≢ n - 1 = λ f. other (sym holds ∙ ap slots (last ∙ sym f) ∙ here) in
                (i, omega arith, ground (arith, ap slots last))
            | inr e ↦
                let apart : i ≢ m = λ f. other (sym holds ∙ ap slots (sym f) ∙ here) in
                (m, ground arith, ground arith)
          ]

      pub listed-removed : Listed t s next (set_order orders id o) (n - 1) (removed i)
      listed-removed = record {
        given =
            λ j h. let (same, below, _) = origin_lem j h in rw same (l.given (origin i j) below);
        rests = λ j h.
            let (same, below, _) = origin_lem j h in
            rw (kept j h) (rw same (l.rests (origin i j) below));
        once = λ j k p q same.
            let (e, below, _) = origin_lem j p in
            let (f, under, _) = origin_lem k q in
            origin-injective j k p q
              (l.once (origin i j) (origin i k) below under (sym e ∙ same ∙ f));
        all = still_all;
      }
        where
          origin-injective : (j k : ℕ) → j < n - 1 → k < n - 1 → origin i j ≡ origin i k → j ≡ k
          origin-injective j k p q same = ground arith

    -- The order of the next id joins.
    abbrev pub added : ℕ → ℕ
    added j = if n == j then id else slots j

    old :
        id ≡ suc next
        → (j : ℕ) → j < n
        → (added j ≡ slots j) × (set_order orders id o (slots j) ≡ orders (slots j))
    old new j h = (ground arith, at_other (slots j) (omega (arith, (l.given j h).1)))

    pub listed-added :
        id ≡ suc next → Rests t s o → Listed t s (suc next) (set_order orders id o) (n + 1) added
    listed-added new r = record {
      given = λ j h. (ground (arith, l.given j), ground (arith, l.given j));
      rests = λ j h. elim (Bool-cases (n == j)) [
        | inl e ↦ rw (e, at_id) r
        | inr e ↦ let below : j < n = ground arith in rw (e, (old new j below).1) (l.rests j below)
      ];
      once = λ j k p q same. ground (arith, l.once j k, l.given j, l.given k);
      all = λ k p q r. elim (Bool-cases (k == id)) [
        | inl e ↦ (n, omega arith, ground arith)
        | inr e ↦
            let other : k ≢ id = ground arith in
            let (j, below, holds) = l.all k p (omega arith) (rw (at_other k other) at r) in
            (j, omega arith, ground arith)
      ];
    }

    -- An order of another token or side takes the next id.
    pub listed-passed :
        id ≡ suc next → (Rests t s o → ⊥) → Listed t s (suc next) (set_order orders id o) n slots
    listed-passed new away = record {
      given = λ j h. ((l.given j h).0, omega (arith, (l.given j h).1));
      rests = λ j h. rw ((old new j h).1) (l.rests j h);
      once = l.once;
      all = λ k p q r. elim (Bool-cases (k == id)) [
        | inl e ↦
            let same : k ≡ id = ground arith in
            absurd (away (rw at_id at (subst (λ k. Rests t s (set_order orders id o k)) same r)))
        | inr e ↦
            let other : k ≢ id = ground arith in
            l.all k p (omega arith) (rw (at_other k other) at r)
      ];
    }
