-- ===== src/Mempool/Eviction.antt =====
-- mempool/pool.go: which entry evictCheaperThan takes.
use dew.Base.{
  ℕ, ◌≤◌, ◌<◌, ◌≡◌, ◌⊎◌, refl, subst, true, none, some, [], ◌∷◌, ◌==◌, ltb, leb, Dict, lookup,
  Unique, Bool-cases, inl, inr, arith,
}
use dew.Mempool.{Entry, worst}

-- The entry is in the map and cheaper than the price.
abbrev pub CheapIn : ℕ → Dict Entry → Entry → Type 0
CheapIn price d w = (h : ℕ) × (lookup h d ≡ some w) × (w.price < price)

-- No entry of the map that is cheaper than the price has a price below the given one.
abbrev pub Least : ℕ → Dict Entry → ℕ → Type 0
Least price d least = (h : ℕ) (e : Entry) → lookup h d ≡ some e → e.price < price → least ≤ e.price

module _ (price h : ℕ) (e : Entry) (d : Dict Entry) where
  cheap-cons : (w : Entry) → lookup h d ≡ none → CheapIn price d w → CheapIn price ((h, e) ∷ d) w
  unfolding lookup
  cheap-cons w new (k, there, cheap) = elim (Bool-cases (h == k)) [
    | inl same ↦
        let here : k ≡ h = ground arith in
        let no : lookup h d ≡ some w = subst (λ x. lookup x d ≡ some w) here there in cc
    | inr other ↦ (k, rw other there, cheap)
  ]

  cheap-head : e.price < price → CheapIn price ((h, e) ∷ d) e
  unfolding lookup
  cheap-head cheap = let same : (h == h) ≡ true = ground arith in (h, rw same refl, cheap)

  Least-cons :
      (least : ℕ)
      → Least price d least
      → (e.price < price → least ≤ e.price)
      → Least price ((h, e) ∷ d) least
  unfolding lookup
  Least-cons least rest head k x there cheap = elim (Bool-cases (h == k)) [
    | inl same ↦
        let here : e ≡ x = let t : some e ≡ some x = rw same at there in cc in
        rw (← here) (head (rw (← here) at cheap))
    | inr other ↦ rest k x (rw other at there) cheap
  ]

-- The range goes on from a cheaper entry that it has found.
worst-some :
    (price : ℕ) (d : Dict Entry) (v : Entry)
    → Unique d
    → (w : Entry) × (worst price d (some v) ≡ some w)
      × ((v ≡ w) ⊎ CheapIn price d w)
      × Least price d w.price
      × (w.price ≤ v.price)
unfolding worst lookup
worst-some price [] v u = (v, refl, inl refl, λ h e there. cc, omega arith)
worst-some price ((h, e) ∷ d) v u = elim (Bool-cases (leb price e.price)) [
  | inl dear ↦
      let (w, is, from, least, below) = worst-some price d v u.1 in
      (
        w,
        rw dear is,
        elim from [ inl same ↦ inl same | inr c ↦ inr (cheap-cons price h e d w u.0 c) ],
        Least-cons price h e d w.price least (λ c. ground arith),
        below,
      )
  | inr near ↦ elim (Bool-cases (ltb e.price v.price)) [
    | inl lower ↦
        let (w, is, from, least, below) = worst-some price d e u.1 in
        let cheap : e.price < price = ground arith in
        (
          w,
          rw (near, lower) is,
          inr (elim from [
            | inl same ↦ rw (← same) (cheap-head price h e d cheap)
            | inr c ↦ cheap-cons price h e d w u.0 c
          ]),
          Least-cons price h e d w.price least (λ c. below),
          ground arith,
        )
    | inr higher ↦
        let (w, is, from, least, below) = worst-some price d v u.1 in
        (
          w,
          rw (near, higher) is,
          elim from [ inl same ↦ inl same | inr c ↦ inr (cheap-cons price h e d w u.0 c) ],
          Least-cons price h e d w.price least (λ c. ground arith),
          below,
        )
  ]
]

-- The range over the whole map.
pub worst-cases :
    (price : ℕ) (d : Dict Entry)
    → Unique d
    → (worst price d none ≡ none)
      ⊎ ((w : Entry) × (worst price d none ≡ some w) × CheapIn price d w × Least price d w.price)
unfolding worst
worst-cases price [] u = inl refl
worst-cases price ((h, e) ∷ d) u = elim (Bool-cases (leb price e.price)) [
  | inl dear ↦ elim (worst-cases price d u.1) [
    | inl nothing ↦ inl (rw dear nothing)
    | inr (w, is, from, least) ↦ inr (
      w,
      rw dear is,
      cheap-cons price h e d w u.0 from,
      Least-cons price h e d w.price least (λ c. ground arith),
    )
  ]
  | inr near ↦
      let (w, is, from, least, below) = worst-some price d e u.1 in
      let cheap : e.price < price = ground arith in
      inr (
        w,
        rw near is,
        elim from [
          | inl same ↦ rw (← same) (cheap-head price h e d cheap)
          | inr c ↦ cheap-cons price h e d w u.0 c
        ],
        Least-cons price h e d w.price least (λ c. below),
      )
]
