-- ===== src/Base/Maps.antt =====
-- A Go map with numbers for keys, as an association list in insertion order.
use Prim.Native.Nat.{ℕ, ◌+◌}
use mathlib.Core.Path.{◌≡◌, refl}
use mathlib.Core.Logic.{inl, inr}
use mathlib.Core.Bool.{Bool, true, false}
use mathlib.Core.List.{List, [], ◌∷◌}
use mathlib.Core.Option.{Option, none, some}
use native.Mathlib.Omega.{arith}
use dew.Base.Lists.{length}
use dew.Base.Tests.{◌==◌, if◌then◌else◌, Bool-cases}

abbrev pub Dict {ℓ} : Type ℓ → Type ℓ
Dict V = List (ℕ × V)

module _ {ℓ} {V : Type ℓ} where
  -- `v, ok := m[k]`
  unfoldable pub lookup : ℕ → Dict V → Option V
  lookup k [] = none
  lookup k ((j, v) ∷ d) = if j == k then some v else lookup k d

  -- `m[k] = v`
  unfoldable pub insert : ℕ → V → Dict V → Dict V
  insert k v [] = (k, v) ∷ []
  insert k v ((j, w) ∷ d) = if j == k then (k, v) ∷ d else (j, w) ∷ insert k v d

  -- `delete(m, k)`
  unfoldable pub erase : ℕ → Dict V → Dict V
  erase k [] = []
  erase k ((j, w) ∷ d) = let rest = erase k d in if j == k then rest else (j, w) ∷ rest

  pub lookup-nil : (k : ℕ) → lookup k [] ≡ none
  unfolding lookup
  lookup-nil k = refl

  pub lookup-insert :
      (k j : ℕ) (v : V) (d : Dict V)
      → lookup j (insert k v d) ≡ (if k == j then some v else lookup j d)
  unfolding lookup insert
  lookup-insert k j v [] = refl
  lookup-insert k j v ((i, w) ∷ d) = ground (arith, lookup-insert k j v d)

  pub lookup-erase :
      (k j : ℕ) (d : Dict V) → lookup j (erase k d) ≡ (if k == j then none else lookup j d)
  unfolding lookup erase
  lookup-erase k j [] = ground arith
  lookup-erase k j ((i, w) ∷ d) = ground (arith, lookup-erase k j d)

  -- No key stands twice.
  abbrev pub Unique : Dict V → Type ℓ
  Unique [] = Unit
  Unique ((j, v) ∷ d) = (lookup j d ≡ none) × Unique d

  pub insert-Unique : (k : ℕ) (v : V) (d : Dict V) → Unique d → Unique (insert k v d)
  unfolding insert lookup
  insert-Unique k v [] u = (refl, tt)
  insert-Unique k v ((j, w) ∷ d) u = elim (Bool-cases (j == k)) [
    | inl e ↦ let e' : j ≡ k = ground arith in rw e (rw (← e') u.0, u.1)
    | inr e ↦ rw e (ground (arith, lookup-insert k j v d), insert-Unique k v d u.1)
  ]

  pub erase-Unique : (k : ℕ) (d : Dict V) → Unique d → Unique (erase k d)
  unfolding erase
  erase-Unique k [] u = tt
  erase-Unique k ((j, w) ∷ d) u = elim (Bool-cases (j == k)) [
    | inl e ↦ rw e (erase-Unique k d u.1)
    | inr e ↦ rw e (ground (arith, lookup-erase k j d), erase-Unique k d u.1)
  ]

  pub length-erase_missing :
      (k : ℕ) (d : Dict V) → lookup k d ≡ none → length (erase k d) ≡ length d
  unfolding lookup erase
  length-erase_missing k [] h = refl
  length-erase_missing k ((j, w) ∷ d) h = ground (arith, length-erase_missing k d)

  pub length-erase_found :
      (k : ℕ) (v : V) (d : Dict V)
      → Unique d
      → lookup k d ≡ some v
      → length (erase k d) + 1 ≡ length d
  unfolding lookup erase
  length-erase_found k v [] u h = cc
  length-erase_found k v ((j, w) ∷ d) u h = elim (Bool-cases (j == k)) [
    | inl e ↦
        let same : j ≡ k = ground arith in
        let rest = length-erase_missing k d (rw (← same) u.0) in rw e (omega (arith, rest))
    | inr e ↦ let rest = length-erase_found k v d u.1 (rw e at h) in rw e (omega (arith, rest))
  ]

  pub length-insert_missing :
      (k : ℕ) (v : V) (d : Dict V) → lookup k d ≡ none → length (insert k v d) ≡ length d + 1
  unfolding lookup insert
  length-insert_missing k v [] h = refl
  length-insert_missing k v ((j, w) ∷ d) h = ground (arith, length-insert_missing k v d)

  abbrev pub is_some : Option V → Bool
  is_some none = false
  is_some (some v) = true

-- `m[k]` of a map to integers: zero where the key is missing.
abbrev pub or_zero : Option ℕ → ℕ
or_zero none = 0
or_zero (some n) = n
