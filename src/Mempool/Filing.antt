-- ===== src/Mempool/Filing.antt =====
-- mempool/pool.go: what removing and storing does to the index by sender and nonce.
use dew.Base.{
  ℕ, ◌+◌, ◌<◌, ◌≡◌, refl, ap, sym, ◌∙◌, ◌&&◌, true, none, some, [], ◌∷◌, ◌==◌, if◌then◌else◌, Dict,
  lookup, insert, erase, Unique, length, lookup-insert, lookup-erase, lookup-nil, insert-Unique,
  erase-Unique, length-erase_found, length-insert_missing, Bool-cases, Option-cases, inl, inr,
  arith,
}
use dew.Consensus.ValidatorSet.{Address}
use dew.Mempool.{hash_at, sender_count, drop_nonce, add_nonce}

-- Every sender's map has distinct nonces, and is not empty.
abbrev pub Kept : Dict (Dict ℕ) → Type 0
Kept d = (s : Address) (m : Dict ℕ) → lookup s d ≡ some m → Unique m × (0 < length m)

length_zero : (m : Dict ℕ) → (length m == 0) ≡ true → m ≡ []
length_zero [] h = refl
length_zero (x ∷ m) h = ground arith

module _ (a n : ℕ) (d : Dict (Dict ℕ)) where
  pub hash_at-drop_nonce :
      (s j : ℕ)
      → hash_at s j (drop_nonce a n d) ≡ (if a == s && n == j then none else hash_at s j d)
  unfolding hash_at drop_nonce lookup
  hash_at-drop_nonce s j = elim (Option-cases (lookup a d)) [
    | inl e ↦ rw (e, drop_nonce) (ground arith)
    | inr (m, e) ↦ elim (Bool-cases (length (erase n m) == 0)) [
      | inl z ↦
          let nothing : lookup j (erase n m) ≡ none = ap (lookup j) (length_zero (erase n m) z) in
          rw (e, drop_nonce, z, hash_at, lookup-erase a s d)
            (ground (arith, nothing, lookup-erase n j m))
      | inr z ↦
          rw (e, drop_nonce, z, hash_at, lookup-insert a s (erase n m) d)
            (ground (arith, lookup-erase n j m))
    ]
  ]

  pub drop_nonce-Kept : Kept d → Kept (drop_nonce a n d)
  unfolding drop_nonce
  drop_nonce-Kept k s m h = elim (Option-cases (lookup a d)) [
    | inl e ↦ k s m (rw (e, drop_nonce) at h)
    | inr (m', e) ↦ elim (Bool-cases (length (erase n m') == 0)) [
      | inl z ↦
          let found : (if a == s then none else lookup s d) ≡ some m =
            sym (lookup-erase a s d) ∙ (rw (e, drop_nonce, z) at h) in
          ground (arith, k s m)
      | inr z ↦
          let found : (if a == s then some (erase n m') else lookup s d) ≡ some m =
            sym (lookup-insert a s (erase n m') d) ∙ (rw (e, drop_nonce, z) at h) in
          elim (Bool-cases (a == s)) [
            | inl here ↦
                let same : erase n m' ≡ m = ground (arith, found) in
                rw (← same) (erase-Unique n m' (k a m' e).0, ground arith)
            | inr other ↦ k s m (rw other at found)
          ]
    ]
  ]

  pub sender_count-drop_nonce :
      (h : ℕ) (s : Address)
      → Kept d
      → hash_at a n d ≡ some h
      → sender_count s (drop_nonce a n d) + (if a == s then 1 else 0) ≡ sender_count s d
  unfolding sender_count drop_nonce hash_at
  sender_count-drop_nonce h s k there = elim (Option-cases (lookup a d)) [
    | inl e ↦ let no = rw (e, hash_at) at there in cc
    | inr (m, e) ↦
        let found : lookup n m ≡ some h = rw (e, hash_at) at there in
        let less = length-erase_found n h m (k a m e).0 found in
        elim (Bool-cases (length (erase n m) == 0)) [
          | inl z ↦ rw (e, drop_nonce, z, sender_count, lookup-erase a s d) (ground (arith, less))
          | inr z ↦
              rw (e, drop_nonce, z, sender_count, lookup-insert a s (erase n m) d)
                (ground (arith, less))
        ]
  ]

  module _ (h : ℕ) where
    pub hash_at-add_nonce :
        (s j : ℕ)
        → hash_at s j (add_nonce a n h d) ≡ (if a == s && n == j then some h else hash_at s j d)
    unfolding hash_at add_nonce
    hash_at-add_nonce s j = elim (Option-cases (lookup a d)) [
      | inl e ↦
          rw (e, add_nonce, hash_at, lookup-insert a s (insert n h []) d)
            (ground (arith, lookup-insert n j h [], lookup-nil {V = ℕ} j))
      | inr (m, e) ↦
          rw (e, add_nonce, hash_at, lookup-insert a s (insert n h m) d)
            (ground (arith, lookup-insert n j h m))
    ]

    pub add_nonce-Kept : hash_at a n d ≡ none → Kept d → Kept (add_nonce a n h d)
    unfolding add_nonce hash_at
    add_nonce-Kept new k s m found = elim (Option-cases (lookup a d)) [
      | inl e ↦
          let there : (if a == s then some (insert n h []) else lookup s d) ≡ some m =
            sym (lookup-insert a s (insert n h []) d) ∙ (rw (e, add_nonce) at found) in
          elim (Bool-cases (a == s)) [
            | inl here ↦
                let same : insert n h [] ≡ m = ground (arith, there) in
                rw (← same) (
                  insert-Unique n h [] tt,
                  omega (arith, length-insert_missing n h [] (lookup-nil n)),
                )
            | inr other ↦ k s m (rw other at there)
          ]
      | inr (m', e) ↦
          let there : (if a == s then some (insert n h m') else lookup s d) ≡ some m =
            sym (lookup-insert a s (insert n h m') d) ∙ (rw (e, add_nonce) at found) in
          let missing : lookup n m' ≡ none = rw (e, hash_at) at new in
          elim (Bool-cases (a == s)) [
            | inl here ↦
                let same : insert n h m' ≡ m = ground (arith, there) in
                rw (← same) (
                  insert-Unique n h m' (k a m' e).0,
                  omega (arith, length-insert_missing n h m' missing),
                )
            | inr other ↦ k s m (rw other at there)
          ]
    ]

    pub sender_count-add_nonce :
        (s : Address)
        → hash_at a n d ≡ none
        → sender_count s (add_nonce a n h d) ≡ sender_count s d + (if a == s then 1 else 0)
    unfolding sender_count add_nonce hash_at
    sender_count-add_nonce s new = elim (Option-cases (lookup a d)) [
      | inl e ↦
          rw (e, add_nonce, sender_count, lookup-insert a s (insert n h []) d)
            (ground (arith, length-insert_missing n h [] (lookup-nil n)))
      | inr (m, e) ↦
          let missing : lookup n m ≡ none = rw (e, hash_at) at new in
          rw (e, add_nonce, sender_count, lookup-insert a s (insert n h m) d)
            (ground (arith, length-insert_missing n h m missing))
    ]
