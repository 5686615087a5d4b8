-- ===== src/Mempool/Invariant.antt =====
-- mempool/pool.go: the two indexes of the pool agree, and stay within the limits.
use dew.Base.{
  ℕ, ◌≤◌, ◌<◌, ◌≡◌, refl, sym, subst, ap, ◌∙◌, ◌&&◌, Bool, none, some, ◌==◌, if◌then◌else◌, lookup,
  erase, length, Unique, Bool-cases, inl, inr, arith, lookup-insert, lookup-erase, erase-Unique,
  insert-Unique, length-erase_found, length-insert_missing,
}
use dew.Consensus.ValidatorSet.{Address}
use dew.Mempool.{Entry, Pool, hash_at, sender_count, drop_nonce, remove_locked, store}
use dew.Mempool.Config.{PoolConfig}
use dew.Mempool.Filing.{
  Kept, hash_at-drop_nonce, drop_nonce-Kept, sender_count-drop_nonce, hash_at-add_nonce,
  add_nonce-Kept, sender_count-add_nonce,
}

-- The hash index and the sender index hold the same transactions, within the limits.
pub record Sound (cfg : PoolConfig) (p : Pool) : Type 0 where
  pub unique : Unique p.by_hash
  pub kept : Kept p.by_sender
  pub filed :
      (h : ℕ) (e : Entry)
      → lookup h p.by_hash ≡ some e
      → (e.hash ≡ h) × (hash_at e.sender e.nonce p.by_sender ≡ some h)
  pub found :
      (s n h : ℕ)
      → hash_at s n p.by_sender ≡ some h
      → (e : Entry) × (lookup h p.by_hash ≡ some e) × (e.sender ≡ s) × (e.nonce ≡ n)
  pub global : length p.by_hash ≤ cfg.max_global
  pub per_sender : (s : Address) → sender_count s p.by_sender ≤ cfg.max_per_sender

module _ (cfg : PoolConfig) (p : Pool) (k : Sound cfg p) where
  -- An entry of the pool is removed.
  module _ (h : ℕ) (e : Entry) (there : lookup h p.by_hash ≡ some e) where
    abbrev pub without : Pool
    without = record p {
      by_hash = erase h p.by_hash;
      by_sender = drop_nonce e.sender e.nonce p.by_sender;
    }

    pub remove_locked-without : remove_locked h p ≡ without
    unfolding remove_locked
    remove_locked-without = rw (there, remove_locked) refl

    pub without-lookup :
        (j : ℕ) → lookup j without.by_hash ≡ (if h == j then none else lookup j p.by_hash)
    without-lookup j = lookup-erase h j p.by_hash

    still_filed :
        (j : ℕ) (x : Entry)
        → lookup j without.by_hash ≡ some x
        → (x.hash ≡ j) × (hash_at x.sender x.nonce without.by_sender ≡ some j)
    still_filed j x at_j = elim (Bool-cases (h == j)) [
      | inl same ↦ let no : none ≡ some x = sym (rw same at (without-lookup j)) ∙ at_j in cc
      | inr other ↦
          let old : lookup j p.by_hash ≡ some x = sym (rw other at (without-lookup j)) ∙ at_j in
          ground (
            arith,
            k.filed j x,
            k.filed h e,
            hash_at-drop_nonce e.sender e.nonce p.by_sender x.sender x.nonce,
          )
    ]

    still_found :
        (s n j : ℕ)
        → hash_at s n without.by_sender ≡ some j
        → (x : Entry) × (lookup j without.by_hash ≡ some x) × (x.sender ≡ s) × (x.nonce ≡ n)
    still_found s n j at_s = elim (Bool-cases (e.sender == s && e.nonce == n)) [
      | inl same ↦ let no : none ≡ some j = sym (rw same at (dropped s n)) ∙ at_s in cc
      | inr other ↦
          let old : hash_at s n p.by_sender ≡ some j = sym (rw other at (dropped s n)) ∙ at_s in
          let (x, at_j, sender, nonce) = k.found s n j old in
          elim (Bool-cases (h == j)) [
            | inl same ↦
                let same_hash : h ≡ j = ground arith in
                let same_entry : some e ≡ some x =
                  sym there ∙ ap (λ i. lookup i p.by_hash) same_hash ∙ at_j in
                ground arith
            | inr apart ↦ (x, without-lookup j ∙ rw apart at_j, sender, nonce)
          ]
    ]
      where
        dropped :
            (s n : ℕ)
            → hash_at s n without.by_sender
              ≡ (if e.sender == s && e.nonce == n then none else hash_at s n p.by_sender)
        dropped s n = hash_at-drop_nonce e.sender e.nonce p.by_sender s n

    pub without-Sound : Sound cfg without
    without-Sound = record {
      unique = erase-Unique h p.by_hash k.unique;
      kept = drop_nonce-Kept e.sender e.nonce p.by_sender k.kept;
      filed = still_filed;
      found = still_found;
      global = omega (arith, length-erase_found h e p.by_hash k.unique there, k.global);
      per_sender = λ s. omega (
        arith,
        sender_count-drop_nonce e.sender e.nonce p.by_sender h s k.kept (k.filed h e there).1,
        k.per_sender s,
      );
    }

  -- A new entry is stored, its sender and nonce free.
  module _ (e : Entry) (replaced : Bool) (new : lookup e.hash p.by_hash ≡ none)
      (free : hash_at e.sender e.nonce p.by_sender ≡ none)
      (room : length p.by_hash < cfg.max_global)
      (own : sender_count e.sender p.by_sender < cfg.max_per_sender) where
    abbrev stored : Pool
    stored = store cfg e replaced p

    stored-lookup :
        (j : ℕ) → lookup j stored.by_hash ≡ (if e.hash == j then some e else lookup j p.by_hash)
    unfolding store
    stored-lookup j = lookup-insert e.hash j e p.by_hash

    stored-hash_at :
        (s n : ℕ)
        → hash_at s n stored.by_sender
          ≡ (if e.sender == s && e.nonce == n then some e.hash else hash_at s n p.by_sender)
    unfolding store
    stored-hash_at s n = hash_at-add_nonce e.sender e.nonce p.by_sender e.hash s n

    stored_filed :
        (j : ℕ) (x : Entry)
        → lookup j stored.by_hash ≡ some x
        → (x.hash ≡ j) × (hash_at x.sender x.nonce stored.by_sender ≡ some j)
    stored_filed j x at_j = elim (Bool-cases (e.hash == j)) [
      | inl same ↦
          let same_entry : some e ≡ some x = sym (rw same at (stored-lookup j)) ∙ at_j in
          let here : e ≡ x = cc in
          subst (λ x. (x.hash ≡ j) × (hash_at x.sender x.nonce stored.by_sender ≡ some j)) here
            (ground arith, ground (arith, stored-hash_at e.sender e.nonce))
      | inr other ↦
          let old : lookup j p.by_hash ≡ some x = sym (rw other at (stored-lookup j)) ∙ at_j in
          ground (arith, k.filed j x old, stored-hash_at x.sender x.nonce)
    ]

    stored_found :
        (s n j : ℕ)
        → hash_at s n stored.by_sender ≡ some j
        → (x : Entry) × (lookup j stored.by_hash ≡ some x) × (x.sender ≡ s) × (x.nonce ≡ n)
    stored_found s n j at_s = elim (Bool-cases (e.sender == s && e.nonce == n)) [
      | inl same ↦
          let same_hash : some e.hash ≡ some j = sym (rw same at (stored-hash_at s n)) ∙ at_s in
          (e, ground (arith, stored-lookup j), ground arith, ground arith)
      | inr other ↦
          let old : hash_at s n p.by_sender ≡ some j =
            sym (rw other at (stored-hash_at s n)) ∙ at_s in
          let (x, at_j, sender, nonce) = k.found s n j old in
          (x, ground (arith, stored-lookup j), sender, nonce)
    ]

    pub stored-Sound : Sound cfg stored
    unfolding store
    stored-Sound = record {
      unique = insert-Unique e.hash e p.by_hash k.unique;
      kept = add_nonce-Kept e.sender e.nonce p.by_sender e.hash free k.kept;
      filed = stored_filed;
      found = stored_found;
      global = omega (arith, length-insert_missing e.hash e p.by_hash new);
      per_sender = λ s. ground (
        arith,
        sender_count-add_nonce e.sender e.nonce p.by_sender e.hash s free,
        k.per_sender s,
      );
    }
