-- ===== src/Mempool/Accepting.antt =====
-- mempool/pool.go: what an accepted transaction does to the pool.
use dew.Base.{
  ℕ, ◌+◌, ◌*◌, ◌^◌, ◌≤◌, ◌<◌, ◌≡◌, ◌⊎◌, refl, sym, subst, ap, ◌∙◌, false, Bool, none, some, ◌==◌,
  if◌then◌else◌, lookup, length, Bool-cases, Option-cases, inl, inr, arith, Result, ok, err, u64,
  u64_of_lt, length-insert_missing, lookup-insert,
}
use dew.Mempool.{Entry, Pool, PoolError, is_below_bump, store, add_entry, already_known}
use dew.Mempool.Config.{PoolConfig}
use dew.Mempool.Invariant.{Sound}
use dew.Mempool.Eviction.{Least}
use dew.Mempool.Adding.{Ready, add-Added}

-- What an accepted entry does to the pool `p`, for the pool `q` after it.
pub record Accepted (cfg : PoolConfig) (p : Pool) (e : Entry) (h : ℕ) (q : Pool) : Type 0 where
  pub own_hash : h ≡ e.hash
  pub was_new : lookup h p.by_hash ≡ none
  pub stored : lookup h q.by_hash ≡ some e
  pub no_other :
      (j : ℕ) (x : Entry) → lookup j q.by_hash ≡ some x → (x ≡ e) ⊎ (lookup j p.by_hash ≡ some x)
  -- An old entry stays, or is replaced at a bumped price, or is evicted as the cheapest.
  pub leaves :
      (j : ℕ) (x : Entry)
      → lookup j p.by_hash ≡ some x
      → (lookup j q.by_hash ≡ some x)
        ⊎ (((x.sender ≡ e.sender)
              × (x.nonce ≡ e.nonce)
              × (x.price * (100 + cfg.price_bump) < (e.price + 1) * 100))
            ⊎ ((x.price < e.price)
                × Least e.price p.by_hash x.price
                × (length p.by_hash ≡ cfg.max_global)))
  pub at_most_one : length p.by_hash ≤ length q.by_hash

bump-lt :
    (bump old price : ℕ)
    → 100 + bump < 2 ^ 63
    → is_below_bump bump old price ≡ false
    → old * (100 + bump) < (price + 1) * 100
unfolding is_below_bump u64
bump-lt bump old price small h =
    let factor : u64 (100 + bump) ≡ 100 + bump = u64_of_lt (100 + bump) (omega arith) in
    ground (arith, factor)

-- A known hash is refused.
accepted-new :
    (cfg : PoolConfig) (p : Pool) (e : Entry) (h : ℕ)
    → (add_entry cfg e p).1 ≡ ok h
    → lookup e.hash p.by_hash ≡ none
unfolding add_entry
accepted-new cfg p e h accepted = elim (Option-cases (lookup e.hash p.by_hash)) [
  | inl new ↦ new
  | inr (x, known) ↦
      let no : ◌≡◌ {A = Result PoolError ℕ} (err already_known) (ok h) =
        rw (known, add_entry) at accepted in
      cc
]

module _ (cfg : PoolConfig) (p q : Pool) (e : Entry) (replaced : Bool)
    (small : 100 + cfg.price_bump < 2 ^ 63) (new : lookup e.hash p.by_hash ≡ none)
    (ready : Ready cfg p q e) where
  abbrev stored : Pool
  stored = store cfg e replaced q

  stored-lookup :
      (j : ℕ) → lookup j stored.by_hash ≡ (if e.hash == j then some e else lookup j q.by_hash)
  unfolding store
  stored-lookup j = lookup-insert e.hash j e q.by_hash

  stays : (j : ℕ) (x : Entry) → lookup j q.by_hash ≡ some x → lookup j stored.by_hash ≡ some x
  stays j x there = elim (Bool-cases (e.hash == j)) [
    | inl same ↦
        let here : j ≡ e.hash = ground arith in
        let no : none ≡ some x =
          sym ready.new ∙ subst (λ i. lookup i q.by_hash ≡ some x) here there in
        cc
    | inr other ↦ stored-lookup j ∙ rw other there
  ]

  stored-Accepted : Accepted cfg p e e.hash stored
  unfolding store
  stored-Accepted = record {
    own_hash = refl;
    was_new = new;
    stored = ground (arith, lookup-insert e.hash e.hash e q.by_hash);
    no_other = λ j x there. elim (Bool-cases (e.hash == j)) [
      | inl same ↦ let here : some e ≡ some x = sym (rw same at (stored-lookup j)) ∙ there in inl cc
      | inr other ↦ inr (ready.only_old j x (sym (rw other at (stored-lookup j)) ∙ there))
    ];
    leaves = λ j x there. elim (ready.leaves j x there) [
      | inl still ↦ inl (stays j x still)
      | inr (inl (sender, nonce, bump)) ↦
          inr (inl (sender, nonce, bump-lt cfg.price_bump x.price e.price small bump))
      | inr (inr evicted) ↦ inr (inr evicted)
    ];
    at_most_one =
        omega (arith, ready.at_most_one, length-insert_missing e.hash e q.by_hash ready.new);
  }

-- An entry that add accepts into a pool whose indexes agree, with a price bump that fits in int64:
-- its hash was not known and now stands for it, no other entry is new, and at most one left: one of
-- the same sender and nonce, when the new price plus one wei is above the old price raised by the
-- bump, or, in a full pool, a strictly cheaper one than which none is cheaper.
pub add_entry-Accepted :
    (cfg : PoolConfig) (p : Pool) (e : Entry) (h : ℕ)
    → Sound cfg p
    → 100 + cfg.price_bump < 2 ^ 63
    → (add_entry cfg e p).1 ≡ ok h
    → Accepted cfg p e h (add_entry cfg e p).0
add_entry-Accepted cfg p e h k small accepted = elim (add-Added cfg p e k) [
  | inl (x, refused) ↦
      let no : ◌≡◌ {A = Result PoolError ℕ} (err x) (ok h) =
        sym (ap (λ (r : Pool × Result PoolError ℕ). r.1) refused) ∙ accepted in
      cc
  | inr (q, replaced, stores, ready) ↦
      let hashes : ◌≡◌ {A = Result PoolError ℕ} (ok e.hash) (ok h) =
        sym (ap (λ (r : Pool × Result PoolError ℕ). r.1) stores) ∙ accepted in
      let own : h ≡ e.hash = cc in
      rw (stores, own)
        (stored-Accepted cfg p q e replaced small (accepted-new cfg p e h accepted) ready)
]
