-- ===== src/Mempool/Adding.antt =====
-- mempool/pool.go: what add does to a pool whose indexes agree.
use dew.Base.{
  ℕ, ◌+◌, ◌≤◌, ◌<◌, ◌≡◌, ◌⊎◌, refl, sym, subst, ap, ◌∙◌, true, false, Bool, none, some, ◌==◌, leb,
  ltb→lt, if◌then◌else◌, lookup, length, is_some, Bool-cases, Option-cases, inl, inr, arith, Result,
  ok, err, u64, length-erase_found,
}
use dew.Mempool.{
  Entry, Pool, PoolError, hash_at, sender_count, remove_locked, store, evict_cheaper_than,
  note_reject, make_room, admit_entry, add_entry, is_below_bump, pool_full, sender_limit,
  rbf_disabled, replace_under, already_known,
}
use dew.Mempool.Config.{PoolConfig}
use dew.Mempool.Filing.{hash_at-drop_nonce, sender_count-drop_nonce}
use dew.Mempool.Eviction.{worst-cases, Least}
use dew.Mempool.Invariant.{Sound, without, without-Sound, without-lookup, remove_locked-without}

-- Why an entry `x` left the pool for `e`: it was replaced at a price that is not below the bump, or
-- it was a cheapest of the entries cheaper than `e`, and the pool was full.
abbrev pub GivesWay : PoolConfig → Pool → Entry → Entry → Type 0
GivesWay cfg p e x =
    ((x.sender ≡ e.sender)
      × (x.nonce ≡ e.nonce)
      × (is_below_bump cfg.price_bump x.price e.price ≡ false))
    ⊎ ((x.price < e.price) × Least e.price p.by_hash x.price × (length p.by_hash ≡ cfg.max_global))

-- The pool `q` that takes `e` is `p`, less at most one entry.
pub record Ready (cfg : PoolConfig) (p q : Pool) (e : Entry) : Type 0 where
  pub sound : Sound cfg q
  pub new : lookup e.hash q.by_hash ≡ none
  pub free : hash_at e.sender e.nonce q.by_sender ≡ none
  pub room : length q.by_hash < cfg.max_global
  pub own : sender_count e.sender q.by_sender < cfg.max_per_sender
  pub only_old : (h : ℕ) (x : Entry) → lookup h q.by_hash ≡ some x → lookup h p.by_hash ≡ some x
  pub leaves :
      (h : ℕ) (x : Entry)
      → lookup h p.by_hash ≡ some x
      → (lookup h q.by_hash ≡ some x) ⊎ GivesWay cfg p e x
  pub at_most_one : length p.by_hash ≤ length q.by_hash + 1

-- What add returns.
abbrev pub Added : PoolConfig → Pool → Entry → Pool × Result PoolError ℕ → Type 0
Added cfg p e r =
    ((x : PoolError) × (r ≡ (note_reject x p, err x)))
    ⊎ ((q : Pool) × (replaced : Bool) × (r ≡ (store cfg e replaced q, ok e.hash)) × Ready cfg p q e)

module _ (cfg : PoolConfig) (p : Pool) (k : Sound cfg p) (e : Entry)
    (new : lookup e.hash p.by_hash ≡ none) where
  module _ (h : ℕ) (x : Entry) (there : lookup h p.by_hash ≡ some x) where
    abbrev q : Pool
    q = without cfg p k h x there

    q-lookup : (j : ℕ) → lookup j q.by_hash ≡ (if h == j then none else lookup j p.by_hash)
    q-lookup = without-lookup cfg p k h x there

    -- One entry that gives way makes room.
    removed-Ready :
        GivesWay cfg p e x
        → hash_at e.sender e.nonce q.by_sender ≡ none
        → sender_count e.sender q.by_sender < cfg.max_per_sender
        → Ready cfg p q e
    removed-Ready why free own = record {
      sound = without-Sound cfg p k h x there;
      new = ground (arith, q-lookup e.hash);
      free = free;
      room = omega (arith, length-erase_found h x p.by_hash k.unique there, k.global);
      own = own;
      only_old = λ j y at_j. ground (arith, q-lookup j);
      leaves = λ j y at_j. elim (Bool-cases (h == j)) [
        | inl same ↦
            let same_hash : h ≡ j = ground arith in
            let same_entry : some x ≡ some y =
              sym there ∙ ap (λ i. lookup i p.by_hash) same_hash ∙ at_j in
            let here : x ≡ y = cc in inr (subst (GivesWay cfg p e) here why)
        | inr other ↦ inl (q-lookup j ∙ rw other at_j)
      ];
      at_most_one = omega (arith, length-erase_found h x p.by_hash k.unique there);
    }

  same-Ready :
      hash_at e.sender e.nonce p.by_sender ≡ none
      → length p.by_hash < cfg.max_global
      → sender_count e.sender p.by_sender < cfg.max_per_sender
      → Ready cfg p p e
  same-Ready free room own = record {
    sound = k;
    new = new;
    free = free;
    room = room;
    own = own;
    only_old = λ h x at_h. at_h;
    leaves = λ h x at_h. inl at_h;
    at_most_one = omega arith;
  }

  -- The counter of evictions is no part of it.
  counted-Ready : (q : Pool) (n : ℕ) → Ready cfg p q e → Ready cfg p (record q { evictions = n }) e
  counted-Ready q n r = record {
    sound = record {
      unique = r.sound.unique;
      kept = r.sound.kept;
      filed = r.sound.filed;
      found = r.sound.found;
      global = r.sound.global;
      per_sender = r.sound.per_sender;
    };
    new = r.new;
    free = r.free;
    room = r.room;
    own = r.own;
    only_old = r.only_old;
    leaves = r.leaves;
    at_most_one = r.at_most_one;
  }

  admit-Added :
      hash_at e.sender e.nonce p.by_sender ≡ none → Added cfg p e (admit_entry cfg e false p)
  unfolding admit_entry evict_cheaper_than
  admit-Added free =
      elim (Bool-cases (leb cfg.max_per_sender (sender_count e.sender p.by_sender))) [
        | inl many ↦ inl (sender_limit, rw (many, admit_entry) refl)
        | inr few ↦ elim (Bool-cases (leb cfg.max_global (length p.by_hash))) [
          | inr space ↦ inr (
            p,
            false,
            rw (few, space, admit_entry) refl,
            same-Ready free (ground arith) (ground arith),
          )
          | inl crowded ↦ elim (worst-cases e.price p.by_hash k.unique) [
            | inl nothing ↦
                inl (pool_full, rw (few, crowded, admit_entry, nothing, evict_cheaper_than) refl)
            | inr (w, is, (h, there, cheap), least) ↦
                let hash : w.hash ≡ h = (k.filed h w there).0 in
                let at_hash : lookup w.hash p.by_hash ≡ some w =
                  subst (λ i. lookup i p.by_hash ≡ some w) (sym hash) there in
                let gone = remove_locked-without cfg p k w.hash w at_hash in
                let why : GivesWay cfg p e w = inr (cheap, least, ground (arith, k.global)) in
                inr (
                  record (without cfg p k w.hash w at_hash) { evictions = u64 (p.evictions + 1) },
                  false,
                  rw (few, crowded, admit_entry, is, evict_cheaper_than, gone) refl,
                  counted-Ready (without cfg p k w.hash w at_hash) (u64 (p.evictions + 1)) (
                      removed-Ready w.hash w at_hash why
                        (ground (
                          arith,
                          free,
                          hash_at-drop_nonce w.sender w.nonce p.by_sender e.sender e.nonce,
                        ))
                        (omega (
                          arith,
                          ltb→lt (sender_count e.sender p.by_sender) cfg.max_per_sender
                              (ground arith),
                          sender_count-drop_nonce w.sender w.nonce p.by_sender w.hash e.sender
                              k.kept (k.filed w.hash w at_hash).1,
                        ))),
                )
          ]
        ]
      ]

  -- The entry with the sender and the nonce is there.
  replaced-Added :
      (h : ℕ) (x : Entry) (there : lookup h p.by_hash ≡ some x)
      → x.sender ≡ e.sender
      → x.nonce ≡ e.nonce
      → is_below_bump cfg.price_bump x.price e.price ≡ false
      → Added cfg p e (admit_entry cfg e true (remove_locked h p))
  unfolding admit_entry
  replaced-Added h x there sender nonce bump =
      let r =
        removed-Ready h x there (inl (sender, nonce, bump))
          (ground (arith, hash_at-drop_nonce x.sender x.nonce p.by_sender e.sender e.nonce))
          (ground (
            arith,
            sender_count-drop_nonce x.sender x.nonce p.by_sender h e.sender k.kept
                (k.filed h x there).1,
            k.per_sender e.sender,
          )) in
      let few : leb cfg.max_per_sender (sender_count e.sender (without cfg p k h x there).by_sender)
          ≡ false =
        ground (arith, r.own) in
      let space : leb cfg.max_global (length (without cfg p k h x there).by_hash) ≡ false =
        ground (arith, r.room) in
      inr (
        without cfg p k h x there,
        true,
        rw (remove_locked-without cfg p k h x there, few, space, admit_entry) refl,
        r,
      )

  make_room-Added : Added cfg p e (add_entry cfg e p)
  unfolding add_entry make_room
  make_room-Added =
      let unknown : is_some (lookup e.hash p.by_hash) ≡ false = rw new refl in
      elim (Option-cases (hash_at e.sender e.nonce p.by_sender)) [
        | inl free ↦ rw (unknown, add_entry, free, make_room) (admit-Added free)
        | inr (h, taken) ↦
            let (x, there, sender, nonce) = k.found e.sender e.nonce h taken in
            elim (Bool-cases (cfg.price_bump == 0)) [
              | inl off ↦
                  inl (rbf_disabled, rw (unknown, add_entry, taken, there, off, make_room) refl)
              | inr on ↦ elim (Bool-cases (is_below_bump cfg.price_bump x.price e.price)) [
                | inl low ↦
                    inl (
                      replace_under,
                      rw (unknown, add_entry, taken, there, on, low, make_room) refl,
                    )
                | inr bump ↦
                    rw (unknown, add_entry, taken, there, on, bump, make_room)
                      (replaced-Added h x there sender nonce bump)
              ]
            ]
      ]

pub add-Added :
    (cfg : PoolConfig) (p : Pool) (e : Entry) → Sound cfg p → Added cfg p e (add_entry cfg e p)
unfolding add_entry
add-Added cfg p e k = elim (Option-cases (lookup e.hash p.by_hash)) [
  | inl new ↦ make_room-Added cfg p k e new
  | inr (x, known) ↦ inl (already_known, rw (known, add_entry) refl)
]
