-- ===== src/Mempool/History.antt =====
-- mempool/pool.go: a pool after any calls of AddEVM, AddDew and Remove.
use dew.Base.{
  ℕ, ◌≤◌, ◌≡◌, ◌⊎◌, refl, sym, subst, ◌∙◌, false, Option, none, some, List, [], ◌∷◌, ◌==◌, ltb,
  if_rule, lookup, length, Bool-cases, Option-cases, inl, inr, arith, Result, ok, err,
  lookup-insert,
}
use dew.Consensus.ValidatorSet.{Address}
use dew.Mempool.{
  Entry, Kind, kind_evm, kind_dew, Pool, PoolError, new_pool, hash_at, sender_count, remove_locked,
  store, note_reject, add_entry, invalid_tx, tx_too_large, wrong_chain, underpriced,
}
use dew.Mempool.Config.{PoolConfig}
use dew.Mempool.Admission.{
  EthTx, PoolDewTx, add_evm, add_dew, evm_entry, dew_entry, evm_price, dynamic_price, legacy_price,
  price_floor, raw_bytes, wrong_evm_chain, wrong_dew_chain, dew_fee, tip_floor,
}
use dew.Mempool.Invariant.{
  Sound, without-Sound, without-lookup, remove_locked-without, stored-Sound,
}
use dew.Mempool.Adding.{add-Added}

pub data PoolCall : Type 0 where
  call_evm : (tx : EthTx) (sender : Address) (raw : List ℕ) (local : Option ℕ) → PoolCall
  call_dew : (tx : PoolDewTx) (raw : List ℕ) (local : Option ℕ) → PoolCall
  call_remove : (hash : ℕ) → PoolCall

module _ (cfg : PoolConfig) where
  -- Size and price of what may be in the pool.
  abbrev pub AtFloor : Kind → ℕ → Type 0
  AtFloor kind_evm price = price_floor cfg price ≡ false
  AtFloor kind_dew price = cfg.min_dew_fee ≤ price

  abbrev pub Admissible : Entry → Type 0
  Admissible e = (e.size ≡ length e.raw) × (e.size ≤ cfg.max_tx_bytes) × AtFloor e.kind e.price

  -- A call of AddEVM or AddDew is refused, or adds an entry.
  abbrev pub Offers : Pool → Pool × Result PoolError ℕ → Type 0
  Offers p r =
      ((x : PoolError) × (r ≡ (note_reject x p, err x)))
      ⊎ ((e : Entry) × Admissible e × (r ≡ add_entry cfg e p))

  -- A price is refused, or it is at the floor.
  abbrev Priced : Result PoolError (ℕ × Option ℕ) → Type 0
  Priced r =
      ((x : PoolError) × (r ≡ err x))
      ⊎ ((price : ℕ) × (tip : Option ℕ) × (r ≡ ok (price, tip)) × (price_floor cfg price ≡ false))

  dynamic_price-Priced : (fee tip : Option ℕ) → Priced (dynamic_price cfg fee tip)
  unfolding dynamic_price
  dynamic_price-Priced none tip = inl (invalid_tx, refl)
  dynamic_price-Priced (some fee) none = inl (invalid_tx, refl)
  dynamic_price-Priced (some fee) (some tip) = elim (Bool-cases (price_floor cfg fee)) [
    | inl low ↦ inl (underpriced, rw low refl)
    | inr high ↦ elim (Bool-cases (tip_floor cfg tip)) [
      | inl low ↦ inl (underpriced, rw (high, low) refl)
      | inr enough ↦ inr (fee, some tip, rw (high, enough) refl, high)
    ]
  ]

  legacy_price-Priced : (price : Option ℕ) → Priced (legacy_price cfg price)
  unfolding legacy_price
  legacy_price-Priced none = inl (underpriced, refl)
  legacy_price-Priced (some price) = elim (Bool-cases (price_floor cfg price)) [
    | inl low ↦ inl (underpriced, rw low refl)
    | inr high ↦ inr (price, none, rw high refl, high)
  ]

  evm_price-Priced : (tx : EthTx) → Priced (evm_price cfg tx)
  unfolding evm_price
  evm_price-Priced tx =
      if_rule Priced tx.is_dynamic_fee (λ _. dynamic_price-Priced tx.gas_fee_cap tx.gas_tip_cap)
        λ _. legacy_price-Priced tx.gas_price

  add_evm-Offers :
      (tx : EthTx) (sender : Address) (raw : List ℕ) (local : Option ℕ) (p : Pool)
      → Offers p (add_evm cfg tx sender raw local p)
  unfolding add_evm evm_entry
  add_evm-Offers tx sender raw local p = elim (Option-cases (raw_bytes raw tx.marshal)) [
    | inl e ↦ rw (e, add_evm) (inl (invalid_tx, refl))
    | inr (bytes, e) ↦ elim (Bool-cases (ltb cfg.max_tx_bytes (length bytes))) [
      | inl large ↦ inl (tx_too_large, rw (e, add_evm, large) refl)
      | inr fits ↦ elim (Bool-cases (wrong_evm_chain cfg tx.chain_id local)) [
        | inl wrong ↦ inl (wrong_chain, rw (e, add_evm, fits, wrong) refl)
        | inr right ↦ elim (evm_price-Priced tx) [
          | inl (x, refused) ↦ inl (x, rw (e, add_evm, fits, right, refused) refl)
          | inr (price, tip, priced, high) ↦ inr (
            evm_entry cfg tx sender bytes (price, tip),
            (refl, ground arith, high),
            rw (e, add_evm, fits, right, priced) refl,
          )
        ]
      ]
    ]
  ]

  add_dew-Offers :
      (tx : PoolDewTx) (raw : List ℕ) (local : Option ℕ) (p : Pool)
      → Offers p (add_dew cfg tx raw local p)
  unfolding add_dew dew_entry
  add_dew-Offers tx raw local p = elim (Option-cases (raw_bytes raw tx.marshal)) [
    | inl e ↦ rw (e, add_dew) (inl (invalid_tx, refl))
    | inr (bytes, e) ↦ elim (Bool-cases (ltb cfg.max_tx_bytes (length bytes))) [
      | inl large ↦ inl (tx_too_large, rw (e, add_dew, large) refl)
      | inr fits ↦ elim (Bool-cases (wrong_dew_chain cfg tx.chain_id local)) [
        | inl wrong ↦ inl (wrong_chain, rw (e, add_dew, fits, wrong) refl)
        | inr right ↦ elim (Bool-cases (ltb (dew_fee cfg tx.fee) cfg.min_dew_fee)) [
          | inl low ↦ inl (underpriced, rw (e, add_dew, fits, right, low) refl)
          | inr high ↦ inr (
            dew_entry cfg tx bytes,
            (refl, ground arith, ground arith),
            rw (e, add_dew, fits, right, high) refl,
          )
        ]
      ]
    ]
  ]

  -- A call: the pool after it, and what it returns.
  abbrev pub perform_call : PoolCall → Pool → Pool × Result PoolError ℕ
  perform_call (call_evm tx sender raw local) p = add_evm cfg tx sender raw local p
  perform_call (call_dew tx raw local) p = add_dew cfg tx raw local p
  perform_call (call_remove hash) p = (remove_locked hash p, ok hash)

  -- The calls in their order, the last one first.
  unfoldable pub after_calls : List PoolCall → Pool
  after_calls [] = new_pool
  after_calls (c ∷ calls) = (perform_call c (after_calls calls)).0

  -- Sound, and every entry could be admitted.
  abbrev Good : Pool → Type 0
  Good p = Sound cfg p × ((h : ℕ) (e : Entry) → lookup h p.by_hash ≡ some e → Admissible e)

  rejected-Good : (x : PoolError) (p : Pool) → Good p → Good (note_reject x p)
  unfolding note_reject
  rejected-Good x p (k, priced) = (
    record {
      unique = k.unique;
      kept = k.kept;
      filed = k.filed;
      found = k.found;
      global = k.global;
      per_sender = k.per_sender;
    },
    priced,
  )

  offered-Good : (p : Pool) (r : Pool × Result PoolError ℕ) → Good p → Offers p r → Good r.0
  unfolding store
  offered-Good p r (k, priced) offers = elim offers [
    | inl (x, refused) ↦ rw refused (rejected-Good x p (k, priced))
    | inr (e, fine, adds) ↦ elim (add-Added cfg p e k) [
      | inl (x, refused) ↦ rw (adds, refused) (rejected-Good x p (k, priced))
      | inr (q, replaced, stores, r) ↦
          rw (adds, stores)
            (
              stored-Sound cfg q r.sound e replaced r.new r.free r.room r.own,
              λ h x there. elim (Bool-cases (e.hash == h)) [
                | inl same ↦
                    let here : some e ≡ some x =
                      sym (rw same at (lookup-insert e.hash h e q.by_hash)) ∙ there in
                    let is : e ≡ x = cc in subst Admissible is fine
                | inr other ↦ priced h x (
                    r.only_old h x (sym (rw other at (lookup-insert e.hash h e q.by_hash)) ∙ there))
              ],
            )
    ]
  ]

  removed-Good : (h : ℕ) (p : Pool) → Good p → Good (remove_locked h p)
  unfolding remove_locked
  removed-Good h p (k, priced) = elim (Option-cases (lookup h p.by_hash)) [
    | inl e ↦ rw (e, remove_locked) (k, priced)
    | inr (e, there) ↦ rw (remove_locked-without cfg p k h e there) (
      without-Sound cfg p k h e there,
      λ j x at_j. priced j x (ground (arith, without-lookup cfg p k h e there j)),
    )
  ]

  pub perform_call-Good : (c : PoolCall) (p : Pool) → Good p → Good (perform_call c p).0
  perform_call-Good (call_evm tx sender raw local) p g =
      offered-Good p _ g (add_evm-Offers tx sender raw local p)
  perform_call-Good (call_dew tx raw local) p g = offered-Good p _ g (add_dew-Offers tx raw local p)
  perform_call-Good (call_remove hash) p g = removed-Good hash p g

  new_pool-Sound : Sound cfg new_pool
  unfolding lookup hash_at sender_count
  new_pool-Sound = record {
    unique = tt;
    kept = λ s m h. cc;
    filed = λ h e there. cc;
    found = λ s n h there. cc;
    global = omega arith;
    per_sender = λ s. omega arith;
  }

  pub after_calls-Good : (calls : List PoolCall) → Good (after_calls calls)
  unfolding after_calls lookup
  after_calls-Good [] = (new_pool-Sound, λ h e there. cc)
  after_calls-Good (c ∷ calls) = perform_call-Good c (after_calls calls) (after_calls-Good calls)

  -- After any calls of AddEVM, AddDew and Remove on a new pool, whatever the configuration, the
  -- index by hash and the index by sender and nonce hold the same transactions, each under its own
  -- hash, sender and nonce; the pool holds at most MaxGlobal transactions, and no sender has more
  -- than MaxPerSender.
  pub after_calls-Sound : (calls : List PoolCall) → Sound cfg (after_calls calls)
  after_calls-Sound calls = (after_calls-Good calls).0

  -- After any such calls, every transaction of the pool has the size of its bytes, at most
  -- MaxTxBytes; the price of an EVM transaction is not below MinGasPriceWei, where that is set, and
  -- the fee of a DewTx is at least MinDewFeeWei.
  pub after_calls-Admissible :
      (calls : List PoolCall) (h : ℕ) (e : Entry)
      → lookup h (after_calls calls).by_hash ≡ some e
      → Admissible e
  after_calls-Admissible calls = (after_calls-Good calls).1
