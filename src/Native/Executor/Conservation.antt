-- ===== src/Native/Executor/Conservation.antt =====
-- core/native/executor.go: a native transaction neither makes nor destroys balance.
use dew.Base.{
  ℕ, ◌+◌, ◌^◌, ◌≤◌, ◌<◌, ◌≡◌, refl, ◌∙◌, Bool, true, Option, none, some, List, [], ◌∷◌, ◌++◌, ltb,
  ◌==◌, if◌then◌else◌, Bool-cases, inl, inr, arith, u256, Result, ok, err, >>=-eq-ok,
}
use dew.Consensus.ValidatorSet.{Address}
use dew.Native.Staking.{Ledger, module_address, sub256}
use dew.Native.Executor.{
  DewTx, Executor, TxError, TxResult, add_balance, sub_balance, validator_part, credit_delegators,
  split_income, distribute_proposer_income, fee_of, amount_of, is_listed, allowed, parse_payload,
  require, extra_amount, debit, credit_extra, move_amounts, mutate, execute, admit, apply_dew_tx,
  fail_result,
}
use dew.Native.Executor.Supply.{supply, Once, supply-add_balance, supply-sub_balance}

module _ (accounts : List Address) (once : Once accounts) (p : Address)
    (p_in : is_listed p accounts ≡ true)
    (module_in : is_listed module_address accounts ≡ true) where
  supply-credit_delegators :
      (part : ℕ) (l : Ledger)
      → supply l.balance accounts + part < 2 ^ 256
      → supply (credit_delegators p part l).balance accounts ≡ supply l.balance accounts + part
  unfolding credit_delegators
  supply-credit_delegators part l fits = ground (
    arith,
    supply-add_balance accounts once p part l p_in fits,
    supply-add_balance accounts once module_address part l module_in fits,
  )

  supply-split_income :
      (gets part : ℕ) (l : Ledger)
      → supply l.balance accounts + (gets + part) < 2 ^ 256
      → supply (split_income p gets part l).balance accounts
        ≡ supply l.balance accounts + (gets + part)
  unfolding split_income
  supply-split_income gets part l fits = elim (Bool-cases (gets == 0)) [
    | inl e ↦ ground (arith, supply-credit_delegators part l (omega arith))
    | inr e ↦
        let first = supply-add_balance accounts once p gets l p_in (omega arith) in
        ground (
          arith,
          first,
          supply-credit_delegators part (add_balance p gets l) (omega (arith, first)),
        )
  ]

  -- All of an income reaches the proposer and the module's escrow.
  pub supply-distribute :
      (staking_enabled : Bool) (amount : ℕ) (l : Ledger)
      → supply l.balance accounts + amount < 2 ^ 256
      → supply (distribute_proposer_income staking_enabled p amount l).balance accounts
        ≡ supply l.balance accounts + amount
  unfolding distribute_proposer_income
  supply-distribute staking_enabled amount l fits =
      let split =
        supply-split_income (validator_part l.staking p amount)
          (sub256 amount (validator_part l.staking p amount)) l (omega (arith, parts)) in
      ground (arith, split, parts, supply-add_balance accounts once p amount l p_in fits)
    where
      parts :
          validator_part l.staking p amount + sub256 amount (validator_part l.staking p amount)
          ≡ amount
      parts = unfold validator_part sub256 u256 in ground arith

-- What a transaction takes from its sender, with no wrap-around.
abbrev pub total_debit : DewTx → Result TxError (Option (Address × ℕ)) → ℕ
total_debit tx (err x) = 0
total_debit tx (ok extra) = amount_of tx + extra_amount extra + fee_of tx

is_listed_tail :
    (a b : Address) (accounts : List Address)
    → is_listed a accounts ≡ true
    → is_listed a (b ∷ accounts) ≡ true
unfolding is_listed
is_listed_tail a b accounts h = ground arith

is_listed_head : (a : Address) (accounts : List Address) → is_listed a (a ∷ accounts) ≡ true
unfolding is_listed
is_listed_head a accounts = ground arith

is_listed_last : (a : Address) (accounts : List Address) → is_listed a (accounts ++ a ∷ []) ≡ true
is_listed_last a [] = is_listed_head a []
is_listed_last a (b ∷ accounts) =
    is_listed_tail a b (accounts ++ a ∷ []) (is_listed_last a accounts)

-- The accounts that the second credit goes to are among those listed.
abbrev ExtraIn : List Address → Option (Address × ℕ) → Type 0
ExtraIn accounts none = Unit
ExtraIn accounts (some (a, x)) = is_listed a accounts ≡ true

required :
    (accounts : List Address) (extra : Option (Address × ℕ)) (u : Unit {0})
    → require accounts extra ≡ ok u
    → ExtraIn accounts extra
unfolding require
required accounts none u h = tt
required accounts (some (a, x)) u h = ground arith

admitted :
    (e : Executor) (tx : DewTx) (extra : Option (Address × ℕ))
    → admit e tx ≡ ok extra
    → (parse_payload tx.payload ≡ ok extra) × ExtraIn (allowed e tx) extra
unfolding admit
admitted e tx extra h =
    let (found, parsed, rest) = >>=-eq-ok (parse_payload tx.payload) _ h in
    let (u, allows, rest') = >>=-eq-ok (require (allowed e tx) found) _ rest in
    let same : found ≡ extra = ground arith in
    (rw (← same) parsed, rw (← same) (required (allowed e tx) found u allows))

supply-credit_extra :
    (accounts : List Address) (extra : Option (Address × ℕ)) (m : Ledger)
    → Once accounts
    → ExtraIn accounts extra
    → supply m.balance accounts + extra_amount extra < 2 ^ 256
    → supply (credit_extra extra m).balance accounts
      ≡ supply m.balance accounts + extra_amount extra
unfolding credit_extra
supply-credit_extra accounts none m once a lt = omega arith
supply-credit_extra accounts (some (a, x)) m once a_in lt =
    ground (arith, supply-add_balance accounts once a x m a_in lt)

module _ (e : Executor) (tx : DewTx) (l : Ledger) (accounts : List Address) (once : Once accounts)
    (covers : (a : Address) → is_listed a (allowed e tx) ≡ true → is_listed a accounts ≡ true)
    (module_in : is_listed module_address accounts ≡ true)
    (fits : supply l.balance accounts < 2 ^ 256) where
  sender_in : is_listed tx.sender accounts ≡ true
  sender_in = covers tx.sender (is_listed_head tx.sender _)

  receiver_in : is_listed tx.receiver accounts ≡ true
  receiver_in =
      covers tx.receiver (is_listed_tail tx.receiver tx.sender _ (is_listed_head tx.receiver _))

  sink_in : is_listed e.fee_sink accounts ≡ true
  sink_in = covers e.fee_sink (
      is_listed_tail e.fee_sink tx.sender _
        (is_listed_tail e.fee_sink tx.receiver _ (is_listed_last e.fee_sink tx.access_list)))

  module _ (extra : Option (Address × ℕ)) (extra_in : ExtraIn accounts extra)
      (small : amount_of tx + extra_amount extra + fee_of tx < 2 ^ 256) where
    debit-exact : debit tx extra ≡ amount_of tx + extra_amount extra + fee_of tx
    unfolding debit u256
    debit-exact = ground arith

    module _ (enough : debit tx extra ≤ l.balance tx.sender) where
      abbrev paid : Ledger
      paid = sub_balance tx.sender (debit tx extra) l

      supply-paid : supply paid.balance accounts + debit tx extra ≡ supply l.balance accounts
      supply-paid =
          supply-sub_balance accounts once tx.sender (debit tx extra) l sender_in fits enough

      abbrev received : Ledger
      received = if amount_of tx == 0 then paid else add_balance tx.receiver (amount_of tx) paid

      supply-received :
          supply received.balance accounts ≡ supply paid.balance accounts + amount_of tx
      supply-received = ground (
        arith,
        supply-add_balance accounts once tx.receiver (amount_of tx) paid receiver_in
            (omega (arith, supply-paid, debit-exact)),
      )

      supply-move_amounts :
          supply (move_amounts tx extra l).balance accounts + fee_of tx ≡ supply l.balance accounts
      unfolding move_amounts
      supply-move_amounts = omega (
        arith,
        supply-paid,
        supply-received,
        debit-exact,
        supply-credit_extra accounts extra received once extra_in
            (omega (arith, supply-paid, supply-received, debit-exact)),
      )

      supply-mutate : supply (mutate e tx extra l).balance accounts ≡ supply l.balance accounts
      unfolding mutate
      supply-mutate =
          supply-distribute accounts once e.fee_sink sink_in module_in e.staking_enabled (fee_of tx)
            (move_amounts tx extra l) (omega (arith, supply-move_amounts))
          ∙ supply-move_amounts

    supply-execute : supply (execute e tx extra l).0.balance accounts ≡ supply l.balance accounts
    unfolding execute
    supply-execute = elim (Bool-cases (ltb (l.balance tx.sender) (debit tx extra))) [
      | inl poor ↦ rw poor refl
      | inr rich ↦ rw rich (supply-mutate (ground arith))
    ]

  abbrev Keeps : Ledger × Result TxError TxResult → Type 0
  Keeps r = supply r.0.balance accounts ≡ supply l.balance accounts

  supply-admitted :
      (r : Result TxError (Option (Address × ℕ)))
      → admit e tx ≡ r
      → total_debit tx (parse_payload tx.payload) < 2 ^ 256
      → Keeps (elim r [ err x ↦ (l, ok (fail_result x)) | ok extra ↦ execute e tx extra l ])
  supply-admitted (err x) h small = refl
  supply-admitted (ok extra) h small =
      let (parsed, extra_in) = admitted e tx extra h in
      supply-execute extra (in_accounts extra extra_in) (rw parsed at small)
    where
      in_accounts :
          (extra : Option (Address × ℕ)) → ExtraIn (allowed e tx) extra → ExtraIn accounts extra
      in_accounts none a = tt
      in_accounts (some (a, x)) a_in = covers a a_in

  -- ApplyDewTx, whatever its outcome, keeps the sum of the balances of any accounts, listed once
  -- each, that include those it may touch and the staking module, while that sum and the total
  -- debit are below 2^256.
  pub supply-apply_dew_tx :
      total_debit tx (parse_payload tx.payload) < 2 ^ 256
      → supply (apply_dew_tx e tx l).0.balance accounts ≡ supply l.balance accounts
  unfolding apply_dew_tx
  supply-apply_dew_tx small = ground (arith, supply-admitted (admit e tx) refl small)
