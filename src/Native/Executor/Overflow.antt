-- ===== src/Native/Executor/Overflow.antt =====
-- core/native/executor.go: what a total debit of 2^256 does.
use dew.Base.{
  ℕ, ◌+◌, ◌^◌, ◌≤◌, ◌<◌, ◌≡◌, ◌≢◌, refl, true, false, none, some, [], ◌∷◌, arith, ◌∙◌, ltb, u256,
  ok, ◌==◌,
}
use dew.Consensus.ValidatorSet.{Address}
use dew.Native.Staking.{Ledger, set, sub256}
use dew.Native.Executor.{
  DewTx, Executor, TxResult, add_balance, sub_balance, distribute_proposer_income, fee_of,
  is_listed, parse_payload, require, debit, credit_extra, move_amounts, mutate, execute, admit,
  apply_dew_tx, dew_tx_version, min_fee,
}

module _ (e : Executor) (tx : DewTx) (l : Ledger) (x : ℕ) (amount : tx.amount ≡ some x)
    (wraps : x + fee_of tx ≡ 2 ^ 256) (no_payload : tx.payload ≡ []) where
  debit-wraps : debit tx none ≡ 0
  unfolding debit u256
  debit-wraps = ground arith

  admit-transfer : admit e tx ≡ ok none
  unfolding admit parse_payload require is_listed
  admit-transfer = rw no_payload (ground arith)

  abbrev transferred : TxResult
  transferred = record {
    fee_paid = fee_of tx;
    failed = none;
    touched = tx.sender ∷ tx.receiver ∷ e.fee_sink ∷ [];
  }

  passes :
      tx.version ≡ dew_tx_version
      → l.nonce tx.sender ≡ tx.nonce
      → min_fee ≤ fee_of tx
      → apply_dew_tx e tx l ≡ (mutate e tx none l, ok transferred)
  unfolding apply_dew_tx execute
  passes version nonce fee =
      let v : (tx.version == dew_tx_version) ≡ true = ground arith in
      let f : ltb (fee_of tx) min_fee ≡ false = ground arith in
      let n : (l.nonce tx.sender == tx.nonce) ≡ true = ground arith in
      let p : ltb (l.balance tx.sender) (debit tx none) ≡ false = ground (arith, debit-wraps) in
      rw (v, f, n, admit-transfer, p) refl

  -- The balance of an account after the transfer, where the fee goes elsewhere.
  balance-moved :
      (a : Address)
      → e.staking_enabled ≡ false
      → e.fee_sink ≢ a
      → (mutate e tx none l).balance a ≡ (move_amounts tx none l).balance a
  unfolding mutate distribute_proposer_income add_balance set
  balance-moved a off sink = ground arith

  balance-sender :
      tx.receiver ≢ tx.sender
      → l.balance tx.sender < 2 ^ 256
      → (move_amounts tx none l).balance tx.sender ≡ l.balance tx.sender
  unfolding move_amounts credit_extra add_balance sub_balance sub256 set u256
  balance-sender other bounded = ground (arith, debit-wraps)

  balance-receiver :
      tx.receiver ≢ tx.sender
      → l.balance tx.receiver < 2 ^ 256
      → (move_amounts tx none l).balance tx.receiver ≡ u256 (l.balance tx.receiver + x)
  unfolding move_amounts credit_extra add_balance sub_balance set u256
  balance-receiver other bounded = ground arith

  -- A transfer with no payload, of the right version and nonce and with enough of a fee, whose
  -- amount and fee add up to 2^256, while staking is off, sender, receiver and fee sink differ and
  -- balances are below 2^256: it succeeds whatever its sender owns, leaves the balance of the
  -- sender as it is, and adds the amount to that of the receiver.
  pub apply_dew_tx-wraps :
      tx.version ≡ dew_tx_version
      → l.nonce tx.sender ≡ tx.nonce
      → min_fee ≤ fee_of tx
      → l.balance tx.sender < 2 ^ 256
      → tx.receiver ≢ tx.sender
      → e.fee_sink ≢ tx.sender
      → e.fee_sink ≢ tx.receiver
      → l.balance tx.receiver < 2 ^ 256
      → e.staking_enabled ≡ false
      → ((apply_dew_tx e tx l).1 ≡ ok transferred)
        × ((apply_dew_tx e tx l).0.balance tx.sender ≡ l.balance tx.sender)
        × ((apply_dew_tx e tx l).0.balance tx.receiver ≡ u256 (l.balance tx.receiver + x))
  apply_dew_tx-wraps version nonce fee bounded other sink sink' bounded' off =
      rw (passes version nonce fee) (
        refl,
        balance-moved tx.sender off sink ∙ balance-sender other bounded,
        balance-moved tx.receiver off sink' ∙ balance-receiver other bounded',
      )
