-- ===== src/Vm/Swap/Backed.antt =====
-- core/vm/orderbook_precompile.go: the balance of the precompile of the order book covers the quote
-- that the makers have in escrow.
use dew.Base.{
  ℕ, ◌+◌, ◌^◌, ◌≤◌, ◌<◌, ◌≡◌, not, ◌&&◌, Option, none, some, List, ◌==◌, ltb, arith, if_rule,
  length, ok, err, u256,
}
use dew.Consensus.ValidatorSet.{Address}
use dew.Consensus.Message.{Bytes, from_be}
use dew.Native.Staking.{sub256, set}
use dew.Native.Executor.{add_balance, sub_balance}
use dew.Native.Executor.Supply.{supply}
use dew.Native.Orderbook.{Book}
use dew.Vm.{swap_address}
use dew.Vm.Swap.{
  SwapPrecompile, SwapWorld, Reply, Checked, and_then, pay_quote, erc20_result, erc20_transfer,
  erc20_transfer_from, refund_excess,
}

-- The token contracts leave the balances, the book and the deposit as they are.
abbrev pub CallsKeep : {T : Type 0} → SwapPrecompile T → Type 0
CallsKeep {T} p =
    (token : Address) (input : Bytes) (w : SwapWorld T)
    → ((p.evm_call token input w).0.ledger ≡ w.ledger)
      × ((p.evm_call token input w).0.book ≡ w.book)
      × ((p.evm_call token input w).0.value ≡ w.value)

module _ {T : Type 0} (accounts : List Address) where
  -- The balance of the precompile is a word and covers the quote in escrow and the deposit.
  abbrev pub Backed : SwapWorld T → Type 0
  Backed w =
      (supply w.book.escrow_quote accounts + w.value.amount ≤ w.ledger.balance swap_address)
      × (w.ledger.balance swap_address < 2 ^ 256)

  -- In the middle of a call: the balance covers the escrow of this book, and `n` more.
  abbrev pub Held : ℕ → ℕ → Book → SwapWorld T → Type 0
  Held n value b w =
      (supply b.escrow_quote accounts + n ≤ w.ledger.balance swap_address)
      × (w.ledger.balance swap_address < 2 ^ 256)
      × (w.value.amount ≡ value)
      × (w.book ≡ b)

  -- A reply that is no error holds a state with the property.
  abbrev pub IfOk : Reply T → Type 0
  IfOk (w, ok out) = Backed w
  IfOk (w, err e) = Unit

  abbrev pub IfNone : (SwapWorld T → Type 0) → Checked T → Type 0
  IfNone P (w, none) = P w
  IfNone P (w, some e) = Unit

  pub and_then-IfOk :
      (P : SwapWorld T → Type 0) (c : Checked T) (next : SwapWorld T → Reply T)
      → IfNone P c
      → ((w : SwapWorld T) → P w → IfOk (next w))
      → IfOk (and_then c next)
  unfolding and_then
  and_then-IfOk P (w, some e) next before after = tt
  and_then-IfOk P (w, none) next before after = after w before

  pub pay_quote-Held :
      (who : Address) (amount n value : ℕ) (b : Book) (w : SwapWorld T)
      → Held (n + amount) value b w
      → IfNone (Held n value b) (pay_quote who amount w)
  unfolding pay_quote add_balance sub_balance set sub256 u256
  pay_quote-Held who amount n value b w (covered, fits, same_value, same_book) =
      if_rule (IfNone (Held n value b)) (amount == 0)
        (λ _. (omega (arith, covered), fits, same_value, same_book))
        λ _.
          if_rule (IfNone (Held n value b)) (ltb (w.ledger.balance swap_address) amount) (λ _. tt)
            λ enough.
              (ground (arith, covered, fits), ground (arith, covered, fits), same_value, same_book)

  pub refund_excess-Held :
      (p : SwapPrecompile T) (excess n value : ℕ) (b : Book) (w : SwapWorld T)
      → Held (n + excess) value b w
      → IfNone (Held n value b) (refund_excess p excess w)
  unfolding refund_excess
  refund_excess-Held p excess n value b w held =
      if_rule (IfNone (Held n value b)) (ltb excess (2 ^ 255))
        (λ _. pay_quote-Held p.origin excess n value b w held)
        λ _. (omega (arith, held.0), held.1, held.2, held.3)

  module _ (p : SwapPrecompile T) (calls : CallsKeep p) (n value : ℕ) (b : Book) where
    erc20_result-Held :
        (r : SwapWorld T × Option Bytes)
        → Held n value b r.0
        → IfNone (Held n value b) (erc20_result r)
    unfolding erc20_result
    erc20_result-Held (w, none) held = tt
    erc20_result-Held (w, some ret) held =
        if_rule (IfNone (Held n value b)) (not (length ret == 0) && from_be 0 ret == 0) (λ _. tt)
          λ _. held

    evm_call-Held :
        (token : Address) (input : Bytes) (w : SwapWorld T)
        → Held n value b w
        → Held n value b (p.evm_call token input w).0
    evm_call-Held token input w held =
        let kept = calls token input w in rw (kept.0, kept.1, kept.2) held

    pub erc20_transfer-Held :
        (token receiver : Address) (amount : ℕ) (w : SwapWorld T)
        → Held n value b w
        → IfNone (Held n value b) (erc20_transfer p token receiver amount w)
    unfolding erc20_transfer
    erc20_transfer-Held token receiver amount w held =
        if_rule (IfNone (Held n value b)) (amount == 0) (λ _. held)
          λ _. erc20_result-Held _ (evm_call-Held token _ w held)

    pub erc20_transfer_from-Held :
        (token sender receiver : Address) (amount : ℕ) (w : SwapWorld T)
        → Held n value b w
        → IfNone (Held n value b) (erc20_transfer_from p token sender receiver amount w)
    unfolding erc20_transfer_from
    erc20_transfer_from-Held token sender receiver amount w held =
        if_rule (IfNone (Held n value b)) (amount == 0) (λ _. held)
          λ _. erc20_result-Held _ (evm_call-Held token _ w held)
