-- ===== src/Vm/Swap/Paying.antt =====
-- core/vm/orderbook_precompile.go: a call of Run that succeeds keeps the quote in escrow backed.
use dew.Base.{
  ℕ, ◌≡◌, ◌⊎◌, subst, true, not, some, List, [], ◌∷◌, ◌==◌, if_rule, Option-cases, inl, inr, length,
  ok, err, u64,
}
use dew.Consensus.ValidatorSet.{Address}
use dew.Consensus.Message.{Bytes}
use dew.Native.Executor.{is_listed}
use dew.Native.Executor.Supply.{Once}
use dew.Native.Orderbook.{Order, order_side_buy, order_side_sell, get_order}
use dew.Native.Orderbook.Payouts.{cancel-Refunded}
use dew.Native.Orderbook.Quotes.{get_order-same}
use dew.Vm.{bytes_at}
use dew.Vm.Swap.{SwapPrecompile, SwapWorld, Reply, cancel_call, fill_call}
use dew.Vm.Swap.Run.{get_order_call, best_call, escrow_call, run_swap_method, run_swap}
use dew.Vm.Swap.Backed.{CallsKeep, Backed, IfOk}
use dew.Vm.Swap.Handlers.{place-IfOk, refunded-IfOk, fill_found-IfOk}

module _ {T : Type 0} (p : SwapPrecompile T) (calls : CallsKeep p) (accounts : List Address)
    (once : Once accounts) (origin_listed : is_listed p.origin accounts ≡ true) where
  module _ (w : SwapWorld T)
      (makers : (id : ℕ) → is_listed (w.book.orders id).maker accounts ≡ true)
      (sided : (id : ℕ)
        → ((w.book.orders id).side ≡ order_side_buy) ⊎ ((w.book.orders id).side ≡ order_side_sell))
      (backed : Backed accounts w) where
    found-maker :
        (id : ℕ) (o : Order) → get_order id w.book ≡ some o → is_listed o.maker accounts ≡ true
    found-maker id o found =
        subst (λ (x : Order). is_listed x.maker accounts ≡ true) (get_order-same id o w.book found)
          (makers id)

    fill_call-IfOk : (args : Bytes) → IfOk accounts (fill_call p args w)
    unfolding fill_call
    fill_call-IfOk args =
        let id = u64 (bytes_at 0 32 args) in
        if_rule (IfOk accounts) (not (length args == 64)) (λ _. tt)
          λ _. elim (Option-cases (get_order id w.book)) [
            | inl missing ↦ rw missing tt
            | inr (o, found) ↦ rw found (
                fill_found-IfOk p calls accounts once origin_listed o id _ w backed found
                  (found-maker id o found)
                  (subst (λ (x : Order). (x.side ≡ order_side_buy) ⊎ (x.side ≡ order_side_sell))
                    (get_order-same id o w.book found) (sided id)))
          ]

    get_order_call-IfOk : (args : Bytes) → IfOk accounts (get_order_call args w)
    unfolding get_order_call
    get_order_call-IfOk args =
        if_rule (IfOk accounts) (not (length args == 32)) (λ _. tt)
          λ _. elim (Option-cases (get_order (u64 (bytes_at 0 32 args)) w.book)) [
            | inl missing ↦ rw missing backed
            | inr (o, found) ↦ rw found backed
          ]

    run_swap_method-IfOk :
        (method : ℕ) (args : Bytes) → IfOk accounts (run_swap_method p method args w)
    unfolding run_swap_method cancel_call best_call escrow_call
    run_swap_method-IfOk m args =
        if_rule (IfOk accounts) (m == 0)
          (λ _. place-IfOk p calls accounts once origin_listed args w backed)
          λ _.
            if_rule (IfOk accounts) (m == 1)
              (λ _.
                if_rule (IfOk accounts) (not (length args == 32)) (λ _. tt)
                  λ _. refunded-IfOk p calls accounts once origin_listed _ w backed (
                    cancel-Refunded accounts once p.origin (u64 (bytes_at 0 32 args)) w.book
                      (found-maker (u64 (bytes_at 0 32 args)))))
              λ _.
                if_rule (IfOk accounts) (m == 2) (λ _. fill_call-IfOk args)
                  λ _.
                    if_rule (IfOk accounts) (m == 3) (λ _. get_order_call-IfOk args)
                      λ _.
                        if_rule (IfOk accounts) (m == 4)
                          (λ _.
                            if_rule (IfOk accounts) (not (length args == 20)) (λ _. tt) λ _. backed)
                          λ _.
                            if_rule (IfOk accounts) (m == 5)
                              (λ _.
                                if_rule (IfOk accounts) (not (length args == 20)) (λ _. tt)
                                  λ _. backed)
                              λ _.
                                if_rule (IfOk accounts) (m == 6)
                                  (λ _.
                                    if_rule (IfOk accounts) (not (length args == 40)) (λ _. tt)
                                      λ _. backed)
                                  λ _. tt

    run_swap-IfOk : (input : Bytes) → IfOk accounts (run_swap p input w)
    unfolding run_swap
    run_swap-IfOk [] = if_rule (IfOk accounts) p.enabled (λ _. tt) λ _. tt
    run_swap-IfOk (m ∷ args) =
        if_rule (IfOk accounts) p.enabled (λ _. run_swap_method-IfOk m args) λ _. tt

-- Where the balance of the precompile of the order book is a uint256 and covers the quote in escrow,
-- summed over any accounts that are listed once each, and the deposit, it does so after each call
-- that succeeds, with any input. The accounts include the sender of the message and the makers of
-- the orders, each order has a side, and the token contracts leave the balances, the book and the
-- deposit as they are.
pub run_swap-Backed :
    {T : Type 0} (p : SwapPrecompile T) (accounts : List Address) (input : Bytes) (w : SwapWorld T)
    (out : Bytes)
    → CallsKeep p
    → Once accounts
    → is_listed p.origin accounts ≡ true
    → ((id : ℕ) → is_listed (w.book.orders id).maker accounts ≡ true)
    → ((id : ℕ)
        → ((w.book.orders id).side ≡ order_side_buy) ⊎ ((w.book.orders id).side ≡ order_side_sell))
    → Backed accounts w
    → (run_swap p input w).1 ≡ ok out
    → Backed accounts (run_swap p input w).0
run_swap-Backed {T = T} p accounts input w out calls once origin_listed makers sided backed done =
    read (run_swap p input w)
      (run_swap-IfOk p calls accounts once origin_listed w makers sided backed input) done
  where
    read : (r : Reply T) → IfOk accounts r → r.1 ≡ ok out → Backed accounts r.0
    read (w', ok o) held is = held
    read (w', err e) held is = absurd cc
