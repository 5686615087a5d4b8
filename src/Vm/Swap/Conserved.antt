-- ===== src/Vm/Swap/Conserved.antt =====
-- core/vm/orderbook_precompile.go: the precompile of the order book neither makes nor loses money.
use dew.Base.{
  subst, ℕ, ◌^◌, ◌<◌, ◌≡◌, refl, true, not, Option, none, some, List, [], ◌∷◌, ◌==◌, if◌then◌else◌,
  if_rule, length, ok, err, u64,
}
use dew.Consensus.ValidatorSet.{Address}
use dew.Consensus.Message.{Bytes}
use dew.Native.Executor.{is_listed}
use dew.Native.Executor.Supply.{supply, Once}
use dew.Native.Orderbook.{Order, get_order, order_not_found}
use dew.Native.Orderbook.Makers.{Makers-cancel}
use dew.Native.Orderbook.Quotes.{get_order-same}
use dew.Vm.{swap_address, bytes_at}
use dew.Vm.Swap.{
  SwapPrecompile, SwapWorld, Reply, bad_input, book_failed, cancel_call, fill_found, fill_call,
}
use dew.Vm.Swap.Run.{
  packed_order, get_order_call, best_call, escrow_call, run_swap_method, run_swap,
}
use dew.Vm.Swap.Sums.{MakersListed, Kept, CallsConserve, place-Sum, refunded-Sum, fill_found-Sum}

module _ {T : Type 0} (p : SwapPrecompile T) (accounts : List Address) (once : Once accounts)
    (module_listed : is_listed swap_address accounts ≡ true)
    (origin_listed : is_listed p.origin accounts ≡ true) (calls : CallsConserve p accounts)
    (sum : ℕ) (fits : sum < 2 ^ 256) where
  module _ (w : SwapWorld T) (before : Kept accounts sum w) where
    fill_call-Sum : (args : Bytes) → Kept accounts sum (fill_call p args w).0
    unfolding fill_call
    fill_call-Sum args =
        if_rule (λ (r : Reply T). Kept accounts sum r.0) (not (length args == 64)) (λ _. before)
          λ _. read (get_order (u64 (bytes_at 0 32 args)) w.book) refl
      where
        read :
            (found : Option Order)
            → get_order (u64 (bytes_at 0 32 args)) w.book ≡ found
            → Kept accounts sum
                (elim found as (λ _. Reply T) [
                  | none ↦ (w, err (book_failed order_not_found))
                  | some o ↦ fill_found p (u64 (bytes_at 0 32 args)) (bytes_at 32 32 args) o w
                ]).0
        read none is = before
        read (some o) is =
            fill_found-Sum p accounts once module_listed origin_listed calls sum fits o
              (subst (λ (x : Order). is_listed x.maker accounts ≡ true)
                (get_order-same _ o w.book is) (before.1 _))
              _ _ w before

    get_order_call-Sum : (args : Bytes) → Kept accounts sum (get_order_call args w).0
    unfolding get_order_call
    get_order_call-Sum args =
        if_rule (λ (r : Reply T). Kept accounts sum r.0) (not (length args == 32)) (λ _. before)
          λ _. read (get_order (u64 (bytes_at 0 32 args)) w.book)
      where
        read :
            (found : Option Order)
            → Kept accounts sum
                (elim found as (λ _. Reply T) [
                  | none ↦ (w, ok [])
                  | some o ↦ (w, ok (packed_order (u64 (bytes_at 0 32 args)) o))
                ]).0
        read none = before
        read (some o) = before

    run_swap_method-Sum :
        (method : ℕ) (args : Bytes) → Kept accounts sum (run_swap_method p method args w).0
    unfolding run_swap_method cancel_call best_call escrow_call
    run_swap_method-Sum m args =
        if_rule (λ (r : Reply T). Kept accounts sum r.0) (m == 0)
          (λ _. place-Sum p accounts once module_listed origin_listed calls sum fits args w before)
          λ _.
            if_rule (λ (r : Reply T). Kept accounts sum r.0) (m == 1)
              (λ _.
                if_rule (λ (r : Reply T). Kept accounts sum r.0) (not (length args == 32))
                  (λ _. before)
                  λ _.
                    refunded-Sum p accounts once module_listed origin_listed calls sum fits _ w
                      before
                      (Makers-cancel (λ a. is_listed a accounts ≡ true) w.book before.1 p.origin
                        (u64 (bytes_at 0 32 args))))
              λ _.
                if_rule (λ (r : Reply T). Kept accounts sum r.0) (m == 2) (λ _. fill_call-Sum args)
                  λ _.
                    if_rule (λ (r : Reply T). Kept accounts sum r.0) (m == 3)
                      (λ _. get_order_call-Sum args)
                      λ _.
                        if_rule (λ (r : Reply T). Kept accounts sum r.0) (m == 4) (λ _. sized 20 _)
                          λ _.
                            if_rule (λ (r : Reply T). Kept accounts sum r.0) (m == 5)
                              (λ _. sized 20 _)
                              λ _.
                                if_rule (λ (r : Reply T). Kept accounts sum r.0) (m == 6)
                                  (λ _. sized 40 _) λ _. before
      where
        sized :
            (n : ℕ) (out : Bytes)
            → Kept accounts sum
                (if◌then◌else◌ {A = Reply T}
                  (not (length args == n))
                  (w, err bad_input)
                  (w, ok out)).0
        sized n out =
            if_rule (λ (r : Reply T). Kept accounts sum r.0) (not (length args == n)) (λ _. before)
              λ _. before

    run_swap-Sum : (input : Bytes) → Kept accounts sum (run_swap p input w).0
    unfolding run_swap
    run_swap-Sum [] =
        if_rule (λ (r : Reply T). Kept accounts sum r.0) p.enabled (λ _. before) λ _. before
    run_swap-Sum (m ∷ args) =
        if_rule (λ (r : Reply T). Kept accounts sum r.0) p.enabled (λ _. run_swap_method-Sum m args)
          λ _. before

-- A call of the precompile of the order book, with any input and any outcome, keeps the sum of the
-- balances of any accounts, listed once each, that include the precompile, the sender of the
-- message and the makers of the orders, while that sum is below 2^256, and they include the makers
-- after the call too. The calls of the token contracts are to do the same, from any state in which
-- that sum is below 2^256 and the makers are listed.
pub supply-run_swap :
    {T : Type 0} (p : SwapPrecompile T) (accounts : List Address) (input : Bytes) (w : SwapWorld T)
    → Once accounts
    → is_listed swap_address accounts ≡ true
    → is_listed p.origin accounts ≡ true
    → MakersListed accounts w.book
    → CallsConserve p accounts
    → supply w.ledger.balance accounts < 2 ^ 256
    → (supply (run_swap p input w).0.ledger.balance accounts ≡ supply w.ledger.balance accounts)
      × MakersListed accounts (run_swap p input w).0.book
supply-run_swap p accounts input w once module_listed origin_listed makers calls fits =
    run_swap-Sum p accounts once module_listed origin_listed calls
      (supply w.ledger.balance accounts) fits w (refl, makers) input
