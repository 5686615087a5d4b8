-- ===== src/Vm/Swap/Run.antt =====
-- core/vm/orderbook_precompile.go: the queries, and Run.
use dew.Base.{
  ℕ, Bool, true, false, not, Option, none, some, [], ◌∷◌, ◌++◌, ◌==◌, if◌then◌else◌, length, ok,
  err, u64,
}
use dew.Consensus.Message.{Bytes}
use dew.Native.Orderbook.{Order, get_order}
use dew.Native.Orderbook.Best.{best_bid, best_ask}
use dew.Vm.{u256_pad, bytes_at}
use dew.Vm.Swap.{
  SwapPrecompile, SwapWorld, Reply, not_enabled, bad_input, unknown_method, place, cancel_call,
  fill_call,
}

-- id, maker, token, side, price, open and original base, time and status, 32 bytes each.
unfoldable pub packed_order : ℕ → Order → Bytes
packed_order id o =
    u256_pad id
    ++ (u256_pad o.maker
        ++ (u256_pad o.base_token
            ++ (u256_pad o.side
                ++ (u256_pad o.price
                    ++ (u256_pad o.base_open
                        ++ (u256_pad o.base_orig
                            ++ (u256_pad o.created_at ++ u256_pad o.status)))))))

abbrev pub packed_best : Option (ℕ × ℕ) → Bytes
packed_best none = u256_pad 0 ++ u256_pad 0
packed_best (some (price, id)) = u256_pad price ++ u256_pad id

module _ {T : Type 0} where
  unfoldable pub get_order_call : Bytes → SwapWorld T → Reply T
  get_order_call args w =
      let id = u64 (bytes_at 0 32 args) in
      if not (length args == 32)
      then (w, err bad_input)
      else elim (get_order id w.book) [ none ↦ (w, ok []) | some o ↦ (w, ok (packed_order id o)) ]

  unfoldable pub best_call : Bool → Bytes → SwapWorld T → Reply T
  best_call bid args w =
      let token = bytes_at 0 20 args in
      if not (length args == 20)
      then (w, err bad_input)
      else (w, ok (packed_best (if bid then best_bid token w.book else best_ask token w.book)))

  unfoldable pub escrow_call : Bytes → SwapWorld T → Reply T
  escrow_call args w =
      let maker = bytes_at 0 20 args in
      if not (length args == 40) then (w, err bad_input) else (
        w,
        ok (
            u256_pad (w.book.escrow_base maker (bytes_at 20 20 args))
            ++ u256_pad (w.book.escrow_quote maker)),
      )

  unfoldable pub run_swap_method : SwapPrecompile T → ℕ → Bytes → SwapWorld T → Reply T
  run_swap_method p method args w =
      if method == 0
      then place p args w
      else if method == 1
      then cancel_call p args w
      else if method == 2
      then fill_call p args w
      else if method == 3
      then get_order_call args w
      else if method == 4
      then best_call true args w
      else if method == 5
      then best_call false args w
      else if method == 6
      then escrow_call args w
      else (w, err unknown_method)

  unfoldable pub run_swap : SwapPrecompile T → Bytes → SwapWorld T → Reply T
  run_swap p [] w = if p.enabled then (w, err bad_input) else (w, err not_enabled)
  run_swap p (method ∷ args) w =
      if p.enabled then run_swap_method p method args w else (w, err not_enabled)
