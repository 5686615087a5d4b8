-- ===== src/Mempool/Examples.antt =====
-- mempool/pool.go: the calls and the theorems on a small pool.
use dew.Base.{◌≡◌, refl, ok, some, arith, lookup, insert, erase, u64, [], ◌∷◌}
use dew.Mempool.{
  add_entry, make_room, admit_entry, hash_at, sender_count, drop_nonce, add_nonce, remove_locked,
  store, worst, evict_cheaper_than, is_below_bump,
}
use dew.Mempool.Admission.{
  add_evm, add_dew, evm_entry, dew_entry, evm_price, legacy_price, raw_bytes,
}
use dew.Mempool.Invariant.{Sound}
use dew.Mempool.History.{
  call_evm, perform_call, after_calls, after_calls-Sound, after_calls-Admissible, Admissible,
}
use dew.Mempool.Accepting.{Accepted, add_entry-Accepted}
use dew.Mempool.Toy.{small_pool, legacy, transfer, two_calls, entry_of}

after_calls-Sound_example : Sound small_pool (after_calls small_pool two_calls)
after_calls-Sound_example = after_calls-Sound small_pool two_calls

after_calls-Admissible_example : Admissible small_pool (dew_entry small_pool transfer (3 ∷ []))
unfolding after_calls add_evm add_dew raw_bytes evm_price legacy_price evm_entry dew_entry add_entry
    make_room admit_entry hash_at sender_count store add_nonce lookup insert u64
after_calls-Admissible_example =
    after_calls-Admissible small_pool two_calls 33 (dew_entry small_pool transfer (3 ∷ [])) refl

-- Sender 5's second transaction evicts the cheaper one of sender 9.
add_entry-Accepted_example :
    Accepted small_pool
      (after_calls small_pool two_calls)
      (entry_of 1 100 32)
      32
      (add_entry small_pool (entry_of 1 100 32) (after_calls small_pool two_calls)).0
unfolding after_calls add_evm add_dew raw_bytes evm_price legacy_price evm_entry dew_entry add_entry
    make_room admit_entry hash_at sender_count store add_nonce lookup insert u64 evict_cheaper_than
    worst
add_entry-Accepted_example =
    add_entry-Accepted small_pool (after_calls small_pool two_calls) (entry_of 1 100 32) 32
      (after_calls-Sound small_pool two_calls) (omega arith) refl

replacement-run :
    (perform_call small_pool
      (call_evm (legacy 0 220 32) 5 [] (some 7))
      (after_calls small_pool two_calls)).1
    ≡ ok 32
unfolding after_calls add_evm add_dew raw_bytes evm_price legacy_price evm_entry dew_entry add_entry
    make_room admit_entry hash_at sender_count store add_nonce lookup insert u64 is_below_bump
    remove_locked erase drop_nonce
replacement-run = refl
