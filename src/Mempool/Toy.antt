-- ===== src/Mempool/Toy.antt =====
-- A small pool, to run the code of mempool/ on.
use dew.Base.{ℕ, false, none, some, List, [], ◌∷◌}
use dew.Mempool.{Entry}
use dew.Mempool.Config.{PoolConfig}
use dew.Mempool.Admission.{EthTx, PoolDewTx, evm_entry}
use dew.Mempool.History.{PoolCall, call_evm, call_dew}

-- Two transactions fit, and a replacement pays 10 percent more.
abbrev pub small_pool : PoolConfig
small_pool = record {
  max_global = 2;
  max_per_sender = 2;
  max_tx_bytes = 4;
  min_gas_price = some 100;
  min_tip = some 1;
  min_dew_fee = 50;
  price_bump = 10;
}

-- A legacy transaction with the price and the hash.
abbrev pub legacy : ℕ → ℕ → ℕ → EthTx
legacy nonce price hash = record {
  is_dynamic_fee = false;
  chain_id = some 7;
  gas_fee_cap = none;
  gas_tip_cap = none;
  gas_price = some price;
  nonce = nonce;
  hash = hash;
  marshal = some (1 ∷ 2 ∷ []);
}

abbrev pub transfer : PoolDewTx
transfer = record {
  chain_id = some 7;
  sender = 9;
  nonce = 0;
  fee = 0;
  hash = 33;
  marshal = some (3 ∷ []);
}

-- The pool is full: sender 5 offers 200 wei and sender 9 the least fee.
abbrev pub two_calls : List PoolCall
two_calls = call_dew transfer [] (some 7) ∷ call_evm (legacy 0 200 31) 5 [] (some 7) ∷ []

abbrev pub entry_of : ℕ → ℕ → ℕ → Entry
entry_of nonce price hash =
    evm_entry small_pool (legacy nonce price hash) 5 (1 ∷ 2 ∷ []) (price, none)
