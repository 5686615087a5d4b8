-- ===== src/Mempool/Admission.antt =====
-- mempool/pool.go: AddEVM and AddDew, the checks before the lock is taken.
use dew.Base.{
  ℕ, Bool, true, false, not, ◌&&◌, Option, none, some, List, [], ◌∷◌, ltb, ◌==◌, if◌then◌else◌,
  length, Result, ok, err,
}
use dew.Consensus.ValidatorSet.{Address}
use dew.Mempool.{
  Pool, Entry, PoolError, kind_evm, kind_dew, invalid_tx, tx_too_large, wrong_chain, underpriced,
  note_reject, add_entry,
}
use dew.Mempool.Config.{PoolConfig}

-- What the methods of go-ethereum's transaction return; none stands for nil, and for an error of
-- MarshalBinary.
pub record EthTx : Type 0 where
  pub is_dynamic_fee : Bool
  pub chain_id : Option ℕ
  pub gas_fee_cap : Option ℕ
  pub gas_tip_cap : Option ℕ
  pub gas_price : Option ℕ
  pub nonce : ℕ
  pub hash : ℕ
  pub marshal : Option (List ℕ)

-- The fields of a DewTx that admission reads, and what its MarshalBinary and Hash return.
pub record PoolDewTx : Type 0 where
  pub chain_id : Option ℕ
  pub sender : Address
  pub nonce : ℕ
  pub fee : ℕ
  pub hash : ℕ
  pub marshal : Option (List ℕ)

-- `x.Cmp(floor) < 0`, where the floor is set by New.
abbrev is_below : ℕ → Option ℕ → Bool
is_below x none = false
is_below x (some floor) = ltb x floor

abbrev pub price_floor : PoolConfig → ℕ → Bool
price_floor cfg x = is_below x cfg.min_gas_price

abbrev pub tip_floor : PoolConfig → ℕ → Bool
tip_floor cfg x = is_below x cfg.min_tip

-- The given bytes, or those of MarshalBinary when there are none.
unfoldable pub raw_bytes : List ℕ → Option (List ℕ) → Option (List ℕ)
raw_bytes [] marshal = marshal
raw_bytes (b ∷ bs) marshal = some (b ∷ bs)

module _ (cfg : PoolConfig) where
  unfoldable pub dynamic_price : Option ℕ → Option ℕ → Result PoolError (ℕ × Option ℕ)
  dynamic_price none tip = err invalid_tx
  dynamic_price (some fee) none = err invalid_tx
  dynamic_price (some fee) (some tip) =
      if price_floor cfg fee
      then err underpriced
      else if tip_floor cfg tip
      then err underpriced
      else ok (fee, some tip)

  unfoldable pub legacy_price : Option ℕ → Result PoolError (ℕ × Option ℕ)
  legacy_price none = err underpriced
  legacy_price (some price) = if price_floor cfg price then err underpriced else ok (price, none)

  unfoldable pub evm_price : EthTx → Result PoolError (ℕ × Option ℕ)
  evm_price tx =
      if tx.is_dynamic_fee
      then dynamic_price tx.gas_fee_cap tx.gas_tip_cap
      else legacy_price tx.gas_price

  -- A chain id of 0 or none fits every chain.
  abbrev pub wrong_evm_chain : Option ℕ → Option ℕ → Bool
  wrong_evm_chain none local = false
  wrong_evm_chain (some id) none = false
  wrong_evm_chain (some id) (some chain) = not (id == 0) && not (id == chain)

  unfoldable pub evm_entry : EthTx → Address → List ℕ → ℕ × Option ℕ → Entry
  evm_entry tx sender raw (price, tip) = record {
    hash = tx.hash;
    sender = sender;
    nonce = tx.nonce;
    kind = kind_evm;
    raw = raw;
    price = price;
    tip = tip;
    size = length raw;
  }

  -- AddEVM of a transaction that is not nil.
  unfoldable pub add_evm : EthTx → Address → List ℕ → Option ℕ → Pool → Pool × Result PoolError ℕ
  add_evm tx sender raw local p = elim (raw_bytes raw tx.marshal) [
    | none ↦ (note_reject invalid_tx p, err invalid_tx)
    | some bytes ↦
        if ltb cfg.max_tx_bytes (length bytes)
        then (note_reject tx_too_large p, err tx_too_large)
        else if wrong_evm_chain tx.chain_id local
        then (note_reject wrong_chain p, err wrong_chain)
        else elim (evm_price tx) [
          | err x ↦ (note_reject x p, err x)
          | ok priced ↦ add_entry cfg (evm_entry tx sender bytes priced) p
        ]
  ]

  abbrev pub wrong_dew_chain : Option ℕ → Option ℕ → Bool
  wrong_dew_chain none local = true
  wrong_dew_chain (some id) none = false
  wrong_dew_chain (some id) (some chain) = not (id == chain)

  abbrev pub dew_fee : ℕ → ℕ
  dew_fee fee = if fee == 0 then cfg.min_dew_fee else fee

  unfoldable pub dew_entry : PoolDewTx → List ℕ → Entry
  dew_entry tx raw = record {
    hash = tx.hash;
    sender = tx.sender;
    nonce = tx.nonce;
    kind = kind_dew;
    raw = raw;
    price = dew_fee tx.fee;
    tip = none;
    size = length raw;
  }

  -- AddDew of a transaction that is not nil.
  unfoldable pub add_dew : PoolDewTx → List ℕ → Option ℕ → Pool → Pool × Result PoolError ℕ
  add_dew tx raw local p = elim (raw_bytes raw tx.marshal) [
    | none ↦ (note_reject invalid_tx p, err invalid_tx)
    | some bytes ↦
        if ltb cfg.max_tx_bytes (length bytes)
        then (note_reject tx_too_large p, err tx_too_large)
        else if wrong_dew_chain tx.chain_id local
        then (note_reject wrong_chain p, err wrong_chain)
        else if ltb (dew_fee tx.fee) cfg.min_dew_fee
        then (note_reject underpriced p, err underpriced)
        else add_entry cfg (dew_entry tx bytes) p
  ]
