-- ===== src/Mempool/Config.antt =====
-- mempool/config.go, and the defaults that New of mempool/pool.go fills in.
use dew.Base.{ℕ, Option, none, some, ◌==◌, if◌then◌else◌}

-- A limit that is not positive is 0.
pub record PoolConfig : Type 0 where
  pub max_global : ℕ
  pub max_per_sender : ℕ
  pub max_tx_bytes : ℕ
  pub min_gas_price : Option ℕ
  pub min_tip : Option ℕ
  pub min_dew_fee : ℕ
  pub price_bump : ℕ

abbrev pub default_config : PoolConfig
default_config = record {
  max_global = 4096;
  max_per_sender = 16;
  max_tx_bytes = 131072;
  min_gas_price = some 1000000000;
  min_tip = some 1;
  min_dew_fee = 2100000000000;
  price_bump = 10;
}

abbrev or_default : Option ℕ → Option ℕ → Option ℕ
or_default none d = d
or_default (some n) d = some n

-- The defaults that New fills in.
unfoldable pub with_defaults : PoolConfig → PoolConfig
with_defaults cfg = record {
  max_global = if cfg.max_global == 0 then default_config.max_global else cfg.max_global;
  max_per_sender =
      if cfg.max_per_sender == 0 then default_config.max_per_sender else cfg.max_per_sender;
  max_tx_bytes = if cfg.max_tx_bytes == 0 then default_config.max_tx_bytes else cfg.max_tx_bytes;
  min_gas_price = or_default cfg.min_gas_price default_config.min_gas_price;
  min_tip = or_default cfg.min_tip default_config.min_tip;
  min_dew_fee = if cfg.min_dew_fee == 0 then default_config.min_dew_fee else cfg.min_dew_fee;
  price_bump = cfg.price_bump;
}
