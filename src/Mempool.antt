-- ===== src/Mempool.antt =====
-- mempool/pool.go: the pool of pending transactions, its indexes and its counters. Each function
-- is a stretch under the pool's lock.
pub mod Config
pub mod Admission
pub mod Filing
pub mod Eviction
pub mod Invariant
pub mod Adding
pub mod History
pub mod Accepting
pub mod Toy
mod Examples
use dew.Base.{
  ℕ, zero, suc, ◌+◌, ◌-◌, ◌*◌, ◌/◌, ◌^◌, Bool, true, false, not, Option, none, some, List, [], ◌∷◌,
  leb, ltb, ◌==◌, if◌then◌else◌, u64, Dict, lookup, insert, erase, is_some, length, Result, ok, err,
}
use dew.Consensus.ValidatorSet.{Address}
use dew.Mempool.Config.{PoolConfig}

pub data Kind : Type 0 where
  kind_evm kind_dew : Kind

pub data PoolError : Type 0 where
  pool_full sender_limit underpriced replace_under already_known : PoolError
  tx_too_large wrong_chain rbf_disabled invalid_tx : PoolError

-- One admitted pending transaction. The time of its admission is left out: nothing reads it.
pub record Entry : Type 0 where
  pub hash : ℕ
  pub sender : Address
  pub nonce : ℕ
  pub kind : Kind
  pub raw : List ℕ
  pub price : ℕ
  pub tip : Option ℕ
  pub size : ℕ

pub record RejectCounters : Type 0 where
  pub full : ℕ
  pub limit : ℕ
  pub under : ℕ
  pub replace : ℕ
  pub known : ℕ
  pub large : ℕ
  pub invalid : ℕ
  pub chain : ℕ
  pub rbf : ℕ
  pub total : ℕ

-- by_sender maps sender → nonce → hash.
pub record Pool : Type 0 where
  pub by_hash : Dict Entry
  pub by_sender : Dict (Dict ℕ)
  pub admits : ℕ
  pub replaces : ℕ
  pub evictions : ℕ
  pub rejects : RejectCounters

abbrev pub no_rejects : RejectCounters
no_rejects = record {
  full = 0;
  limit = 0;
  under = 0;
  replace = 0;
  known = 0;
  large = 0;
  invalid = 0;
  chain = 0;
  rbf = 0;
  total = 0;
}

abbrev pub new_pool : Pool
new_pool = record {
  by_hash = [];
  by_sender = [];
  admits = 0;
  replaces = 0;
  evictions = 0;
  rejects = no_rejects;
}

unfoldable pub count_reject : PoolError → RejectCounters → RejectCounters
count_reject pool_full c = record c { full = u64 (c.full + 1) }
count_reject sender_limit c = record c { limit = u64 (c.limit + 1) }
count_reject underpriced c = record c { under = u64 (c.under + 1) }
count_reject replace_under c = record c { replace = u64 (c.replace + 1) }
count_reject already_known c = record c { known = u64 (c.known + 1) }
count_reject tx_too_large c = record c { large = u64 (c.large + 1) }
count_reject wrong_chain c = record c { chain = u64 (c.chain + 1) }
count_reject rbf_disabled c = record c { rbf = u64 (c.rbf + 1) }
count_reject invalid_tx c = record c { invalid = u64 (c.invalid + 1) }

unfoldable pub note_reject : PoolError → Pool → Pool
note_reject e p = record p {
  rejects = count_reject e (record p.rejects { total = u64 (p.rejects.total + 1) });
}

-- The hash of a sender's transaction with a nonce.
unfoldable pub hash_at : Address → ℕ → Dict (Dict ℕ) → Option ℕ
hash_at sender nonce d = elim (lookup sender d) [ none ↦ none | some m ↦ lookup nonce m ]

-- `len(m)`, 0 where the sender has no map.
unfoldable pub sender_count : Address → Dict (Dict ℕ) → ℕ
sender_count sender d = elim (lookup sender d) [ none ↦ 0 | some m ↦ length m ]

-- delete(m, nonce), and the sender's map goes when it is empty.
unfoldable pub drop_nonce : Address → ℕ → Dict (Dict ℕ) → Dict (Dict ℕ)
drop_nonce sender nonce d = elim (lookup sender d) [
  | none ↦ d
  | some m ↦
      let left = erase nonce m in if length left == 0 then erase sender d else insert sender left d
]

-- delete(m, nonce) alone.
unfoldable pub forget_nonce : Address → ℕ → Dict (Dict ℕ) → Dict (Dict ℕ)
forget_nonce sender nonce d = elim (lookup sender d) [
  | none ↦ d
  | some m ↦ insert sender (erase nonce m) d
]

unfoldable pub remove_locked : ℕ → Pool → Pool
remove_locked hash p = elim (lookup hash p.by_hash) [
  | none ↦ p
  | some e ↦ record p {
    by_hash = erase hash p.by_hash;
    by_sender = drop_nonce e.sender e.nonce p.by_sender;
  }
]

-- The map of a sender is made when it is missing.
unfoldable pub add_nonce : Address → ℕ → ℕ → Dict (Dict ℕ) → Dict (Dict ℕ)
add_nonce sender nonce hash d = elim (lookup sender d) [
  | none ↦ insert sender (insert nonce hash []) d
  | some m ↦ insert sender (insert nonce hash m) d
]

-- A lowest-priced entry strictly cheaper than the price, the first in the order of the range.
unfoldable pub worst : ℕ → Dict Entry → Option Entry → Option Entry
worst price [] found = found
worst price ((h, e) ∷ d) found =
    let next : Option Entry = elim found [
      | none ↦ some e
      | some w ↦ if ltb e.price w.price then some e else some w
    ] in
    worst price d (if leb price e.price then found else next)

-- The pool without the evicted entry; none where nothing is cheaper.
unfoldable pub evict_cheaper_than : ℕ → Pool → Option Pool
evict_cheaper_than price p = elim (worst price p.by_hash none) [
  | none ↦ none
  | some w ↦ let q = remove_locked w.hash p in some record q { evictions = u64 (q.evictions + 1) }
]

-- e.Price is below old.Price * int64(100+bump) / 100. A factor that int64 makes negative bounds
-- nothing.
unfoldable pub is_below_bump : ℕ → ℕ → ℕ → Bool
is_below_bump bump old price =
    let factor = u64 (100 + bump) in
    if ltb factor (2 ^ 63) then ltb price (old * factor / 100) else false

module _ (cfg : PoolConfig) where
  -- The entry with the same sender and nonce is replaced or the new one refused: the pool, and
  -- whether an entry was replaced.
  unfoldable pub make_room : Entry → Pool → Result PoolError (Pool × Bool)
  make_room e p = elim (hash_at e.sender e.nonce p.by_sender) [
    | none ↦ ok (p, false)
    | some old_hash ↦ elim (lookup old_hash p.by_hash) [
      | none ↦ ok (record p { by_sender = forget_nonce e.sender e.nonce p.by_sender }, false)
      | some old ↦
          if cfg.price_bump == 0
          then err rbf_disabled
          else if is_below_bump cfg.price_bump old.price e.price
          then err replace_under
          else ok (remove_locked old_hash p, true)
    ]
  ]

  unfoldable pub store : Entry → Bool → Pool → Pool
  store e replaced p = record p {
    by_hash = insert e.hash e p.by_hash;
    by_sender = add_nonce e.sender e.nonce e.hash p.by_sender;
    admits = u64 (p.admits + 1);
    replaces = if replaced then u64 (p.replaces + 1) else p.replaces;
  }

  -- The limits, after a replacement has taken one entry out.
  unfoldable pub admit_entry : Entry → Bool → Pool → Pool × Result PoolError ℕ
  admit_entry e replaced p =
      if leb cfg.max_per_sender (sender_count e.sender p.by_sender)
      then (note_reject sender_limit p, err sender_limit)
      else if leb cfg.max_global (length p.by_hash)
      then elim (evict_cheaper_than e.price p) [
        | none ↦ (note_reject pool_full p, err pool_full)
        | some q ↦ (store e replaced q, ok e.hash)
      ]
      else (store e replaced p, ok e.hash)

  -- add: the pool, and the hash or the error. The hash that comes with ErrAlreadyKnown is left out.
  unfoldable pub add_entry : Entry → Pool → Pool × Result PoolError ℕ
  add_entry e p =
      if is_some (lookup e.hash p.by_hash)
      then (note_reject already_known p, err already_known)
      else elim (make_room e p) [
        | err x ↦ (note_reject x p, err x)
        | ok (q, replaced) ↦ admit_entry e replaced q
      ]
