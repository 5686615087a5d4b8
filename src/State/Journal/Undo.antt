-- ===== src/State/Journal/Undo.antt =====
-- core/state/journal.go: undoing an entry puts back what its change overwrote.
use dew.Base.{ℕ, ◌≡◌, refl, ap, ◌∙◌, List, [], ◌∷◌, ◌++◌, arith}
use dew.Native.Staking.{set, set_pair}
use dew.State.Journal.{
  JournalEntry, balance_change, nonce_change, storage_change, transient_storage_change,
  refund_change, add_log_change, StateDb, append_entry, drop_log, undo, snapshot,
}

-- The two states have the same balances, nonces, storage, transient storage, refund and logs.
pub record Same (s t : StateDb) : Type 0 where
  pub balance : (a : ℕ) → s.balance a ≡ t.balance a
  pub nonce : (a : ℕ) → s.nonce a ≡ t.nonce a
  pub storage : (a k : ℕ) → s.storage a k ≡ t.storage a k
  pub transient : (a k : ℕ) → s.transient a k ≡ t.transient a k
  pub refund : s.refund ≡ t.refund
  pub logs : s.logs ≡ t.logs

pub Same-refl : (s : StateDb) → Same s s
Same-refl s = record {
  balance = λ a. refl;
  nonce = λ a. refl;
  storage = λ a k. refl;
  transient = λ a k. refl;
  refund = refl;
  logs = refl;
}

pub undo-Same : (e : JournalEntry) (s t : StateDb) → Same s t → Same (undo e s) (undo e t)
unfolding undo set set_pair
undo-Same (balance_change b prev) s t q = record {
  balance = λ a. ground (arith, q.balance a);
  nonce = q.nonce;
  storage = q.storage;
  transient = q.transient;
  refund = q.refund;
  logs = q.logs;
}
undo-Same (nonce_change b prev) s t q = record {
  balance = q.balance;
  nonce = λ a. ground (arith, q.nonce a);
  storage = q.storage;
  transient = q.transient;
  refund = q.refund;
  logs = q.logs;
}
undo-Same (storage_change b key prev) s t q = record {
  balance = q.balance;
  nonce = q.nonce;
  storage = λ a k. ground (arith, q.storage a k);
  transient = q.transient;
  refund = q.refund;
  logs = q.logs;
}
undo-Same (transient_storage_change b key prev) s t q = record {
  balance = q.balance;
  nonce = q.nonce;
  storage = q.storage;
  transient = λ a k. ground (arith, q.transient a k);
  refund = q.refund;
  logs = q.logs;
}
undo-Same (refund_change prev) s t q = record {
  balance = q.balance;
  nonce = q.nonce;
  storage = q.storage;
  transient = q.transient;
  refund = refl;
  logs = q.logs;
}
undo-Same add_log_change s t q = record {
  balance = q.balance;
  nonce = q.nonce;
  storage = q.storage;
  transient = q.transient;
  refund = q.refund;
  logs = ap drop_log q.logs;
}

-- Undoing entries from the newest on.
abbrev pub undo_all : List JournalEntry → StateDb → StateDb
undo_all [] s = s
undo_all (e ∷ es) s = undo_all es (undo e s)

pub undo_all-Same :
    (es : List JournalEntry) (s t : StateDb) → Same s t → Same (undo_all es s) (undo_all es t)
undo_all-Same [] s t q = q
undo_all-Same (e ∷ es) s t q = undo_all-Same es (undo e s) (undo e t) (undo-Same e s t q)

pub undo_all-append :
    (es fs : List JournalEntry) (s : StateDb) → undo_all (es ++ fs) s ≡ undo_all fs (undo_all es s)
undo_all-append [] fs s = refl
undo_all-append (e ∷ es) fs s = undo_all-append es fs (undo e s)

pub Same-trans : (s t u : StateDb) → Same s t → Same t u → Same s u
Same-trans s t u p q = record {
  balance = λ a. p.balance a ∙ q.balance a;
  nonce = λ a. p.nonce a ∙ q.nonce a;
  storage = λ a k. p.storage a k ∙ q.storage a k;
  transient = λ a k. p.transient a k ∙ q.transient a k;
  refund = p.refund ∙ q.refund;
  logs = p.logs ∙ q.logs;
}

pub set-back : (f : ℕ → ℕ) (a v b : ℕ) → set (set f a v) a (f a) b ≡ f b
unfolding set
set-back f a v b = ground (arith, ap f {x = a} {y = b})

pub same_slot : (f : ℕ → ℕ → ℕ) (a k b j : ℕ) → a ≡ b → k ≡ j → f a k ≡ f b j
same_slot f a k b j p q = ap (λ c. f c k) p ∙ ap (f b) q

pub set_pair-back :
    (f : ℕ → ℕ → ℕ) (a k v b j : ℕ) → set_pair (set_pair f a k v) a k (f a k) b j ≡ f b j
unfolding set_pair
set_pair-back f a k v b j = ground (arith, same_slot f a k b j)

-- The journal is not read.
pub journal_unread : (js : List JournalEntry) (s : StateDb) → Same (record s { journal = js }) s
journal_unread js s = record {
  balance = λ a. refl;
  nonce = λ a. refl;
  storage = λ a k. refl;
  transient = λ a k. refl;
  refund = refl;
  logs = refl;
}

-- A balance that was written is put back.
pub balance_put_back :
    (a x : ℕ) (s : StateDb)
    → Same
        (undo
          (balance_change a (s.balance a))
          (record (append_entry (balance_change a (s.balance a)) s) {
            balance = set s.balance a x;
          }))
        s
unfolding undo append_entry
balance_put_back a x s = record {
  balance = set-back s.balance a x;
  nonce = λ b. refl;
  storage = λ b k. refl;
  transient = λ b k. refl;
  refund = refl;
  logs = refl;
}

pub nonce_put_back :
    (a x : ℕ) (s : StateDb)
    → Same
        (undo
          (nonce_change a (s.nonce a))
          (record (append_entry (nonce_change a (s.nonce a)) s) { nonce = set s.nonce a x }))
        s
unfolding undo append_entry
nonce_put_back a x s = record {
  balance = λ b. refl;
  nonce = set-back s.nonce a x;
  storage = λ b k. refl;
  transient = λ b k. refl;
  refund = refl;
  logs = refl;
}

pub storage_put_back :
    (a k v : ℕ) (s : StateDb)
    → Same
        (undo
          (storage_change a k (s.storage a k))
          (record (append_entry (storage_change a k (s.storage a k)) s) {
            storage = set_pair s.storage a k v;
          }))
        s
unfolding undo append_entry
storage_put_back a k v s = record {
  balance = λ b. refl;
  nonce = λ b. refl;
  storage = set_pair-back s.storage a k v;
  transient = λ b k. refl;
  refund = refl;
  logs = refl;
}

pub transient_put_back :
    (a k v : ℕ) (s : StateDb)
    → Same
        (undo
          (transient_storage_change a k (s.transient a k))
          (record (append_entry (transient_storage_change a k (s.transient a k)) s) {
            transient = set_pair s.transient a k v;
          }))
        s
unfolding undo append_entry
transient_put_back a k v s = record {
  balance = λ b. refl;
  nonce = λ b. refl;
  storage = λ b k. refl;
  transient = set_pair-back s.transient a k v;
  refund = refl;
  logs = refl;
}

pub refund_put_back :
    (x : ℕ) (s : StateDb)
    → Same
        (undo
          (refund_change s.refund)
          (record (append_entry (refund_change s.refund) s) { refund = x }))
        s
unfolding undo append_entry
refund_put_back x s = journal_unread (refund_change s.refund ∷ s.journal) s

pub log_put_back :
    (log : ℕ) (s : StateDb)
    → Same (undo add_log_change (record (append_entry add_log_change s) { logs = log ∷ s.logs })) s
unfolding undo append_entry drop_log
log_put_back log s = journal_unread (add_log_change ∷ s.journal) s

pub snapshot_unread : (s : StateDb) → Same (snapshot s).0 s
unfolding snapshot
snapshot_unread s = record {
  balance = λ a. refl;
  nonce = λ a. refl;
  storage = λ a k. refl;
  transient = λ a k. refl;
  refund = refl;
  logs = refl;
}
