-- ===== src/State/Journal.antt =====
-- core/state/journal.go, and the journaled setters, Snapshot and RevertToSnapshot of evm_api.go.
pub mod Undo
pub mod Changes
pub mod Revert
mod Examples
use dew.Base.{
  ℕ, ◌+◌, ◌-◌, ◌^◌, Bool, true, false, ◌&&◌, Option, none, some, List, [], ◌∷◌, leb, ltb, ◌==◌,
  if◌then◌else◌, length, u64, u256,
}
use dew.Consensus.ValidatorSet.{Address}
use dew.Native.Staking.{set, set_pair, sub256}

-- What a change must remember to be undone.
pub data JournalEntry : Type 0 where
  balance_change nonce_change : Address → ℕ → JournalEntry
  storage_change transient_storage_change : Address → ℕ → ℕ → JournalEntry
  refund_change : ℕ → JournalEntry
  add_log_change : JournalEntry

pub record Revision : Type 0 where
  pub id : ℕ
  pub journal_index : ℕ

-- An account or a slot that is missing reads as 0. The newest entry, revision and log come first.
pub record StateDb : Type 0 where
  pub balance : ℕ → ℕ
  pub nonce : ℕ → ℕ
  pub storage : ℕ → ℕ → ℕ
  pub transient : ℕ → ℕ → ℕ
  pub refund : ℕ
  pub logs : List ℕ
  pub journal : List JournalEntry
  pub valid_revisions : List Revision
  pub next_revision_id : ℕ

unfoldable pub append_entry : JournalEntry → StateDb → StateDb
append_entry entry s = record s { journal = entry ∷ s.journal }

-- SubBalance
unfoldable pub sub_balance : Address → ℕ → StateDb → StateDb
sub_balance a x s = record (append_entry (balance_change a (s.balance a)) s) {
  balance = set s.balance a (if x == 0 then s.balance a else sub256 (s.balance a) x);
}

-- AddBalancePrev
unfoldable pub add_balance_prev : Address → ℕ → StateDb → StateDb
add_balance_prev a x s = record (append_entry (balance_change a (s.balance a)) s) {
  balance = set s.balance a (if x == 0 then s.balance a else u256 (s.balance a + x));
}

-- SetBalanceJournaled
unfoldable pub set_balance_journaled : Address → ℕ → StateDb → StateDb
set_balance_journaled a x s = record (append_entry (balance_change a (s.balance a)) s) {
  balance = set s.balance a x;
}

-- SetNonceJournaled
unfoldable pub set_nonce_journaled : Address → ℕ → StateDb → StateDb
set_nonce_journaled a n s = record (append_entry (nonce_change a (s.nonce a)) s) {
  nonce = set s.nonce a n;
}

-- SetStateJournaled
unfoldable pub set_state_journaled : Address → ℕ → ℕ → StateDb → StateDb
set_state_journaled a key value s =
    if s.storage a key == value
    then s
    else record (append_entry (storage_change a key (s.storage a key)) s) {
      storage = set_pair s.storage a key value;
    }

-- SetState, which the journal does not see.
unfoldable pub set_state : Address → ℕ → ℕ → StateDb → StateDb
set_state a key value s = record s { storage = set_pair s.storage a key value }

-- SetTransientState
unfoldable pub set_transient_state : Address → ℕ → ℕ → StateDb → StateDb
set_transient_state a key value s =
    record (append_entry (transient_storage_change a key (s.transient a key)) s) {
      transient = set_pair s.transient a key value;
    }

-- AddRefund
unfoldable pub add_refund : ℕ → StateDb → StateDb
add_refund gas s = record (append_entry (refund_change s.refund) s) {
  refund = u64 (s.refund + gas);
}

-- SubRefund; `none` is its panic.
unfoldable pub sub_refund : ℕ → StateDb → Option StateDb
sub_refund gas s =
    if ltb s.refund gas
    then none
    else some (record (append_entry (refund_change s.refund) s) { refund = s.refund - gas })

-- AddLog
unfoldable pub add_log : ℕ → StateDb → StateDb
add_log log s = record (append_entry add_log_change s) { logs = log ∷ s.logs }

unfoldable pub drop_log : List ℕ → List ℕ
drop_log [] = []
drop_log (log ∷ logs) = logs

-- The revert method of an entry.
unfoldable pub undo : JournalEntry → StateDb → StateDb
undo (balance_change a prev) s = record s { balance = set s.balance a prev }
undo (nonce_change a prev) s = record s { nonce = set s.nonce a prev }
undo (storage_change a key prev) s = record s { storage = set_pair s.storage a key prev }
undo (transient_storage_change a key prev) s = record s {
  transient = set_pair s.transient a key prev;
}
undo (refund_change prev) s = record s { refund = prev }
undo add_log_change s = record s { logs = drop_log s.logs }

-- journal.revert: undo the newest entries while there are more than `snapshot`.
unfoldable pub revert_entries : List JournalEntry → ℕ → StateDb → StateDb
revert_entries [] snapshot s = record s { journal = [] }
revert_entries (entry ∷ entries) snapshot s =
    let rest = revert_entries entries snapshot (undo entry s) in
    if leb (length (entry ∷ entries)) snapshot then record s { journal = entry ∷ entries } else rest

-- Snapshot
unfoldable pub snapshot : StateDb → StateDb × ℕ
snapshot s = (
  record s {
    valid_revisions =
        record { id = s.next_revision_id; journal_index = length s.journal } ∷ s.valid_revisions;
    next_revision_id = s.next_revision_id + 1;
  },
  s.next_revision_id,
)

-- The newest revision with the id, and the revisions before it.
unfoldable pub find_revision : ℕ → List Revision → Option (Revision × List Revision)
find_revision id [] = none
find_revision id (r ∷ rs) = if r.id == id then some (r, rs) else find_revision id rs

-- RevertToSnapshot; `none` is its panic.
unfoldable pub revert_to_snapshot : ℕ → StateDb → Option StateDb
revert_to_snapshot id s = elim (find_revision id s.valid_revisions) [
  | none ↦ none
  | some (r, rs) ↦
      some (record (revert_entries s.journal r.journal_index s) { valid_revisions = rs })
]
