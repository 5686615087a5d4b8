-- ===== src/State/Journal/Revert.antt =====
-- core/state: what Snapshot and RevertToSnapshot do to the changes between them.
use dew.Base.{
  ℕ, ◌+◌, ◌≤◌, ◌≡◌, refl, ap, subst, ◌∙◌, true, false, some, List, [], ◌∷◌, ◌++◌, leb, length,
  length-append, All, arith,
}
use dew.Native.Staking.{set_pair}
use dew.State.Journal.{
  JournalEntry, Revision, StateDb, set_state, undo, revert_entries, snapshot, find_revision,
  revert_to_snapshot,
}
use dew.State.Journal.Undo.{Same, undo_all}
use dew.State.Journal.Changes.{StateOp, apply_all, Extends, Leaves, apply_all-Extends}

revert_entries-undo :
    (es js : List JournalEntry) (s : StateDb)
    → revert_entries (es ++ js) (length js) s ≡ record (undo_all es s) { journal = js }
unfolding revert_entries
revert_entries-undo [] [] s = refl
revert_entries-undo [] (j ∷ js) s =
    let all : leb (length (j ∷ js)) (length (j ∷ js)) ≡ true = ground arith in rw all refl
revert_entries-undo (e ∷ es) js s =
    let more : leb (length (e ∷ (es ++ js))) (length js) ≡ false =
      ground (arith, length-append es js) in
    rw more (revert_entries-undo es js (undo e s))

find_revision-newer :
    (id : ℕ) (rs old : List Revision) (r : Revision)
    → All (λ q. id + 1 ≤ q.id) rs
    → r.id ≡ id
    → find_revision id (rs ++ r ∷ old) ≡ some (r, old)
unfolding find_revision
find_revision-newer id [] old r n e = ground arith
find_revision-newer id (q ∷ rs) old r n e =
    ground (arith, n.0, find_revision-newer id rs old r n.1 e)

-- From a snapshot on, journaled changes of balances, nonces, storage, transient storage, the refund
-- and the logs, and further snapshots, in any number and order: reverting to the snapshot succeeds,
-- these six are what they were before, and so are the journal and the revisions.
pub revert_to_snapshot-Same :
    (s s' : StateDb) (ops : List StateOp)
    → apply_all ops (snapshot s).0 ≡ some s'
    → (t : StateDb) × (revert_to_snapshot (snapshot s).1 s' ≡ some t)
      × Same t s
      × (t.journal ≡ s.journal)
      × (t.valid_revisions ≡ s.valid_revisions)
unfolding revert_to_snapshot snapshot
revert_to_snapshot-Same s s' ops done =
    let marked : StateDb = (snapshot s).0 in
    let ours : Revision = record { id = s.next_revision_id; journal_index = length s.journal } in
    let e : Extends marked s' = subst (Leaves marked) done (apply_all-Extends ops marked) in
    let found : find_revision s.next_revision_id s'.valid_revisions
        ≡ some (ours, s.valid_revisions) =
      rw e.valid
        (find_revision-newer s.next_revision_id e.revisions s.valid_revisions ours e.newer refl) in
    let back : revert_entries s'.journal (length s.journal) s'
        ≡ record (undo_all e.entries s') { journal = s.journal } =
      ap (λ js. revert_entries js (length s.journal) s') e.journal
      ∙ revert_entries-undo e.entries s.journal s' in
    (
      record (revert_entries s'.journal (length s.journal) s') {
        valid_revisions = s.valid_revisions;
      },
      rw (found, revert_to_snapshot) refl,
      rw back (returned e),
      rw back refl,
      refl,
    )
  where
    returned :
        (e : Extends (snapshot s).0 s')
        → Same
            (record (undo_all e.entries s') {
              journal = s.journal;
              valid_revisions = s.valid_revisions;
            })
            s
    returned e = record {
      balance = e.undone.balance;
      nonce = e.undone.nonce;
      storage = e.undone.storage;
      transient = e.undone.transient;
      refund = e.undone.refund;
      logs = e.undone.logs;
    }

-- A slot that SetState sets after a snapshot keeps its new value when the state is reverted to the
-- snapshot, which succeeds.
pub set_state-survives :
    (a key value : ℕ) (s : StateDb)
    → (t : StateDb) × (revert_to_snapshot (snapshot s).1 (set_state a key value (snapshot s).0)
        ≡ some t)
      × (t.storage a key ≡ value)
unfolding revert_to_snapshot snapshot set_state
set_state-survives a key value s =
    let changed : StateDb = set_state a key value (snapshot s).0 in
    let ours : Revision = record { id = s.next_revision_id; journal_index = length s.journal } in
    let found : find_revision s.next_revision_id changed.valid_revisions
        ≡ some (ours, s.valid_revisions) =
      find_revision-newer s.next_revision_id [] s.valid_revisions ours tt refl in
    (
      record (revert_entries s.journal (length s.journal) changed) {
        valid_revisions = s.valid_revisions;
      },
      rw (found, revert_to_snapshot) refl,
      ap (λ t. t.storage a key) (revert_entries-undo [] s.journal changed) ∙ kept,
    )
  where
    kept : (set_state a key value (snapshot s).0).storage a key ≡ value
    kept = unfold set_pair in ground arith
