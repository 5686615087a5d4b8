-- ===== src/State/Journal/Examples.antt =====
-- core/state at concrete changes.
use dew.Base.{◌≡◌, refl, none, some, List, [], ◌∷◌, if◌then◌else◌, ◌==◌, u64}
use dew.Native.Staking.{set_pair}
use dew.State.Journal.{
  StateDb, snapshot, revert_to_snapshot, set_state, append_entry, sub_balance, add_balance_prev,
  set_state_journaled, set_nonce_journaled, add_refund, sub_refund, add_log,
}
use dew.State.Journal.Undo.{Same}
use dew.State.Journal.Changes.{
  StateOp, op_sub_balance, op_add_balance, op_set_state, op_set_nonce, op_snapshot, op_add_refund,
  op_sub_refund, op_add_log, apply, apply_all,
}
use dew.State.Journal.Revert.{revert_to_snapshot-Same, set_state-survives}

abbrev db : StateDb
db = record {
  balance = λ a. if a == 1 then 100 else 0;
  nonce = λ a. 0;
  storage = λ a k. 0;
  transient = λ a k. 0;
  refund = 0;
  logs = [];
  journal = [];
  valid_revisions = [];
  next_revision_id = 0;
}

abbrev changes : List StateOp
changes =
    op_sub_balance 1 30
    ∷ op_add_balance 2 30
    ∷ op_snapshot
    ∷ op_set_state 2 7 8
    ∷ op_set_nonce 1 1
    ∷ op_add_refund 5
    ∷ op_sub_refund 2
    ∷ op_add_log 3
    ∷ []

abbrev changed : StateDb
changed = elim (apply_all changes (snapshot db).0) [ none ↦ db | some s ↦ s ]

changes_pass : apply_all changes (snapshot db).0 ≡ some changed
unfolding apply_all apply snapshot append_entry sub_balance add_balance_prev set_state_journaled
    set_nonce_journaled add_refund sub_refund add_log set_pair u64
changes_pass = refl

revert_to_snapshot-Same_example :
    (t : StateDb) × (revert_to_snapshot (snapshot db).1 changed ≡ some t)
    × Same t db
    × (t.journal ≡ db.journal)
    × (t.valid_revisions ≡ db.valid_revisions)
revert_to_snapshot-Same_example = revert_to_snapshot-Same db changed changes changes_pass

set_state-survives_example :
    (t : StateDb) × (revert_to_snapshot (snapshot db).1 (set_state 258 7 9 (snapshot db).0)
      ≡ some t)
    × (t.storage 258 7 ≡ 9)
set_state-survives_example = set_state-survives 258 7 9 db
