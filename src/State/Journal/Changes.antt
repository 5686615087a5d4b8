-- ===== src/State/Journal/Changes.antt =====
-- core/state: what any sequence of journaled changes and snapshots leaves in the journal.
use dew.Base.{
  ℕ, ◌≤◌, ◌≡◌, refl, sym, ap, ◌∙◌, Option, none, some, List, [], ◌∷◌, ◌++◌, ltb, ◌==◌, if_rule,
  length, All, arith,
}
use dew.Consensus.ValidatorSet.{Address}
use dew.State.Journal.{
  JournalEntry, balance_change, nonce_change, storage_change, transient_storage_change,
  refund_change, add_log_change, Revision, StateDb, append_entry, sub_balance, add_balance_prev,
  set_balance_journaled, set_nonce_journaled, set_state_journaled, set_transient_state, add_refund,
  sub_refund, add_log, undo, snapshot,
}
use dew.State.Journal.Undo.{
  Same, Same-refl, undo_all, undo_all-Same, undo_all-append, Same-trans, balance_put_back,
  nonce_put_back, storage_put_back, transient_put_back, refund_put_back, log_put_back,
  snapshot_unread,
}

pub data StateOp : Type 0 where
  op_sub_balance op_add_balance op_set_balance op_set_nonce : Address → ℕ → StateOp
  op_set_state op_set_transient : Address → ℕ → ℕ → StateOp
  op_add_refund op_sub_refund op_add_log : ℕ → StateOp
  op_snapshot : StateOp

unfoldable pub apply : StateOp → StateDb → Option StateDb
apply (op_sub_balance a x) s = some (sub_balance a x s)
apply (op_add_balance a x) s = some (add_balance_prev a x s)
apply (op_set_balance a x) s = some (set_balance_journaled a x s)
apply (op_set_nonce a n) s = some (set_nonce_journaled a n s)
apply (op_set_state a k v) s = some (set_state_journaled a k v s)
apply (op_set_transient a k v) s = some (set_transient_state a k v s)
apply (op_add_refund gas) s = some (add_refund gas s)
apply (op_sub_refund gas) s = sub_refund gas s
apply (op_add_log log) s = some (add_log log s)
apply op_snapshot s = some (snapshot s).0

unfoldable pub apply_all : List StateOp → StateDb → Option StateDb
apply_all [] s = some s
apply_all (op ∷ ops) s = elim (apply op s) [ none ↦ none | some s' ↦ apply_all ops s' ]

-- The later state has more entries, which lead back to the earlier one, and newer revisions.
pub record Extends (s s' : StateDb) : Type 0 where
  pub entries : List JournalEntry
  pub journal : s'.journal ≡ entries ++ s.journal
  pub undone : Same (undo_all entries s') s
  pub revisions : List Revision
  pub valid : s'.valid_revisions ≡ revisions ++ s.valid_revisions
  pub newer : All (λ r. s.next_revision_id ≤ r.id) revisions
  pub next : s.next_revision_id ≤ s'.next_revision_id

-- A change that leaves one entry, which undoes it.
pub one_entry :
    (e : JournalEntry) (s s' : StateDb)
    → s'.journal ≡ e ∷ s.journal
    → Same (undo e s') s
    → s'.valid_revisions ≡ s.valid_revisions
    → s'.next_revision_id ≡ s.next_revision_id
    → Extends s s'
one_entry e s s' j u v n = record {
  entries = e ∷ [];
  journal = j;
  undone = u;
  revisions = [];
  valid = v;
  newer = tt;
  next = omega arith;
}

pub no_entry : (s : StateDb) → Extends s s
no_entry s = record {
  entries = [];
  journal = refl;
  undone = Same-refl s;
  revisions = [];
  valid = refl;
  newer = tt;
  next = omega arith;
}

-- What a change leaves, unless it panics.
abbrev pub Leaves : StateDb → Option StateDb → Type 0
Leaves s none = Unit
Leaves s (some s') = Extends s s'

pub apply-Extends : (op : StateOp) (s : StateDb) → Leaves s (apply op s)
unfolding apply sub_balance add_balance_prev set_balance_journaled set_nonce_journaled
    set_state_journaled set_transient_state add_refund sub_refund add_log snapshot append_entry
apply-Extends (op_sub_balance a x) s =
    one_entry (balance_change a (s.balance a)) s _ refl (balance_put_back a _ s) refl refl
apply-Extends (op_add_balance a x) s =
    one_entry (balance_change a (s.balance a)) s _ refl (balance_put_back a _ s) refl refl
apply-Extends (op_set_balance a x) s =
    one_entry (balance_change a (s.balance a)) s _ refl (balance_put_back a x s) refl refl
apply-Extends (op_set_nonce a n) s =
    one_entry (nonce_change a (s.nonce a)) s _ refl (nonce_put_back a n s) refl refl
apply-Extends (op_set_state a k v) s =
    if_rule (Extends s) (s.storage a k == v) (λ _. no_entry s)
      (λ _.
        one_entry (storage_change a k (s.storage a k)) s _ refl (storage_put_back a k v s) refl
          refl)
apply-Extends (op_set_transient a k v) s =
    one_entry (transient_storage_change a k (s.transient a k)) s _ refl (transient_put_back a k v s)
      refl refl
apply-Extends (op_add_refund gas) s =
    one_entry (refund_change s.refund) s _ refl (refund_put_back _ s) refl refl
apply-Extends (op_sub_refund gas) s =
    if_rule (Leaves s) (ltb s.refund gas) (λ _. tt)
      (λ _. one_entry (refund_change s.refund) s _ refl (refund_put_back _ s) refl refl)
apply-Extends (op_add_log log) s = one_entry add_log_change s _ refl (log_put_back log s) refl refl
apply-Extends op_snapshot s = record {
  entries = [];
  journal = refl;
  undone = snapshot_unread s;
  revisions = record { id = s.next_revision_id; journal_index = length s.journal } ∷ [];
  valid = refl;
  newer = (omega arith, tt);
  next = omega arith;
}

pub append_assoc {ℓ} : {A : Type ℓ} (xs ys zs : List A) → (xs ++ ys) ++ zs ≡ xs ++ (ys ++ zs)
append_assoc [] ys zs = refl
append_assoc (x ∷ xs) ys zs = ap (λ ws. x ∷ ws) (append_assoc xs ys zs)

pub newer_still :
    (n m : ℕ) (rs qs : List Revision)
    → n ≤ m
    → All (λ r. m ≤ r.id) rs
    → All (λ r. n ≤ r.id) qs
    → All (λ r. n ≤ r.id) (rs ++ qs)
newer_still n m [] qs le a b = b
newer_still n m (r ∷ rs) qs le a b = (omega (arith, a.0), newer_still n m rs qs le a.1 b)

pub Extends-trans : (s t u : StateDb) → Extends s t → Extends t u → Extends s u
Extends-trans s t u p q = record {
  entries = q.entries ++ p.entries;
  journal =
      q.journal
      ∙ ap (λ js. q.entries ++ js) p.journal
      ∙ sym (append_assoc q.entries p.entries s.journal);
  undone =
      rw (undo_all-append q.entries p.entries u)
        (Same-trans _ _ s (undo_all-Same p.entries _ t q.undone) p.undone);
  revisions = q.revisions ++ p.revisions;
  valid =
      q.valid
      ∙ ap (λ rs. q.revisions ++ rs) p.valid
      ∙ sym (append_assoc q.revisions p.revisions s.valid_revisions);
  newer =
      newer_still s.next_revision_id t.next_revision_id q.revisions p.revisions p.next q.newer
        p.newer;
  next = omega (arith, p.next, q.next);
}

pub Leaves-trans : (s s1 : StateDb) → Extends s s1 → (o : Option StateDb) → Leaves s1 o → Leaves s o
Leaves-trans s s1 p none q = tt
Leaves-trans s s1 p (some s2) q = Extends-trans s s1 s2 p q

pub Leaves-then :
    (s : StateDb) (ops : List StateOp) (o : Option StateDb)
    → Leaves s o
    → ((s1 : StateDb) → Leaves s1 (apply_all ops s1))
    → Leaves s (elim o [ none ↦ none | some s' ↦ apply_all ops s' ])
Leaves-then s ops none p k = tt
Leaves-then s ops (some s1) p k = Leaves-trans s s1 p (apply_all ops s1) (k s1)

pub apply_all-Extends : (ops : List StateOp) (s : StateDb) → Leaves s (apply_all ops s)
unfolding apply_all
apply_all-Extends [] s = no_entry s
apply_all-Extends (op ∷ ops) s =
    Leaves-then s ops (apply op s) (apply-Extends op s) (apply_all-Extends ops)
