-- ===== src/Consensus/Engine/Moves.antt =====
-- What each stretch of the engine's code does to its place and what it sends.
use dew.Base.{
  ◌+◌, ◌^◌, ◌≤◌, ◌<◌, ◌≡◌, ◌⊎◌, refl, inl, inr, true, not, Option, none, some, [], ◌∷◌, ◌++◌, ◌==◌,
  Bool-cases, if_rule, Option-cases, arith, u64_of_lt, Result, ok, err,
}
use dew.Consensus.Message.{
  Hash, Vote, vote_prevote, vote_precommit, sign_vote, verify_vote, MessageError,
}
use dew.Consensus.Message.Signing.{sign_vote-keeps}
use dew.Consensus.ValidatorSet.{Validator, get}
use dew.Consensus.VoteSet.{majority_hash}
use dew.Consensus.Engine.Types.{
  Step, new_round, propose, prevote, precommit, commit, Engine, Env, Outbox, empty_box, send_vote,
  Reply, message, non_validator,
}
use dew.Consensus.Engine.{
  enter_next_round, enter_commit, is_step, try_after_precommit, add_prevote, add_precommit,
  unsigned_vote, lock_polka, enter_precommit, try_after_prevote, handle_vote, dispatch_vote,
  handle_prevote, handle_precommit,
}
use dew.Consensus.Engine.Order.{rank, Beyond}

-- There is room for one more height and one more round in a uint64.
pub record Room (e : Engine) : Type 0 where
  pub height : e.height + 1 < 2 ^ 64
  pub round : e.round + 1 < 2 ^ 64

pub Beyond-refl : (e : Engine) → Beyond (rank e.step) e e
Beyond-refl e = ground arith

pub next_round-Beyond : (e : Engine) → Room e → Beyond (rank e.step) e (enter_next_round e)
unfolding enter_next_round
next_round-Beyond e r = ground (arith, u64_of_lt (e.round + 1))

module _ (e : Engine) (box : Outbox) where
  votes-enter_commit : (h : Hash) → (enter_commit e h box).1.votes ≡ box.votes
  unfolding enter_commit
  votes-enter_commit h = ground arith

  pub votes-try_after_precommit : (try_after_precommit e box).1.votes ≡ box.votes
  unfolding try_after_precommit
  votes-try_after_precommit =
      elim (Option-cases (majority_hash e.precommits e.val_set.total_power)) [
        | inl q ↦ ground arith
        | inr (h, q) ↦ ground (arith, votes-enter_commit h)
      ]

module _ (e : Engine) (box : Outbox) (room : Room e) where
  enter_commit-Beyond : (h : Hash) → Beyond (rank e.step) e (enter_commit e h box).0
  unfolding enter_commit
  enter_commit-Beyond h = ground (arith, u64_of_lt (e.height + 1))

  pub try_after_precommit-Beyond : Beyond (rank e.step) e (try_after_precommit e box).0
  unfolding try_after_precommit
  try_after_precommit-Beyond =
      elim (Option-cases (majority_hash e.precommits e.val_set.total_power)) [
        | inl q ↦ ground arith
        | inr (h, q) ↦ ground (arith, next_round-Beyond e room, enter_commit-Beyond h)
      ]

-- A call sends nothing, or one precommit of its round, which it had not come to.
abbrev pub Precommits : Engine → Outbox → Reply → Type 0
Precommits e box r =
    (Beyond (rank e.step) e r.0 × (r.1.votes ≡ box.votes))
    ⊎ ((v : Vote) × (v.typ ≡ vote_precommit)
        × (v.height ≡ e.height)
        × (v.round ≡ e.round)
        × (rank e.step ≤ 2)
        × (r.1.votes ≡ box.votes ++ v ∷ [])
        × Beyond 3 e r.0)

module _ (env : Env) (e : Engine) (box : Outbox) (room : Room e) (early : rank e.step ≤ 2) where
  precommitted :
      (h : Hash) (v : Vote)
      → Beyond 3 e (try_after_precommit (add_precommit (lock_polka e h) v).0 (send_vote box v)).0
  unfolding lock_polka add_precommit
  precommitted h v = ground (
    arith,
    try_after_precommit-Beyond (add_precommit (lock_polka e h) v).0 (send_vote box v) room',
  )
    where
      room' : Room (add_precommit (lock_polka e h) v).0
      room' = ground arith

  locked : (h : Hash) → Beyond (rank e.step) e (lock_polka e h)
  unfolding lock_polka
  locked h = ground arith

  enter_precommit-Precommits : (h : Hash) → Precommits e box (enter_precommit env e h box)
  unfolding enter_precommit
  enter_precommit-Precommits h = signed (sign_vote env.crypto unsigned e.key) refl
    where
      unsigned : Vote
      unsigned = unsigned_vote vote_precommit e.height e.round h e.address

      signed :
          (r : Result MessageError Vote)
          → sign_vote env.crypto unsigned e.key ≡ r
          → Precommits e box (enter_precommit env e h box)
      signed (err x) s = rw (s, enter_precommit) (inl (locked h, refl))
      signed (ok v) s =
          let (t, hh, r, b) = sign_vote-keeps env.crypto unsigned v e.key s in
          rw (s, enter_precommit)
            (inr (
              v,
              unfold unsigned_vote in t,
              unfold unsigned_vote in hh,
              unfold unsigned_vote in r,
              early,
              votes-try_after_precommit _ (send_vote box v),
              precommitted h v,
            ))

-- At most one height and one round further.
pub record Near (e e' : Engine) : Type 0 where
  pub height : e'.height ≤ e.height + 1
  pub round : e'.round ≤ e.round + 1

pub Precommits-Near : (e : Engine) (box : Outbox) (r : Reply) → Precommits e box r → Near e r.0
Precommits-Near e box r (inl (b, same)) = record { height = b.height; round = b.round }
Precommits-Near e box r (inr (v, t, h, q, early, same, b)) = record {
  height = b.height;
  round = b.round;
}

-- Only the height, the round and the step of the engine at the start matter.
Beyond-from :
    (e e1 e' : Engine)
    → e.height ≡ e1.height
    → e.round ≡ e1.round
    → e.step ≡ e1.step
    → Beyond (rank e1.step) e1 e'
    → Beyond (rank e.step) e e'
Beyond-from e e1 e' h r s b = ground arith

pub Precommits-from :
    (e e1 : Engine) (box : Outbox) (r : Reply)
    → e.height ≡ e1.height
    → e.round ≡ e1.round
    → e.step ≡ e1.step
    → Precommits e1 box r
    → Precommits e box r
Precommits-from e e1 box r h q s (inl (b, same)) = inl (Beyond-from e e1 r.0 h q s b, same)
Precommits-from e e1 box r h q s (inr (v, t, vh, vr, early, sent, b)) =
    inr (v, t, omega arith, omega arith, ground arith, sent, ground arith)

pub is_step-prevote : (s : Step) → is_step s prevote ≡ true → rank s ≡ 2
unfolding is_step
is_step-prevote new_round h = cc
is_step-prevote propose h = cc
is_step-prevote prevote h = refl
is_step-prevote precommit h = cc
is_step-prevote commit h = cc

module _ (env : Env) where
  pub try_after_prevote-Precommits :
      (e : Engine) (box : Outbox) → Room e → Precommits e box (try_after_prevote env e box)
  unfolding try_after_prevote
  try_after_prevote-Precommits e box room = elim (Bool-cases (is_step e.step prevote)) [
    | inr other ↦ rw other (inl (Beyond-refl e, refl))
    | inl here ↦ elim (Option-cases (majority_hash e.prevotes e.val_set.total_power)) [
      | inl q ↦ rw (here, q) (inl (Beyond-refl e, refl))
      | inr (h, q) ↦
          rw (here, q)
            (enter_precommit-Precommits env e box room (omega (arith, is_step-prevote e.step here))
              h)
    ]
  ]

  handle_prevote-Precommits :
      (e : Engine) (v : Vote) → Room e → Precommits e empty_box (handle_prevote env e v)
  unfolding handle_prevote add_prevote
  handle_prevote-Precommits e v room =
      if_rule (Precommits e empty_box) (not (v.round == e.round)) (λ _. inl (Beyond-refl e, refl))
        λ _.
          if_rule (Precommits e empty_box) (add_prevote e v).1
            (λ _.
              Precommits-from e (add_prevote e v).0 empty_box
                (try_after_prevote env (add_prevote e v).0 empty_box) refl refl refl
                (try_after_prevote-Precommits (add_prevote e v).0 empty_box
                  (record { height = room.height; round = room.round })))
            (λ _. inl (ground arith, refl))

  handle_precommit-Precommits :
      (e : Engine) (v : Vote) → Room e → Precommits e empty_box (handle_precommit env e v)
  unfolding handle_precommit add_precommit
  handle_precommit-Precommits e v room =
      if_rule (Precommits e empty_box) (not (v.round == e.round)) (λ _. inl (Beyond-refl e, refl))
        λ _.
          if_rule (Precommits e empty_box) (add_precommit e v).1
            (λ _. inl (
              Beyond-from e (add_precommit e v).0 _ refl refl refl (
                  try_after_precommit-Beyond (add_precommit e v).0 empty_box
                    (record { height = room.height; round = room.round })),
              votes-try_after_precommit (add_precommit e v).0 empty_box,
            ))
            (λ _. inl (ground arith, refl))

  dispatch_vote-Precommits :
      (e : Engine) (v : Vote) → Room e → Precommits e empty_box (dispatch_vote env e v)
  unfolding dispatch_vote
  dispatch_vote-Precommits e v room = elim (Bool-cases (v.typ == vote_prevote)) [
    | inl t ↦ rw t (handle_prevote-Precommits e v room)
    | inr t ↦ elim (Bool-cases (v.typ == vote_precommit)) [
      | inl t' ↦ rw (t, t') (handle_precommit-Precommits e v room)
      | inr t' ↦ rw (t, t') (inl (Beyond-refl e, refl))
    ]
  ]

  pub handle_vote-Precommits :
      (e : Engine) (v : Vote) → Room e → Precommits e empty_box (handle_vote env e v)
  unfolding handle_vote
  handle_vote-Precommits e v room =
      if_rule (Precommits e empty_box) (not (v.height == e.height)) (λ _. inl (Beyond-refl e, refl))
        λ _. verified (verify_vote env.crypto v)
    where
      member :
          (o : Option Validator)
          → Precommits e empty_box (elim o [
            | none ↦ (e, empty_box, some non_validator)
            | some w ↦ dispatch_vote env e v
          ])
      member none = inl (Beyond-refl e, refl)
      member (some w) = dispatch_vote-Precommits e v room

      verified :
          (r : Result MessageError (Unit {0}))
          → Precommits e empty_box (elim r [
            | err x ↦ (e, empty_box, some (message x))
            | ok u ↦ elim (get e.val_set v.validator) [
              | none ↦ (e, empty_box, some non_validator)
              | some w ↦ dispatch_vote env e v
            ]
          ])
      verified (err x) = inl (Beyond-refl e, refl)
      verified (ok u) = member (get e.val_set v.validator)
