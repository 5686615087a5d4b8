-- ===== src/Consensus/Engine.antt =====
-- consensus/engine.go. Each function is one stretch of code under `e.mu`: StartRound and
-- enterPrevoteLocked release the lock on the way, and what other goroutines do meanwhile comes
-- between their parts.
pub mod Types
pub mod Rounds
pub mod System
pub mod Order
mod Moves
mod Invariant
mod Schedule
mod Calls
pub mod Safety
mod Loose
pub mod Lock
pub mod Toy
mod Examples
use dew.Base.{
  ℕ, ◌+◌, Bool, true, false, not, ◌&&◌, ◌||◌, Option, none, some, List, [], ◌∷◌, ◌==◌, ltb,
  if◌then◌else◌, u64, Result, ok, err, is_some, length,
}
use dew.Base.Int.{ℤ, negsuc, int64, is_nonneg}
use dew.Consensus.Message.{
  Hash, Header, Block, Proposal, Vote, vote_prevote, vote_precommit, MessageError, hash_of,
  sign_proposal, sign_vote, verify_proposal, verify_vote,
}
use dew.Consensus.ValidatorSet.{ValidatorSet, get, power_of, proposer, size}
use dew.Consensus.VoteSet.{VoteSet, new_vote_set, add, majority_hash, votes_for}
use Types.{
  Step, new_round, propose, prevote, precommit, commit, CommitEvent, Outbox, empty_box,
  send_proposal, send_vote, Engine, EngineError, message, not_in_set, build_failed, nil_block,
  hash_mismatch, non_proposer, non_validator, unknown_vote_type, no_matching_proposal,
  height_mismatch, parent_mismatch, missing_validator_set, Env, Reply, PrevoteContext, RoundContext,
  Pause, returns, prevotes,
}

-- The nil vote sets of an engine that `reset_votes` has not filled yet.
pub blank_votes : VoteSet
blank_votes = new_vote_set 0 0 0

pub reset_votes : Engine → Engine
reset_votes e = record e {
  prevotes = new_vote_set vote_prevote e.height e.round;
  precommits = new_vote_set vote_precommit e.height e.round;
  proposal = none;
  committed = false;
}

-- lockedRound = -1, lockedHash = zero
abbrev pub unlock : Engine → Engine
unlock e = record e { locked_round = negsuc 0; locked_hash = 0 }

pub enter_next_round : Engine → Engine
unfolding reset_votes
enter_next_round e = record (reset_votes (unlock (record e { round = u64 (e.round + 1) }))) {
  step = new_round;
}

-- The header of the block that the proposal carries, if it carries one.
next_parent : Engine → Proposal → Header
next_parent e p = elim p.block [ none ↦ e.parent | some b ↦ b.header ]

commit_event : Engine → Proposal → Hash → CommitEvent
commit_event e p block_hash = record {
  height = e.height;
  round = e.round;
  block_hash = block_hash;
  block = p.block;
  precommits = votes_for e.precommits block_hash;
}

-- The new height that a commit begins.
advance : Engine → Header → CommitEvent → Engine
unfolding reset_votes
advance e parent ev =
    record (reset_votes (
      unlock (record e {
        parent = parent;
        height = u64 (e.height + 1);
        round = 0;
        last_commit = some ev;
      }))) { step = new_round }

pub enter_commit : Engine → Hash → Outbox → Reply
unfolding next_parent commit_event advance
enter_commit e block_hash box = if e.committed then (e, box, none) else elim e.proposal [
  | none ↦ (e, box, some no_matching_proposal)
  | some p ↦
      if p.block_hash == block_hash
      then (let ev = commit_event e p block_hash in
          (advance e (next_parent e p) ev, record box { commit = some ev }, none))
      else (e, box, some no_matching_proposal)
]

pub is_step : Step → Step → Bool
is_step new_round new_round = true
is_step propose propose = true
is_step prevote prevote = true
is_step precommit precommit = true
is_step commit commit = true
is_step _ _ = false

pub try_after_precommit : Engine → Outbox → Reply
unfolding is_step
try_after_precommit e box =
    if is_step e.step precommit
    then elim (majority_hash e.precommits e.val_set.total_power) [
      | none ↦ (e, box, none)
      | some maj ↦ if maj == 0 then (enter_next_round e, box, none) else enter_commit e maj box
    ]
    else (e, box, none)

add_prevote : Engine → Vote → Engine × Bool
add_prevote e v =
    let (votes, fresh) = add e.prevotes v (power_of e.val_set v.validator) in
    (record e { prevotes = votes }, fresh)

add_precommit : Engine → Vote → Engine × Bool
add_precommit e v =
    let (votes, fresh) = add e.precommits v (power_of e.val_set v.validator) in
    (record e { precommits = votes }, fresh)

unsigned_vote : ℕ → ℕ → ℕ → Hash → ℕ → Vote
unsigned_vote typ height round block_hash validator = record {
  typ = typ;
  height = height;
  round = round;
  block_hash = block_hash;
  validator = validator;
  signature = [];
}

-- A polka for a block locks it.
lock_polka : Engine → Hash → Engine
lock_polka e polka =
    if polka == 0
    then record e { step = precommit }
    else record e { step = precommit; locked_round = int64 e.round; locked_hash = polka }

module _ (env : Env) where
  pub enter_precommit : Engine → Hash → Outbox → Reply
  enter_precommit e polka box =
      elim (sign_vote env.crypto (unsigned_vote vote_precommit e.height e.round polka e.address)
        e.key) [
          | err x ↦ (lock_polka e polka, box, some (message x))
          | ok v ↦ try_after_precommit (add_precommit (lock_polka e polka) v).0 (send_vote box v)
        ]

  pub try_after_prevote : Engine → Outbox → Reply
  unfolding is_step
  try_after_prevote e box =
      if is_step e.step prevote
      then elim (majority_hash e.prevotes e.val_set.total_power) [
        | none ↦ (e, box, none)
        | some maj ↦ enter_precommit e maj box
      ]
      else (e, box, none)

  handle_prevote : Engine → Vote → Reply
  handle_prevote e v =
      if not (v.round == e.round)
      then (e, empty_box, none)
      else let (e', fresh) = add_prevote e v in
        if fresh then try_after_prevote e' empty_box else (e', empty_box, none)

  handle_precommit : Engine → Vote → Reply
  handle_precommit e v =
      if not (v.round == e.round)
      then (e, empty_box, none)
      else let (e', fresh) = add_precommit e v in
        if fresh then try_after_precommit e' empty_box else (e', empty_box, none)

  dispatch_vote : Engine → Vote → Reply
  dispatch_vote e v =
      if v.typ == vote_prevote
      then handle_prevote e v
      else if v.typ == vote_precommit
      then handle_precommit e v
      else (e, empty_box, some unknown_vote_type)

  -- HandleVote
  pub handle_vote : Engine → Vote → Reply
  handle_vote e v =
      if not (v.height == e.height) then (e, empty_box, none) else elim (verify_vote env.crypto v) [
        | err x ↦ (e, empty_box, some (message x))
        | ok u ↦ elim (get e.val_set v.validator) [
          | none ↦ (e, empty_box, some non_validator)
          | some w ↦ dispatch_vote e v
        ]
      ]

  -- enterPrevoteLocked up to the release of the lock.
  pub prevote_begin : Engine → Outbox → Engine × Pause
  unfolding is_step
  prevote_begin e box =
      if not (is_step e.step propose) && not (is_step e.step new_round)
      then (e, returns box none)
      else (
        record e { step = prevote },
        prevotes (record {
          height = e.height;
          round = e.round;
          parent = e.parent;
          prop = e.proposal;
          locked_round = e.locked_round;
          locked_hash = e.locked_hash;
          addr = e.address;
          key = e.key;
          box = box;
        }),
      )

  pub proposed_hash : PrevoteContext → Hash
  proposed_hash ctx = elim ctx.prop [
    | none ↦ 0
    | some p ↦ elim p.block [
      | none ↦ 0
      | some b ↦ if env.validate_proposal ctx.height ctx.parent b then p.block_hash else 0
    ]
  ]

  -- The hash that is voted for, computed without the lock.
  pub prevote_hash : PrevoteContext → Hash
  unfolding proposed_hash
  prevote_hash ctx =
      if is_nonneg ctx.locked_round && not (ctx.locked_hash == 0)
      then ctx.locked_hash
      else proposed_hash ctx

  -- enterPrevoteLocked from the moment that it has the lock again.
  pub prevote_finish : PrevoteContext → Engine → Reply
  unfolding is_step
  prevote_finish ctx e =
      elim (sign_vote env.crypto
        (unsigned_vote vote_prevote ctx.height ctx.round (prevote_hash ctx) ctx.addr) ctx.key) [
          | err x ↦ (e, ctx.box, some (message x))
          | ok v ↦
              if not (e.height == ctx.height)
                || not (e.round == ctx.round)
                || not (is_step e.step prevote)
              then (e, ctx.box, none)
              else try_after_prevote (add_prevote e v).0 (send_vote ctx.box v)
        ]
