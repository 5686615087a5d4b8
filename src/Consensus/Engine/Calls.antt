-- ===== src/Consensus/Engine/Calls.antt =====
-- The invariant along each call of the engine.
use dew.Base.{
  ℕ, ◌+◌, ◌≡◌, refl, inl, inr, true, false, not, ◌||◌, Option, none, some, List, [], ◌==◌,
  Bool-cases, if_rule, arith, Result, ok, err, is_some, u64_of_lt,
}
use dew.Consensus.Message.{Vote, Proposal, Block, sign_proposal, MessageError}
use dew.Consensus.ValidatorSet.{ValidatorSet, proposer}
use dew.Consensus.Engine.Types.{
  Step, new_round, propose, Engine, Env, Outbox, empty_box, send_proposal, PrevoteContext,
  RoundContext, Pause, returns, message, EngineError, nil_block, non_proposer,
}
use dew.Consensus.Engine.{is_step, prevote_begin, reset_votes}
use dew.Consensus.Engine.Order.{rank, Beyond}
use dew.Consensus.Engine.Moves.{Room, next_round-Beyond}
use dew.Consensus.Engine.Invariant.{Inv, Inv-Beyond}
use dew.Consensus.Engine.Schedule.{Paused, prevote_begin-Inv}
use dew.Consensus.Engine.System.{log_votes}
use dew.Consensus.Engine.Rounds.{
  start_round_begin, start_round_finish, propose_block, unsigned_proposal, handle_proposal,
  accept_proposal, check_proposal, apply_synced_block, synced, force_timeout_round, replace_val_set,
  set_propose_root,
}

is_step-new_round : (s : Step) → is_step s new_round ≡ true → rank s ≡ 0
unfolding is_step
is_step-new_round new_round h = refl
is_step-new_round propose h = cc
is_step-new_round Step.prevote h = cc
is_step-new_round Step.precommit h = cc
is_step-new_round Step.commit h = cc

pub start_round_begin-Beyond : (e : Engine) → Beyond (rank e.step) e (start_round_begin e).0
unfolding start_round_begin
start_round_begin-Beyond e = elim (Bool-cases (is_step e.step new_round)) [
  | inl t ↦ ground (arith, is_step-new_round e.step t)
  | inr f ↦ ground arith
]

pub replace_val_set-Beyond :
    (vs : ValidatorSet) (e : Engine) → Beyond (rank e.step) e (replace_val_set vs e).0
unfolding replace_val_set
replace_val_set-Beyond vs e = ground arith

pub set_propose_root-Beyond :
    (root : ℕ) (e : Engine) → Beyond (rank e.step) e (set_propose_root root e)
unfolding set_propose_root
set_propose_root-Beyond root e = ground arith

pub force_timeout-Beyond : (e : Engine) → Room e → Beyond (rank e.step) e (force_timeout_round e)
unfolding force_timeout_round
force_timeout-Beyond e room = next_round-Beyond e room

-- The height and the round of an engine are those of another.
pub record Steady (e e' : Engine) : Type 0 where
  pub height : e'.height ≡ e.height
  pub round : e'.round ≡ e.round

module _ (env : Env) where
  pub apply_synced_block-Beyond :
      (b : Block) (e : Engine) → Room e → Beyond (rank e.step) e (apply_synced_block env b e).0
  unfolding apply_synced_block synced reset_votes
  apply_synced_block-Beyond b e room = ground (arith, u64_of_lt (b.header.number + 1))

  prevote_begin-Steady : (e : Engine) (box : Outbox) → Steady e (prevote_begin env e box).0
  unfolding prevote_begin
  prevote_begin-Steady e box = ground arith

  pub start_round_finish-Steady :
      (ctx : RoundContext) (o : Option Block) (e : Engine)
      → Steady e (start_round_finish env ctx o e).0
  unfolding start_round_finish propose_block prevote_begin
  start_round_finish-Steady ctx o e = ground arith

  pub handle_proposal-Steady : (p : Proposal) (e : Engine) → Steady e (handle_proposal env p e).0
  unfolding handle_proposal accept_proposal
  handle_proposal-Steady p e =
      ground (arith, prevote_begin-Steady (record e { proposal = some p }) empty_box)

  module _ (pending : List PrevoteContext) (sent : List Vote) (e : Engine)
      (i : Inv e pending sent) where
    abbrev Good : Engine × Pause → Type 0
    Good = Paused env pending sent

    quiet : (box : Outbox) (x : Option EngineError) → box.votes ≡ [] → Good (e, returns box x)
    quiet box x silent = rw silent (unfold log_votes in i)

    with_proposal : (p : Proposal) → Inv (record e { proposal = some p }) pending sent
    with_proposal p = Inv-Beyond e (record e { proposal = some p }) pending sent (ground arith) i

    propose_block-Inv : (ctx : RoundContext) (b : Block) → Good (propose_block env ctx b e)
    unfolding propose_block
    propose_block-Inv ctx b =
        signed (sign_proposal env.crypto (unsigned_proposal env ctx b) ctx.key) refl
      where
        signed :
            (r : Result MessageError Proposal)
            → sign_proposal env.crypto (unsigned_proposal env ctx b) ctx.key ≡ r
            → Good (propose_block env ctx b e)
        signed (err x) s = rw (s, propose_block) (quiet empty_box (some (message x)) refl)
        signed (ok p) s =
            rw (s, propose_block)
              (prevote_begin-Inv env pending sent (record e { proposal = some p })
                (send_proposal empty_box p) refl (with_proposal p))

    accept_proposal-Inv : (p : Proposal) → Good (accept_proposal env p e)
    unfolding accept_proposal
    accept_proposal-Inv p =
        if_rule Good
          (elim (proposer e.val_set e.height e.round) [ none ↦ false | some a ↦ p.proposer == a ])
          (λ _.
            prevote_begin-Inv env pending sent (record e { proposal = some p }) empty_box refl
              (with_proposal p))
          (λ _. quiet empty_box (some non_proposer) refl)

    pub start_round_finish-Inv :
        (ctx : RoundContext) (o : Option Block) → Good (start_round_finish env ctx o e)
    unfolding start_round_finish
    start_round_finish-Inv ctx o =
        if_rule Good
          (not (e.height == ctx.height)
            || not (e.round == ctx.round)
            || not (is_step e.step propose))
          (λ _. quiet empty_box none refl)
          λ _. if_rule Good (not ctx.is_proposer) (λ _. quiet empty_box none refl) λ _. built o
      where
        built :
            (o : Option Block)
            → Good (elim o [
              | none ↦ (e, returns empty_box (some nil_block))
              | some b ↦ propose_block env ctx b e
            ])
        built none = quiet empty_box (some nil_block) refl
        built (some b) = propose_block-Inv ctx b

    pub handle_proposal-Inv : (p : Proposal) → Good (handle_proposal env p e)
    unfolding handle_proposal
    handle_proposal-Inv p = checked (check_proposal env p) refl
      where
        checked :
            (o : Option EngineError) → check_proposal env p ≡ o → Good (handle_proposal env p e)
        checked (some x) q = rw (q, handle_proposal) (quiet empty_box (some x) refl)
        checked none q =
            rw (q, handle_proposal)
              (if_rule Good (not (p.height == e.height) || not (p.round == e.round))
                (λ _. quiet empty_box none refl)
                λ _.
                  if_rule Good (is_some e.proposal) (λ _. quiet empty_box none refl)
                    λ _. accept_proposal-Inv p)
