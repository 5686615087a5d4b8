-- ===== src/Consensus/Engine/Loose.antt =====
-- consensus/engine.go: no stretch of code brings a lock to the step before a prevote.
use dew.Base.{
  ◌≤◌, ◌≡◌, ◌⊎◌, inl, inr, false, not, ◌&&◌, ◌||◌, Option, none, some, Option-cases, if_rule,
  is_some, if◌then◌else◌, arith, Result, ok, err, ◌==◌,
}
use dew.Base.Int.{negsuc}
use dew.Consensus.Message.{Hash, Block, Vote, Proposal, MessageError, sign_vote, sign_proposal}
use dew.Consensus.ValidatorSet.{proposer}
use dew.Consensus.VoteSet.{majority_hash}
use dew.Consensus.Engine.Types.{
  Engine, Env, EngineError, Outbox, empty_box, send_vote, send_proposal, Reply, PrevoteContext,
  RoundContext, Pause, returns, prevotes, prevote, propose, new_round, message, nil_block,
}
use dew.Consensus.Engine.{
  is_step, enter_next_round, enter_commit, try_after_precommit, add_prevote, add_precommit,
  lock_polka, unsigned_vote, enter_precommit, try_after_prevote, handle_vote, dispatch_vote,
  handle_prevote, handle_precommit, prevote_begin, prevote_finish, prevote_hash,
}
use dew.Consensus.Engine.Order.{rank}
use dew.Consensus.Engine.Schedule.{is_step-early}
use dew.Consensus.Engine.Rounds.{
  start_round_finish, unsigned_proposal, propose_block, check_proposal, accept_proposal,
  handle_proposal,
}

-- Before the prevote step of a round, nothing is locked.
abbrev pub Loose : Engine → Type 0
Loose e = (2 ≤ rank e.step) ⊎ (e.locked_round ≡ negsuc 0)

abbrev pub LooseReply : Reply → Type 0
LooseReply r = Loose r.0

module _ (e : Engine) (box : Outbox) (l : Loose e) where
  enter_commit-Loose : (h : Hash) → Loose (enter_commit e h box).0
  unfolding enter_commit
  enter_commit-Loose h = ground (arith, l)

  try_after_precommit-Loose : Loose (try_after_precommit e box).0
  unfolding try_after_precommit enter_next_round
  try_after_precommit-Loose =
      elim (Option-cases (majority_hash e.precommits e.val_set.total_power)) [
        | inl q ↦ ground (arith, l)
        | inr (h, q) ↦ ground (arith, l, enter_commit-Loose h)
      ]

module _ (env : Env) where
  enter_precommit-Loose :
      (e : Engine) (h : Hash) (box : Outbox) → Loose (enter_precommit env e h box).0
  unfolding enter_precommit lock_polka add_precommit
  enter_precommit-Loose e h box =
      signed (sign_vote env.crypto (unsigned_vote 2 e.height e.round h e.address) e.key)
    where
      signed :
          (r : Result MessageError Vote)
          → LooseReply (elim r [
            | err x ↦ (lock_polka e h, box, some (message x))
            | ok v ↦ try_after_precommit (add_precommit (lock_polka e h) v).0 (send_vote box v)
          ])
      signed (err x) = ground arith
      signed (ok v) = try_after_precommit-Loose _ (send_vote box v) (ground arith)

  try_after_prevote-Loose :
      (e : Engine) (box : Outbox) → Loose e → Loose (try_after_prevote env e box).0
  unfolding try_after_prevote
  try_after_prevote-Loose e box l =
      elim (Option-cases (majority_hash e.prevotes e.val_set.total_power)) [
        | inl q ↦ ground (arith, l)
        | inr (h, q) ↦ ground (arith, l, enter_precommit-Loose e h box)
      ]

  pub handle_vote-Loose : (e : Engine) (v : Vote) → Loose e → Loose (handle_vote env e v).0
  unfolding handle_vote dispatch_vote handle_prevote handle_precommit add_prevote add_precommit
  handle_vote-Loose e v l = ground (
    arith,
    l,
    try_after_prevote-Loose (add_prevote e v).0 empty_box l,
    try_after_precommit-Loose (add_precommit e v).0 empty_box l,
  )

  pub prevote_finish-Loose :
      (ctx : PrevoteContext) (e : Engine) → Loose e → Loose (prevote_finish env ctx e).0
  unfolding prevote_finish add_prevote
  prevote_finish-Loose ctx e l = signed (
      sign_vote env.crypto (unsigned_vote 1 ctx.height ctx.round (prevote_hash env ctx) ctx.addr)
        ctx.key)
    where
      signed :
          (r : Result MessageError Vote)
          → LooseReply (elim r [
            | err x ↦ (e, ctx.box, some (message x))
            | ok v ↦
                if not (e.height == ctx.height)
                  || not (e.round == ctx.round)
                  || not (is_step e.step prevote)
                then (e, ctx.box, none)
                else try_after_prevote env (add_prevote e v).0 (send_vote ctx.box v)
          ])
      signed (err x) = l
      signed (ok v) =
          ground (arith, l, try_after_prevote-Loose (add_prevote e v).0 (send_vote ctx.box v) l)

  -- A stretch ends in an engine that is loose, and a call that waits holds no lock.
  abbrev pub Free : Engine × Pause → Type 0
  Free (e, returns box x) = Loose e
  Free (e, prevotes ctx) = Loose e × (ctx.locked_round ≡ negsuc 0)

  prevote_begin-Free : (e : Engine) (box : Outbox) → Loose e → Free (prevote_begin env e box)
  unfolding prevote_begin
  prevote_begin-Free e box l =
      if_rule Free (not (is_step e.step propose) && not (is_step e.step new_round)) (λ _. l)
        (λ h. (inl (omega arith), ground (arith, l, is_step-early e.step h)))

  pub start_round_finish-Free :
      (ctx : RoundContext) (o : Option Block) (e : Engine)
      → Loose e
      → Free (start_round_finish env ctx o e)
  unfolding start_round_finish propose_block
  start_round_finish-Free ctx o e l =
      if_rule Free
        (not (e.height == ctx.height) || not (e.round == ctx.round) || not (is_step e.step propose))
        (λ _. l) λ _. if_rule Free (not ctx.is_proposer) (λ _. l) λ _. built o
    where
      signed :
          (r : Result MessageError Proposal)
          → Free (elim r [
            | err x ↦ (e, returns empty_box (some (message x)))
            | ok p ↦ prevote_begin env (record e { proposal = some p }) (send_proposal empty_box p)
          ])
      signed (err x) = l
      signed (ok p) =
          prevote_begin-Free (record e { proposal = some p }) (send_proposal empty_box p) l

      built :
          (o : Option Block)
          → Free (elim o [
            | none ↦ (e, returns empty_box (some nil_block))
            | some b ↦ propose_block env ctx b e
          ])
      built none = l
      built (some b) = signed (sign_proposal env.crypto (unsigned_proposal env ctx b) ctx.key)

  pub handle_proposal-Free : (p : Proposal) (e : Engine) → Loose e → Free (handle_proposal env p e)
  unfolding handle_proposal accept_proposal
  handle_proposal-Free p e l = checked (check_proposal env p)
    where
      accepted : Free (accept_proposal env p e)
      accepted =
          if_rule Free
            (elim (proposer e.val_set e.height e.round) [ none ↦ false | some a ↦ p.proposer == a ])
            (λ _. prevote_begin-Free (record e { proposal = some p }) empty_box l) (λ _. l)

      checked :
          (o : Option EngineError)
          → Free (elim o [
            | some x ↦ (e, returns empty_box (some x))
            | none ↦
                if not (p.height == e.height) || not (p.round == e.round)
                then (e, returns empty_box none)
                else if is_some e.proposal
                then (e, returns empty_box none)
                else accept_proposal env p e
          ])
      checked (some x) = l
      checked none =
          if_rule Free (not (p.height == e.height) || not (p.round == e.round)) (λ _. l)
            λ _. if_rule Free (is_some e.proposal) (λ _. l) λ _. accepted
