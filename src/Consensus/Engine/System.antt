-- ===== src/Consensus/Engine/System.antt =====
-- One engine among its goroutines: the calls that wait without the lock, the votes sent so far, and
-- a schedule of what happens next. An event that names no waiting call does nothing.
use dew.Base.{ℕ, zero, suc, Option, none, some, List, [], ◌∷◌, Result, ok, err}
use dew.Consensus.Message.{Hash, Block, Proposal, Vote}
use dew.Consensus.ValidatorSet.{ValidatorSet}
use dew.Consensus.Engine.Types.{
  Engine, Env, EngineError, Reply, PrevoteContext, RoundContext, Pause, returns, prevotes,
}
use dew.Consensus.Engine.{handle_vote, prevote_finish}
use dew.Consensus.Engine.Rounds.{
  start_round_begin, build_block, start_round_finish, handle_proposal, apply_synced_block,
  force_timeout_round, replace_val_set, set_propose_root,
}

pub record System : Type 0 where
  pub engine : Engine
  pub rounds : List RoundContext
  pub pending : List PrevoteContext
  pub sent : List Vote

pub data Event : Type 0 where
  start_round force_timeout : Event
  resume_round resume_prevote : ℕ → Event
  proposal_arrives : Proposal → Event
  vote_arrives : Vote → Event
  block_synced : Block → Event
  set_replaced : ValidatorSet → Event
  root_set : Hash → Event

-- The element at a position, and the others.
unfoldable pub take_at {ℓ} : {A : Type ℓ} → ℕ → List A → Option (A × List A)
take_at i [] = none
take_at zero (x ∷ xs) = some (x, xs)
take_at (suc i) (x ∷ xs) = elim (take_at i xs) [ none ↦ none | some (y, ys) ↦ some (y, x ∷ ys) ]

-- The votes of an outbox go out, the newest to the front.
unfoldable pub log_votes : List Vote → List Vote → List Vote
log_votes [] sent = sent
log_votes (v ∷ vs) sent = log_votes vs (v ∷ sent)

unfoldable pub reply : System → Reply → System
unfolding log_votes
reply s (e, box, x) = record s { engine = e; sent = log_votes box.votes s.sent }

unfoldable pub pause : System → Engine × Pause → System
unfolding log_votes
pause s (e, returns box x) = record s { engine = e; sent = log_votes box.votes s.sent }
pause s (e, prevotes ctx) = record s { engine = e; pending = ctx ∷ s.pending }

unfoldable pub begin : System → Engine × Option RoundContext → System
begin s (e, none) = record s { engine = e }
begin s (e, some ctx) = record s { engine = e; rounds = ctx ∷ s.rounds }

module _ (env : Env) where
  unfoldable pub resume : System → RoundContext → Result EngineError (Option Block) → System
  resume s ctx (err x) = s
  resume s ctx (ok block) = pause s (start_round_finish env ctx block s.engine)

  unfoldable pub step : System → Event → System
  step s start_round = begin s (start_round_begin s.engine)
  step s (resume_round i) = elim (take_at i s.rounds) [
    | none ↦ s
    | some (ctx, rest) ↦ resume (record s { rounds = rest }) ctx (build_block env ctx)
  ]
  step s (proposal_arrives p) = pause s (handle_proposal env p s.engine)
  step s (resume_prevote i) = elim (take_at i s.pending) [
    | none ↦ s
    | some (ctx, rest) ↦ reply (record s { pending = rest }) (prevote_finish env ctx s.engine)
  ]
  step s (vote_arrives v) = reply s (handle_vote env s.engine v)
  step s force_timeout = record s { engine = force_timeout_round s.engine }
  step s (block_synced b) = record s { engine = (apply_synced_block env b s.engine).0 }
  step s (set_replaced vs) = record s { engine = (replace_val_set vs s.engine).0 }
  step s (root_set root) = record s { engine = set_propose_root root s.engine }

  unfoldable pub run : System → List Event → System
  run s [] = s
  run s (ev ∷ evs) = run (step s ev) evs

-- An engine that has just been made.
abbrev pub fresh_system : Engine → System
fresh_system e = record { engine = e; rounds = []; pending = []; sent = [] }
