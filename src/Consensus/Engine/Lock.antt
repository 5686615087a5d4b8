-- ===== src/Consensus/Engine/Lock.antt =====
-- consensus/engine.go: the lock that a precommit takes is gone before the next prevote.
use dew.Base.{
  ℕ, zero, suc, ◌≡◌, refl, ap, sym, ◌∙◌, inr, Option, none, some, List, [], ◌∷◌, get_elem?, All,
  arith, Result, ok, err,
}
use dew.Base.Int.{negsuc, is_nonneg}
use dew.Consensus.Message.{Hash, Header, Block}
use dew.Consensus.ValidatorSet.{ValidatorSet}
use dew.Consensus.Engine.Types.{
  Engine, Env, EngineError, Reply, PrevoteContext, RoundContext, Pause, returns, prevotes,
}
use dew.Consensus.Engine.{
  reset_votes, enter_next_round, handle_vote, prevote_finish, proposed_hash, prevote_hash,
}
use dew.Consensus.Engine.Rounds.{
  start_round_begin, build_block, start_round_finish, handle_proposal, synced, apply_synced_block,
  force_timeout_round, replace_val_set, set_propose_root, new_engine,
}
use dew.Consensus.Engine.System.{
  System, Event, start_round, force_timeout, resume_round, resume_prevote, proposal_arrives,
  vote_arrives, block_synced, set_replaced, root_set, take_at, reply, pause, begin, resume, step,
  run, fresh_system,
}
use dew.Consensus.Engine.Safety.{Taken, take_at-All}
use dew.Consensus.Engine.Loose.{
  Loose, handle_vote-Loose, prevote_finish-Loose, Free, start_round_finish-Free,
  handle_proposal-Free,
}

record LockFree (s : System) : Type 0 where
  loose : Loose s.engine
  waiting : All (λ ctx. ctx.locked_round ≡ negsuc 0) s.pending

module _ (env : Env) (s : System) (f : LockFree s) where
  paused :
      (rounds : List RoundContext) (r : Engine × Pause)
      → Free env r
      → LockFree (pause (record s { rounds = rounds }) r)
  unfolding pause
  paused rounds (e, returns box x) l = record { loose = l; waiting = f.waiting }
  paused rounds (e, prevotes ctx) l = record { loose = l.0; waiting = (l.1, f.waiting) }

  resumed :
      (rounds : List RoundContext) (ctx : RoundContext) (r : Result EngineError (Option Block))
      → LockFree (resume env (record s { rounds = rounds }) ctx r)
  unfolding resume
  resumed rounds ctx (err x) = record { loose = f.loose; waiting = f.waiting }
  resumed rounds ctx (ok block) =
      paused rounds (start_round_finish env ctx block s.engine)
        (start_round_finish-Free env ctx block s.engine f.loose)

  begun : (r : Engine × Option RoundContext) → Loose r.0 → LockFree (begin s r)
  unfolding begin
  begun (e, none) l = record { loose = l; waiting = f.waiting }
  begun (e, some ctx) l = record { loose = l; waiting = f.waiting }

  replied :
      (rest : List PrevoteContext) (r : Reply)
      → All (λ ctx. ctx.locked_round ≡ negsuc 0) rest
      → Loose r.0
      → LockFree (reply (record s { pending = rest }) r)
  unfolding reply
  replied rest r a l = record { loose = l; waiting = a }

  moved : (e : Engine) → Loose e → LockFree (record s { engine = e })
  moved e l = record { loose = l; waiting = f.waiting }

  start_round_begin-Loose : Loose (start_round_begin s.engine).0
  unfolding start_round_begin reset_votes
  start_round_begin-Loose = ground (arith, f.loose)

  synced-Loose : (b : Block) → Loose (apply_synced_block env b s.engine).0
  unfolding apply_synced_block synced reset_votes
  synced-Loose b = ground (arith, f.loose)

  replaced-Loose : (vs : ValidatorSet) → Loose (replace_val_set vs s.engine).0
  unfolding replace_val_set
  replaced-Loose vs = ground (arith, f.loose)

  step-LockFree : (ev : Event) → LockFree (step env s ev)
  unfolding step force_timeout_round enter_next_round set_propose_root reset_votes
  step-LockFree start_round = begun (start_round_begin s.engine) start_round_begin-Loose
  step-LockFree force_timeout = moved _ (inr refl)
  step-LockFree (resume_round j) = picked (take_at j s.rounds)
    where
      picked :
          (o : Option (RoundContext × List RoundContext))
          → LockFree (elim o [
            | none ↦ s
            | some (ctx, rest) ↦ resume env (record s { rounds = rest }) ctx (build_block env ctx)
          ])
      picked none = f
      picked (some (ctx, rest)) = resumed rest ctx (build_block env ctx)
  step-LockFree (resume_prevote j) =
      picked (take_at j s.pending)
        (take_at-All (λ ctx. ctx.locked_round ≡ negsuc 0) j s.pending f.waiting)
    where
      picked :
          (o : Option (PrevoteContext × List PrevoteContext))
          → Taken (λ ctx. ctx.locked_round ≡ negsuc 0) o
          → LockFree (elim o [
            | none ↦ s
            | some (ctx, rest) ↦
                reply (record s { pending = rest }) (prevote_finish env ctx s.engine)
          ])
      picked none t = f
      picked (some (ctx, rest)) t =
          replied rest (prevote_finish env ctx s.engine) t.1
            (prevote_finish-Loose env ctx s.engine f.loose)
  step-LockFree (proposal_arrives p) =
      paused s.rounds (handle_proposal env p s.engine) (handle_proposal-Free env p s.engine f.loose)
  step-LockFree (vote_arrives v) =
      replied s.pending (handle_vote env s.engine v) f.waiting
        (handle_vote-Loose env s.engine v f.loose)
  step-LockFree (block_synced b) = moved _ (synced-Loose b)
  step-LockFree (set_replaced vs) = moved _ (replaced-Loose vs)
  step-LockFree (root_set root) = moved _ f.loose

run-LockFree : (env : Env) (s : System) (evs : List Event) → LockFree s → LockFree (run env s evs)
unfolding run
run-LockFree env s [] f = f
run-LockFree env s (ev ∷ evs) f = run-LockFree env (step env s ev) evs (step-LockFree env s f ev)

get-All :
    (cs : List PrevoteContext) (i : ℕ) (ctx : PrevoteContext)
    → All (λ c. c.locked_round ≡ negsuc 0) cs
    → get_elem? cs i ≡ some ctx
    → ctx.locked_round ≡ negsuc 0
get-All [] i ctx a e = cc
get-All (c ∷ cs) zero ctx a e = let same : c ≡ ctx = cc in ap (λ d. d.locked_round) (sym same) ∙ a.0
get-All (c ∷ cs) (suc i) ctx a e = get-All cs i ctx a.1 e

-- Whatever schedule a new engine goes through, a call that waits to prevote votes for its proposal,
-- if it has a valid one, and else for nil: no lock that a precommit took is left at a prevote.
pub prevotes_without_lock :
    (env : Env) (key : ℕ) (vs : ValidatorSet) (parent : Header) (root : Hash) (e : Engine)
    (evs : List Event) (i : ℕ) (ctx : PrevoteContext)
    → new_engine env key vs parent root ≡ ok e
    → get_elem? (run env (fresh_system e) evs).pending i ≡ some ctx
    → prevote_hash env ctx ≡ proposed_hash env ctx
unfolding prevote_hash new_engine reset_votes is_nonneg
prevotes_without_lock env key vs parent root e evs i ctx made waits =
    let start : e.locked_round ≡ negsuc 0 = ground arith in
    let end : LockFree (run env (fresh_system e) evs) =
      run-LockFree env (fresh_system e) evs (record { loose = inr start; waiting = tt }) in
    ground (arith, get-All (run env (fresh_system e) evs).pending i ctx end.waiting waits)
