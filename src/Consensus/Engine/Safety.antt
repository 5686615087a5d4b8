-- ===== src/Consensus/Engine/Safety.antt =====
-- Whatever the schedule, one engine sends at most one prevote and one precommit for each round.
use dew.Base.{
  ℕ, zero, suc, ◌+◌, ◌^◌, ◌≤◌, ◌<◌, ◌≡◌, subst, ◌∙◌, Option, none, some, List, [], ◌∷◌, All, arith,
  Result, ok, err, length, u64, u64_of_lt,
}
use dew.Consensus.Message.{Header, Block}
use dew.Consensus.ValidatorSet.{ValidatorSet}
use dew.Consensus.Engine.Types.{
  Engine, Env, EngineError, PrevoteContext, RoundContext, empty_box, Reply, Pause, returns,
  prevotes,
}
use dew.Consensus.Engine.{prevote_finish, handle_vote, reset_votes}
use dew.Consensus.Engine.Order.{rank, Beyond, NoDouble}
use dew.Consensus.Engine.Moves.{Room, Near, Precommits, Precommits-Near, handle_vote-Precommits}
use dew.Consensus.Engine.Invariant.{Waits, Elsewhere, Separate, Inv, Inv-Beyond, Inv-Precommits}
use dew.Consensus.Engine.Schedule.{Paused, prevote_finish-Inv}
use dew.Consensus.Engine.Calls.{
  start_round_begin-Beyond, replace_val_set-Beyond, set_propose_root-Beyond, force_timeout-Beyond,
  Steady, apply_synced_block-Beyond, start_round_finish-Steady, handle_proposal-Steady,
  start_round_finish-Inv, handle_proposal-Inv,
}
use dew.Consensus.Engine.Rounds.{
  start_round_begin, build_block, start_round_finish, handle_proposal, new_engine,
}
use dew.Consensus.Engine.System.{
  System, Event, start_round, force_timeout, resume_round, resume_prevote, proposal_arrives,
  vote_arrives, block_synced, set_replaced, root_set, take_at, log_votes, reply, pause, begin,
  resume, step, run, fresh_system,
}

-- What holds of all elements holds of the one that is taken and of those that stay.
abbrev pub Taken {ℓ κ} : {A : Type ℓ} → (A → Type κ) → Option (A × List A) → Type κ
Taken P none = Unit
Taken P (some (y, ys)) = P y × All P ys

pub take_at-All {ℓ κ} :
    {A : Type ℓ} (P : A → Type κ) (i : ℕ) (xs : List A) → All P xs → Taken P (take_at i xs)
unfolding take_at
take_at-All P i [] a = tt
take_at-All P zero (x ∷ xs) a = a
take_at-All P (suc i) (x ∷ xs) a = behind (take_at i xs) (take_at-All P i xs a.1)
  where
    behind :
        (o : Option (_ × List _))
        → Taken P o
        → Taken P (elim o [ none ↦ none | some (y, ys) ↦ some (y, x ∷ ys) ])
    behind none t = tt
    behind (some (y, ys)) t = (t.0, (a.0, t.1))

abbrev Parted : Option (PrevoteContext × List PrevoteContext) → Type 0
Parted none = Unit
Parted (some (c, rest)) = All (Elsewhere c) rest × Separate rest

take_at-Separate : (i : ℕ) (cs : List PrevoteContext) → Separate cs → Parted (take_at i cs)
unfolding take_at
take_at-Separate i [] s = tt
take_at-Separate zero (d ∷ cs) s = s
take_at-Separate (suc i) (d ∷ cs) s =
    behind (take_at i cs) (take_at-Separate i cs s.1) (take_at-All (Elsewhere d) i cs s.0)
  where
    behind :
        (o : Option (PrevoteContext × List PrevoteContext))
        → Parted o
        → Taken (Elsewhere d) o
        → Parted (elim o [ none ↦ none | some (c, rest) ↦ some (c, d ∷ rest) ])
    behind none p t = tt
    behind (some (c, rest)) p t = ((ground arith, p.0), (t.1, p.1))

-- What holds of an engine that began at the height `h` and has seen `n` events.
record SystemInv (h n : ℕ) (s : System) : Type 0 where
  inv : Inv s.engine s.pending s.sent
  height : s.engine.height ≤ h + n
  round : s.engine.round ≤ n

module _ (env : Env) (h n : ℕ) (s : System) (fits : h + n + 1 < 2 ^ 64) (i : SystemInv h n s) where
  room : Room s.engine
  room = record { height = omega (arith, i.height); round = omega (arith, i.round) }

  moved :
      (e : Engine)
      → Beyond (rank s.engine.step) s.engine e
      → SystemInv h (n + 1) (record s { engine = e })
  moved e b = record {
    inv = Inv-Beyond s.engine e s.pending s.sent b i.inv;
    height = omega (arith, b.height, i.height);
    round = omega (arith, b.round, i.round);
  }

  idle : (rounds : List RoundContext) → SystemInv h (n + 1) (record s { rounds = rounds })
  idle rounds = record {
    inv = i.inv;
    height = omega (arith, i.height);
    round = omega (arith, i.round);
  }

  replied :
      (rest : List PrevoteContext) (r : Reply)
      → Inv r.0 rest (log_votes r.1.votes s.sent)
      → Near s.engine r.0
      → SystemInv h (n + 1) (reply (record s { pending = rest }) r)
  unfolding reply
  replied rest r inv near = record {
    inv = inv;
    height = omega (arith, near.height, i.height);
    round = omega (arith, near.round, i.round);
  }

  paused :
      (rounds : List RoundContext) (r : Engine × Pause)
      → Paused env s.pending s.sent r
      → Steady s.engine r.0
      → SystemInv h (n + 1) (pause (record s { rounds = rounds }) r)
  unfolding pause
  paused rounds (e, returns box x) p st = record {
    inv = p;
    height = omega (arith, st.height, i.height);
    round = omega (arith, st.round, i.round);
  }
  paused rounds (e, prevotes ctx) p st = record {
    inv = p;
    height = omega (arith, st.height, i.height);
    round = omega (arith, st.round, i.round);
  }

  begun :
      (r : Engine × Option RoundContext)
      → Beyond (rank s.engine.step) s.engine r.0
      → SystemInv h (n + 1) (begin s r)
  unfolding begin
  begun (e, none) b = moved e b
  begun (e, some ctx) b = record {
    inv = (moved e b).inv;
    height = (moved e b).height;
    round = (moved e b).round;
  }

  resumed :
      (rest : List RoundContext) (ctx : RoundContext) (r : Result EngineError (Option Block))
      → SystemInv h (n + 1) (resume env (record s { rounds = rest }) ctx r)
  unfolding resume
  resumed rest ctx (err x) = idle rest
  resumed rest ctx (ok block) =
      paused rest (start_round_finish env ctx block s.engine)
        (start_round_finish-Inv env s.pending s.sent s.engine i.inv ctx block)
        (start_round_finish-Steady env ctx block s.engine)

  step-SystemInv : (ev : Event) → SystemInv h (n + 1) (step env s ev)
  unfolding step
  step-SystemInv start_round =
      begun (start_round_begin s.engine) (start_round_begin-Beyond s.engine)
  step-SystemInv force_timeout = moved _ (force_timeout-Beyond s.engine room)
  step-SystemInv (resume_round j) = picked (take_at j s.rounds)
    where
      picked :
          (o : Option (RoundContext × List RoundContext))
          → SystemInv h (n + 1) (elim o [
            | none ↦ s
            | some (ctx, rest) ↦ resume env (record s { rounds = rest }) ctx (build_block env ctx)
          ])
      picked none = idle s.rounds
      picked (some (ctx, rest)) = resumed rest ctx (build_block env ctx)
  step-SystemInv (resume_prevote j) =
      picked (take_at j s.pending) (take_at-All (Waits s.engine s.sent) j s.pending i.inv.waiting)
        (take_at-Separate j s.pending i.inv.separate)
    where
      picked :
          (o : Option (PrevoteContext × List PrevoteContext))
          → Taken (Waits s.engine s.sent) o
          → Parted o
          → SystemInv h (n + 1) (elim o [
            | none ↦ s
            | some (ctx, rest) ↦
                reply (record s { pending = rest }) (prevote_finish env ctx s.engine)
          ])
      picked none t p = idle s.rounds
      picked (some (ctx, rest)) t p =
          let (inv, near) = prevote_finish-Inv env ctx s.engine rest s.sent room t.0 p.0 (record {
            settled = i.inv.settled;
            no_double = i.inv.no_double;
            waiting = t.1;
            separate = p.1;
          }) in
          replied rest (prevote_finish env ctx s.engine) inv near
  step-SystemInv (proposal_arrives p) =
      paused s.rounds (handle_proposal env p s.engine)
        (handle_proposal-Inv env s.pending s.sent s.engine i.inv p)
        (handle_proposal-Steady env p s.engine)
  step-SystemInv (vote_arrives v) =
      let r : Reply = handle_vote env s.engine v in
      let out : Precommits s.engine empty_box r = handle_vote-Precommits env s.engine v room in
      replied s.pending r
        (Inv-Precommits s.engine empty_box r s.pending s.sent out (unfold log_votes in i.inv))
        (Precommits-Near s.engine empty_box r out)
  step-SystemInv (block_synced b) = moved _ (apply_synced_block-Beyond env b s.engine room)
  step-SystemInv (set_replaced vs) = moved _ (replace_val_set-Beyond vs s.engine)
  step-SystemInv (root_set root) = moved _ (set_propose_root-Beyond root s.engine)

run-SystemInv :
    (env : Env) (h n : ℕ) (s : System) (evs : List Event)
    → h + n + length evs + 1 < 2 ^ 64
    → SystemInv h n s
    → SystemInv h (n + length evs) (run env s evs)
unfolding run
run-SystemInv env h n s [] fits i = record {
  inv = i.inv;
  height = omega (arith, i.height);
  round = omega (arith, i.round);
}
run-SystemInv env h n s (ev ∷ evs) fits i =
    let e : n + 1 + length evs ≡ n + length (ev ∷ evs) = omega arith in
    subst (λ m. SystemInv h m (run env (step env s ev) evs)) e
      (run-SystemInv env h (n + 1) (step env s ev) evs (omega arith)
        (step-SystemInv env h n s (omega arith) i ev))

new_engine-start :
    (env : Env) (key : ℕ) (vs : ValidatorSet) (parent : Header) (root : ℕ) (e : Engine)
    → new_engine env key vs parent root ≡ ok e
    → (e.height ≡ u64 (parent.number + 1)) × (e.round ≡ 0)
unfolding new_engine reset_votes
new_engine-start env key vs parent root e made = ground arith

fresh_system-SystemInv : (e : Engine) → e.round ≡ 0 → SystemInv e.height 0 (fresh_system e)
fresh_system-SystemInv e r = record {
  inv = record { settled = tt; no_double = tt; waiting = tt; separate = tt };
  height = omega arith;
  round = omega arith;
}

-- From a new engine, after any schedule of calls, messages, timeouts, synced blocks and new
-- validator sets, short enough for heights and rounds not to wrap: no two votes that it sent have
-- the same type, height and round.
pub run-NoDouble :
    (env : Env) (key : ℕ) (vs : ValidatorSet) (parent : Header) (root : ℕ) (e : Engine)
    (evs : List Event)
    → new_engine env key vs parent root ≡ ok e
    → parent.number + length evs + 2 < 2 ^ 64
    → NoDouble (run env (fresh_system e) evs).sent
run-NoDouble env key vs parent root e evs made fits =
    let (height, round) = new_engine-start env key vs parent root e made in
    let h : e.height ≡ parent.number + 1 = height ∙ u64_of_lt (parent.number + 1) (omega arith) in
    (run-SystemInv env e.height 0 (fresh_system e) evs (omega arith)
      (fresh_system-SystemInv e round)).inv.no_double
