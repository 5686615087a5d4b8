-- ===== src/Consensus/Engine/Schedule.antt =====
-- The invariant along a schedule: an engine never sends two votes of one type for one round.
use dew.Base.{
  ◌≤◌, ◌≡◌, ◌≢◌, ◌⊎◌, refl, inr, true, false, not, ◌&&◌, ◌||◌, Option, none, some, List, [], ◌∷◌,
  ◌==◌, if_rule, All, arith, Result, ok, err,
}
use dew.Consensus.Message.{Vote, vote_prevote, sign_vote, MessageError}
use dew.Consensus.Message.Signing.{sign_vote-keeps}
use dew.Consensus.Engine.Types.{
  Step, new_round, propose, prevote, precommit, commit, Engine, Env, Outbox, send_vote, Reply,
  PrevoteContext, Pause, returns, prevotes, message, EngineError,
}
use dew.Consensus.Engine.{
  is_step, add_prevote, unsigned_vote, prevote_hash, try_after_prevote, prevote_finish,
  prevote_begin,
}
use dew.Consensus.Engine.Order.{rank, All-Settled-Beyond, prevote_unsent}
use dew.Consensus.Engine.Moves.{
  Room, Near, Precommits, Precommits-Near, Precommits-from, try_after_prevote-Precommits,
  is_step-prevote,
}
use dew.Consensus.Engine.Invariant.{
  Waits, Elsewhere, Inv, Inv-Beyond, Inv-Precommits, Inv-prevote, log_votes-append,
}
use dew.Consensus.Engine.System.{log_votes}

module _ (env : Env) (ctx : PrevoteContext) (e : Engine) (rest : List PrevoteContext)
    (sent : List Vote) where
  abbrev unsigned : Vote
  unsigned = unsigned_vote vote_prevote ctx.height ctx.round (prevote_hash env ctx) ctx.addr

  module _ (room : Room e) (w : Waits e sent ctx) (a : All (Elsewhere ctx) rest)
      (i : Inv e rest sent) where
    abbrev Good : Reply → Type 0
    Good r = Inv r.0 rest (log_votes r.1.votes sent) × Near e r.0

    unvoted : (x : Option EngineError) → Good (e, ctx.box, x)
    unvoted x =
        (rw w.silent (unfold log_votes in i), record { height = omega arith; round = omega arith })

    voted :
        (v : Vote)
        → sign_vote env.crypto unsigned ctx.key ≡ ok v
        → ctx.height ≡ e.height
        → ctx.round ≡ e.round
        → is_step e.step prevote ≡ true
        → Good (try_after_prevote env (add_prevote e v).0 (send_vote ctx.box v))
    unfolding add_prevote unsigned_vote
    voted v s h r' p =
        let (t, vh, vr, b) = sign_vote-keeps env.crypto unsigned v ctx.key s in
        let r : Reply = try_after_prevote env (add_prevote e v).0 (send_vote ctx.box v) in
        let out : Precommits e (send_vote ctx.box v) r =
          Precommits-from e (add_prevote e v).0 (send_vote ctx.box v) r refl refl refl (
            try_after_prevote-Precommits env (add_prevote e v).0 (send_vote ctx.box v)
              (record { height = room.height; round = room.round })) in
        (
          Inv-Precommits e (send_vote ctx.box v) r rest sent out (
              rw (log_votes-append ctx.box.votes v sent, w.silent)
                (unfold log_votes in
                  Inv-prevote e ctx rest sent v t vh vr h r' (is_step-prevote e.step p) w a i)),
          Precommits-Near e (send_vote ctx.box v) r out,
        )

    pub prevote_finish-Inv : Good (prevote_finish env ctx e)
    unfolding prevote_finish
    prevote_finish-Inv = signed (sign_vote env.crypto unsigned ctx.key) refl
      where
        signed :
            (r : Result MessageError Vote)
            → sign_vote env.crypto unsigned ctx.key ≡ r
            → Good (prevote_finish env ctx e)
        signed (err x) s = rw (s, prevote_finish) (unvoted (some (message x)))
        signed (ok v) s =
            rw (s, prevote_finish)
              (if_rule Good
                (not (e.height == ctx.height)
                  || not (e.round == ctx.round)
                  || not (is_step e.step prevote))
                (λ _. unvoted none) (λ q. voted v s (ground arith) (ground arith) (ground arith)))

pub is_step-early :
    (s : Step) → (not (is_step s propose) && not (is_step s new_round)) ≡ false → rank s ≤ 1
unfolding is_step
is_step-early new_round h = omega arith
is_step-early propose h = omega arith
is_step-early prevote h = cc
is_step-early precommit h = cc
is_step-early commit h = cc

waiting_elsewhere :
    (e : Engine) (sent : List Vote) (cs : List PrevoteContext)
    → rank e.step ≤ 1
    → All (Waits e sent) cs
    → All (λ c. (e.height ≢ c.height) ⊎ (e.round ≢ c.round)) cs
waiting_elsewhere e sent [] h w = tt
waiting_elsewhere e sent (c ∷ cs) h w =
    (ground (arith, w.0.begun), waiting_elsewhere e sent cs h w.1)

module _ (env : Env) (pending : List PrevoteContext) (sent : List Vote) where
  -- A stretch of code keeps the invariant, whether its call returns or waits.
  abbrev pub Paused : Engine × Pause → Type 0
  Paused (e, returns b x) = Inv e pending (log_votes b.votes sent)
  Paused (e, prevotes ctx) = Inv e (ctx ∷ pending) sent

  pub prevote_begin-Inv :
      (e : Engine) (box : Outbox)
      → box.votes ≡ []
      → Inv e pending sent
      → Paused (prevote_begin env e box)
  unfolding prevote_begin
  prevote_begin-Inv e box silent i =
      if_rule Paused (not (is_step e.step propose) && not (is_step e.step new_round))
        (λ _. rw silent (unfold log_votes in i))
        λ h.
          let early = is_step-early e.step h in
          record {
            settled =
                All-Settled-Beyond e (record e { step = prevote }) sent (ground arith) i.settled;
            no_double = i.no_double;
            waiting = (
              record {
                silent = silent;
                begun = inr (inr (refl, refl, omega arith));
                unsent = prevote_unsent e sent early i.settled;
              },
              (Inv-Beyond e (record e { step = prevote }) pending sent (ground arith) i).waiting,
            );
            separate = (waiting_elsewhere e sent pending early i.waiting, i.separate);
          }
