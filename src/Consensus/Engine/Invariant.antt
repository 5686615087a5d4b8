-- ===== src/Consensus/Engine/Invariant.antt =====
-- What holds of one engine among its goroutines, after any schedule.
use dew.Base.{◌≤◌, ◌<◌, ◌≡◌, ◌≢◌, ◌⊎◌, refl, inl, inr, List, [], ◌∷◌, ◌++◌, All, arith}
use dew.Consensus.Message.{Vote, vote_prevote, vote_precommit}
use dew.Consensus.Engine.Types.{Engine, Outbox, Reply, PrevoteContext}
use dew.Consensus.Engine.Order.{
  rank, Beyond, Settled, Apart, NoDouble, All-Settled-Beyond, precommit_unsent, Apart-same,
}
use dew.Consensus.Engine.Moves.{Precommits}
use dew.Consensus.Engine.System.{log_votes}

-- A call that waits to prevote: it has sent nothing, its round has come to the prevote step, and no
-- prevote of the round has been sent.
pub record Waits (e : Engine) (sent : List Vote) (ctx : PrevoteContext) : Type 0 where
  pub silent : ctx.box.votes ≡ []
  pub begun :
      (ctx.height < e.height)
      ⊎ ((ctx.height ≡ e.height) × (ctx.round < e.round))
      ⊎ ((ctx.height ≡ e.height) × (ctx.round ≡ e.round) × (2 ≤ rank e.step))
  pub unsent : All (Apart vote_prevote ctx.height ctx.round) sent

abbrev pub Elsewhere : PrevoteContext → PrevoteContext → Type 0
Elsewhere c d = (c.height ≢ d.height) ⊎ (c.round ≢ d.round)

-- No two calls wait for the same round.
abbrev pub Separate : List PrevoteContext → Type 0
Separate [] = Unit
Separate (c ∷ cs) = All (Elsewhere c) cs × Separate cs

pub record Inv (e : Engine) (pending : List PrevoteContext) (sent : List Vote) : Type 0 where
  pub settled : All (Settled e) sent
  pub no_double : NoDouble sent
  pub waiting : All (Waits e sent) pending
  pub separate : Separate pending

Waits-Beyond :
    (e e' : Engine) (sent : List Vote) (cs : List PrevoteContext)
    → Beyond (rank e.step) e e'
    → All (Waits e sent) cs
    → All (Waits e' sent) cs
Waits-Beyond e e' sent [] b w = tt
Waits-Beyond e e' sent (c ∷ cs) b w = (
  record { silent = w.0.silent; begun = ground (arith, w.0.begun); unsent = w.0.unsent },
  Waits-Beyond e e' sent cs b w.1,
)

-- Moving on keeps the invariant.
pub Inv-Beyond :
    (e e' : Engine) (pending : List PrevoteContext) (sent : List Vote)
    → Beyond (rank e.step) e e'
    → Inv e pending sent
    → Inv e' pending sent
Inv-Beyond e e' pending sent b i = record {
  settled = All-Settled-Beyond e e' sent b i.settled;
  no_double = i.no_double;
  waiting = Waits-Beyond e e' sent pending b i.waiting;
  separate = i.separate;
}

-- A vote that is no prevote of a waiting round leaves the waiting calls as they are.
Waits-cons :
    (e : Engine) (sent : List Vote) (v : Vote) (cs : List PrevoteContext)
    → All (λ c. Apart vote_prevote c.height c.round v) cs
    → All (Waits e sent) cs
    → All (Waits e (v ∷ sent)) cs
Waits-cons e sent v [] a w = tt
Waits-cons e sent v (c ∷ cs) a w = (
  record { silent = w.0.silent; begun = w.0.begun; unsent = (a.0, w.0.unsent) },
  Waits-cons e sent v cs a.1 w.1,
)

no_prevote :
    (v : Vote) (cs : List PrevoteContext)
    → v.typ ≡ vote_precommit
    → All (λ c. Apart vote_prevote c.height c.round v) cs
no_prevote v [] t = tt
no_prevote v (c ∷ cs) t = (inl (omega arith), no_prevote v cs t)

Inv-precommit :
    (e e' : Engine) (pending : List PrevoteContext) (sent : List Vote) (v : Vote)
    → v.typ ≡ vote_precommit
    → v.height ≡ e.height
    → v.round ≡ e.round
    → rank e.step ≤ 2
    → Beyond 3 e e'
    → Inv e pending sent
    → Inv e' pending (v ∷ sent)
Inv-precommit e e' pending sent v t h r early b i = record {
  settled = (ground (arith, b.order), moved.settled);
  no_double = (
    Apart-same vote_precommit e.height e.round v sent t h r
        (precommit_unsent e sent early i.settled),
    i.no_double,
  );
  waiting = Waits-cons e' sent v pending (no_prevote v pending t) moved.waiting;
  separate = i.separate;
}
  where
    moved : Inv e' pending sent
    moved = Inv-Beyond e e' pending sent (ground (arith, b.order)) i

pub log_votes-append :
    (vs : List Vote) (v : Vote) (sent : List Vote)
    → log_votes (vs ++ v ∷ []) sent ≡ v ∷ log_votes vs sent
unfolding log_votes
log_votes-append [] v sent = refl
log_votes-append (w ∷ ws) v sent = log_votes-append ws v (w ∷ sent)

-- A call that sends at most a precommit keeps the invariant.
pub Inv-Precommits :
    (e : Engine) (box : Outbox) (r : Reply) (pending : List PrevoteContext) (sent : List Vote)
    → Precommits e box r
    → Inv e pending (log_votes box.votes sent)
    → Inv r.0 pending (log_votes r.1.votes sent)
Inv-Precommits e box r pending sent (inl (b, same)) i =
    rw same (Inv-Beyond e r.0 pending (log_votes box.votes sent) b i)
Inv-Precommits e box r pending sent (inr (v, t, h, q, early, same, b)) i =
    rw (same, log_votes-append box.votes v sent)
      (Inv-precommit e r.0 pending (log_votes box.votes sent) v t h q early b i)

no_prevote-Elsewhere :
    (v : Vote) (ctx : PrevoteContext) (cs : List PrevoteContext)
    → v.height ≡ ctx.height
    → v.round ≡ ctx.round
    → All (Elsewhere ctx) cs
    → All (λ c. Apart vote_prevote c.height c.round v) cs
no_prevote-Elsewhere v ctx [] h r a = tt
no_prevote-Elsewhere v ctx (c ∷ cs) h r a =
    (inr (ground arith), no_prevote-Elsewhere v ctx cs h r a.1)

pub Inv-prevote :
    (e : Engine) (ctx : PrevoteContext) (rest : List PrevoteContext) (sent : List Vote) (v : Vote)
    → v.typ ≡ vote_prevote
    → v.height ≡ ctx.height
    → v.round ≡ ctx.round
    → ctx.height ≡ e.height
    → ctx.round ≡ e.round
    → rank e.step ≡ 2
    → Waits e sent ctx
    → All (Elsewhere ctx) rest
    → Inv e rest sent
    → Inv e rest (v ∷ sent)
Inv-prevote e ctx rest sent v t h r ch cr at w a i = record {
  settled = (inr (inr (inl (omega arith, omega arith, omega arith, omega arith))), i.settled);
  no_double = (Apart-same vote_prevote ctx.height ctx.round v sent t h r w.unsent, i.no_double);
  waiting = Waits-cons e sent v rest (no_prevote-Elsewhere v ctx rest h r a) i.waiting;
  separate = i.separate;
}
