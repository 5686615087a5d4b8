-- ===== src/Consensus/Engine/Order.antt =====
-- How the engine moves on: by height, then round, then step.
use dew.Base.{ℕ, ◌+◌, ◌≤◌, ◌<◌, ◌≡◌, ◌≢◌, ◌⊎◌, List, [], ◌∷◌, All, arith}
use dew.Consensus.Message.{Vote, vote_prevote, vote_precommit}
use dew.Consensus.Engine.Types.{Step, new_round, propose, prevote, precommit, commit, Engine}

abbrev pub rank : Step → ℕ
rank new_round = 0
rank propose = 1
rank prevote = 2
rank precommit = 3
rank commit = 4

-- `e'` is `e` or later, by at most one height and one round, and at the same round it has come to
-- the step `k`.
pub record Beyond (k : ℕ) (e e' : Engine) : Type 0 where
  pub order :
      (e.height < e'.height)
      ⊎ ((e.height ≡ e'.height) × (e.round < e'.round))
      ⊎ ((e.height ≡ e'.height) × (e.round ≡ e'.round) × (k ≤ rank e'.step))
  pub height : e'.height ≤ e.height + 1
  pub round : e'.round ≤ e.round + 1

-- The vote was sent in an earlier round, or in this one at a step that has been reached.
abbrev pub Settled : Engine → Vote → Type 0
Settled e v =
    (v.height < e.height)
    ⊎ ((v.height ≡ e.height) × (v.round < e.round))
    ⊎ ((v.height ≡ e.height) × (v.round ≡ e.round) × (v.typ ≡ vote_prevote) × (2 ≤ rank e.step))
    ⊎ ((v.height ≡ e.height) × (v.round ≡ e.round) × (v.typ ≡ vote_precommit) × (3 ≤ rank e.step))

-- The vote has another type, height or round.
abbrev pub Apart : ℕ → ℕ → ℕ → Vote → Type 0
Apart typ height round v = (v.typ ≢ typ) ⊎ (v.height ≢ height) ⊎ (v.round ≢ round)

-- No two votes have the same type, height and round.
abbrev pub NoDouble : List Vote → Type 0
NoDouble [] = Unit
NoDouble (v ∷ vs) = All (Apart v.typ v.height v.round) vs × NoDouble vs

Settled-Beyond : (e e' : Engine) (v : Vote) → Beyond (rank e.step) e e' → Settled e v → Settled e' v
Settled-Beyond e e' v b s = ground arith

pub All-Settled-Beyond :
    (e e' : Engine) (vs : List Vote)
    → Beyond (rank e.step) e e'
    → All (Settled e) vs
    → All (Settled e') vs
All-Settled-Beyond e e' [] b s = tt
All-Settled-Beyond e e' (v ∷ vs) b s =
    (Settled-Beyond e e' v b s.0, All-Settled-Beyond e e' vs b s.1)

-- Before the step of a vote, no vote of its kind has been sent in the round.
pub precommit_unsent :
    (e : Engine) (vs : List Vote)
    → rank e.step ≤ 2
    → All (Settled e) vs
    → All (Apart vote_precommit e.height e.round) vs
precommit_unsent e [] h s = tt
precommit_unsent e (v ∷ vs) h s = (ground arith, precommit_unsent e vs h s.1)

pub prevote_unsent :
    (e : Engine) (vs : List Vote)
    → rank e.step ≤ 1
    → All (Settled e) vs
    → All (Apart vote_prevote e.height e.round) vs
prevote_unsent e [] h s = tt
prevote_unsent e (v ∷ vs) h s = (ground arith, prevote_unsent e vs h s.1)

pub Apart-same :
    (typ height round : ℕ) (v : Vote) (vs : List Vote)
    → v.typ ≡ typ
    → v.height ≡ height
    → v.round ≡ round
    → All (Apart typ height round) vs
    → All (Apart v.typ v.height v.round) vs
Apart-same typ height round v [] t h r a = tt
Apart-same typ height round v (w ∷ ws) t h r a =
    (ground arith, Apart-same typ height round v ws t h r a.1)
