-- ===== src/Consensus/Evidence/DoubleSign.antt =====
-- consensus/evidence.go: what counts as double signing, and that the engine never gives grounds.
use dew.Base.{
  ℕ, zero, suc, ◌+◌, ◌^◌, ◌<◌, ◌≡◌, ◌≢◌, ◌⊎◌, ◌↔◌, refl, some, List, [], ◌∷◌, arith, Result, ok,
  err, length, get_elem?, All, >>=-eq-ok,
}
use dew.Consensus.Message.{
  Vote, Crypto, Header, MessageError, verify_vote, vote_prevote, vote_precommit,
}
use dew.Consensus.Evidence.{verify_double_sign, EvidenceError, of_vote, vote_a, vote_b}
use dew.Consensus.ValidatorSet.{ValidatorSet}
use dew.Consensus.Engine.Types.{Engine, Env}
use dew.Consensus.Engine.Order.{NoDouble, Apart}
use dew.Consensus.Engine.Rounds.{new_engine}
use dew.Consensus.Engine.System.{Event, run, fresh_system}
use dew.Consensus.Engine.Safety.{run-NoDouble}

-- Two votes that one validator should not both have signed.
pub record Equivocates (c : Crypto) (a b : Vote) : Type 0 where
  pub valid_a : verify_vote c a ≡ ok tt
  pub valid_b : verify_vote c b ≡ ok tt
  pub typ : a.typ ≡ b.typ
  pub known : (a.typ ≡ vote_prevote) ⊎ (a.typ ≡ vote_precommit)
  pub height : a.height ≡ b.height
  pub round : a.round ≡ b.round
  pub validator : a.validator ≡ b.validator
  pub hashes : a.block_hash ≢ b.block_hash

of_vote-eq-ok :
    (wrap : MessageError → EvidenceError) (r : Result MessageError (Unit {0})) (u : Unit {0})
    → of_vote wrap r ≡ ok u
    → r ≡ ok tt
of_vote-eq-ok wrap (ok v) u h = refl
of_vote-eq-ok wrap (err x) u h = cc

-- The conditions on the fields alone.
abbrev Conflict : Vote → Vote → Type 0
Conflict a b =
    (a.typ ≡ b.typ)
    × ((a.typ ≡ vote_prevote) ⊎ (a.typ ≡ vote_precommit))
    × (a.height ≡ b.height)
    × (a.round ≡ b.round)
    × (a.validator ≡ b.validator)
    × (a.block_hash ≢ b.block_hash)

equivocation : (c : Crypto) (a b : Vote) → verify_double_sign c a b ≡ ok tt → Equivocates c a b
unfolding verify_double_sign
equivocation c a b h =
    let (u, ha, rest) = >>=-eq-ok (of_vote vote_a (verify_vote c a)) _ h in
    let (w, hb, fields) = >>=-eq-ok (of_vote vote_b (verify_vote c b)) _ rest in
    let (typ, known, height, round, validator, hashes) : Conflict a b = ground arith in
    record {
      valid_a = of_vote-eq-ok vote_a (verify_vote c a) u ha;
      valid_b = of_vote-eq-ok vote_b (verify_vote c b) w hb;
      typ = typ;
      known = known;
      height = height;
      round = round;
      validator = validator;
      hashes = hashes;
    }

-- VerifyDoubleSign accepts two votes exactly when both pass VerifyVote, they have one type, which
-- is prevote or precommit, one height, one round and one validator, and they are for different
-- hashes.
pub verify_double_sign_iff :
    (c : Crypto) (a b : Vote) → (verify_double_sign c a b ≡ ok tt) ↔ Equivocates c a b
unfolding verify_double_sign
verify_double_sign_iff c a b = (
  equivocation c a b,
  λ q.
      rw (q.valid_a, q.valid_b)
        (ground (arith, q.typ, q.known, q.height, q.round, q.validator, q.hashes)),
)

lookup_Apart :
    (v : Vote) (vs : List Vote) (j : ℕ) (w : Vote)
    → All (Apart v.typ v.height v.round) vs
    → get_elem? vs j ≡ some w
    → Apart v.typ v.height v.round w
lookup_Apart v [] j w a e = cc
lookup_Apart v (x ∷ vs) zero w a e = ground arith
lookup_Apart v (x ∷ vs) (suc j) w a e = lookup_Apart v vs j w a.1 e

no_grounds :
    (c : Crypto) (vs : List Vote) (i j : ℕ) (a b : Vote)
    → NoDouble vs
    → get_elem? vs i ≡ some a
    → get_elem? vs j ≡ some b
    → Equivocates c a b
    → ⊥
no_grounds c [] i j a b n ea eb q = cc
no_grounds c (v ∷ vs) zero zero a b n ea eb q = ground (arith, q.hashes)
no_grounds c (v ∷ vs) zero (suc j) a b n ea eb q =
    ground (arith, lookup_Apart v vs j b n.0 eb, q.typ, q.height, q.round)
no_grounds c (v ∷ vs) (suc i) zero a b n ea eb q =
    ground (arith, lookup_Apart v vs i a n.0 ea, q.typ, q.height, q.round)
no_grounds c (v ∷ vs) (suc i) (suc j) a b n ea eb q = no_grounds c vs i j a b n.1 ea eb q

-- Whatever schedule a new engine goes through, no two of the votes that it sent are accepted as
-- evidence of double signing, while its heights and rounds do not wrap.
pub engine_never_slashable :
    (env : Env) (key : ℕ) (vs : ValidatorSet) (parent : Header) (root : ℕ) (e : Engine)
    (evs : List Event) (i j : ℕ) (a b : Vote)
    → new_engine env key vs parent root ≡ ok e
    → parent.number + length evs + 2 < 2 ^ 64
    → get_elem? (run env (fresh_system e) evs).sent i ≡ some a
    → get_elem? (run env (fresh_system e) evs).sent j ≡ some b
    → verify_double_sign env.crypto a b ≢ ok tt
engine_never_slashable env key vs parent root e evs i j a b made fits ea eb h =
    no_grounds env.crypto (run env (fresh_system e) evs).sent i j a b
      (run-NoDouble env key vs parent root e evs made fits) ea eb (equivocation env.crypto a b h)
