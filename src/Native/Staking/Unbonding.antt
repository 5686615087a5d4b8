-- ===== src/Native/Staking/Unbonding.antt =====
-- core/native/staking.go: self-stake on its way in and out.
use dew.Base.{
  ℕ, ◌+◌, ◌^◌, ◌≤◌, ◌<◌, ◌≡◌, refl, Option, none, some, List, [], ◌∷◌, arith, u64, u256, Result, ok,
  err,
}
use dew.Consensus.ValidatorSet.{Address}
use dew.Native.Staking.{
  Staking, StakingConfig, StakingError, too_early, no_pending, set, sub256, register_candidate,
  bond, unbond, take_stake, queue_unbond, withdraw,
}

-- What a call of an account does to the module's escrow: the storage, what came in, what went out.
pub data StakeCall : Type 0 where
  bonds : Address → ℕ → StakeCall
  unbonds : Address → ℕ → ℕ → StakeCall
  withdraws : Address → ℕ → StakeCall

-- An amount comes in only with a Bond that succeeds.
abbrev deposited : Address → ℕ → Staking × Option StakingError → Staking × (ℕ → ℕ) × (ℕ → ℕ)
deposited a x (s, none) = (s, set (λ b. 0) a x, λ b. 0)
deposited a x (s, some e) = (s, (λ b. 0), λ b. 0)

abbrev paid : Address → Staking × Result StakingError ℕ → Staking × (ℕ → ℕ) × (ℕ → ℕ)
paid a (s, ok x) = (s, (λ b. 0), set (λ b. 0) a x)
paid a (s, err e) = (s, (λ b. 0), λ b. 0)

-- What the module owes an account for its own stake: the stake and what waits to be withdrawn.
abbrev pub owed : Staking → Address → ℕ
owed s b = s.self_stake b + s.unbond_amount b

module _ (cfg : StakingConfig) where
  unfoldable pub call : StakeCall → Staking → Staking × (ℕ → ℕ) × (ℕ → ℕ)
  call (bonds a x) s = deposited a x (bond cfg a x s)
  call (unbonds a x now) s = ((unbond cfg a x now s).0, (λ b. 0), λ b. 0)
  call (withdraws a now) s = paid a (withdraw a now s)

  -- What came in from the account, and what went out to it, over some calls.
  unfoldable pub total_in : List StakeCall → Staking → Address → ℕ
  total_in [] s b = 0
  total_in (c ∷ cs) s b = (call c s).1 b + total_in cs (call c s).0 b

  unfoldable pub total_out : List StakeCall → Staking → Address → ℕ
  total_out [] s b = 0
  total_out (c ∷ cs) s b = (call c s).2 b + total_out cs (call c s).0 b

  unfoldable pub calls : List StakeCall → Staking → Staking
  calls [] s = s
  calls (c ∷ cs) s = calls cs (call c s).0

  owed-bond :
      (a b : Address) (x : ℕ) (s : Staking)
      → owed s b + x < 2 ^ 256
      → owed (deposited a x (bond cfg a x s)).0 b ≡ owed s b + (deposited a x (bond cfg a x s)).1 b
  unfolding bond register_candidate set u256
  owed-bond a b x s fits = ground arith

  owed-unbond :
      (a b : Address) (x now : ℕ) (s : Staking)
      → owed s b < 2 ^ 256
      → owed (unbond cfg a x now s).0 b ≡ owed s b
  unfolding unbond take_stake queue_unbond set sub256 u256
  owed-unbond a b x now s fits = ground arith

  owed-withdraw :
      (a b : Address) (now : ℕ) (s : Staking)
      → owed (paid a (withdraw a now s)).0 b + (paid a (withdraw a now s)).2 b ≡ owed s b
  unfolding withdraw set
  owed-withdraw a b now s = ground arith

  abbrev pub requested : StakeCall → ℕ
  requested (bonds a x) = x
  requested (unbonds a x now) = 0
  requested (withdraws a now) = 0

  unfoldable pub total_requested : List StakeCall → ℕ
  total_requested [] = 0
  total_requested (c ∷ cs) = requested c + total_requested cs

  came_in-le :
      (a b : Address) (x : ℕ) (r : Staking × Option StakingError) → (deposited a x r).1 b ≤ x
  unfolding set
  came_in-le a b x (s, none) = ground arith
  came_in-le a b x (s, some e) = omega arith

  call_in-le : (c : StakeCall) (s : Staking) (b : Address) → (call c s).1 b ≤ requested c
  unfolding call
  call_in-le (bonds a x) s b = came_in-le a b x (bond cfg a x s)
  call_in-le (unbonds a x now) s b = omega arith
  call_in-le (withdraws a now) s b = paid_in (withdraw a now s)
    where
      paid_in : (r : Staking × Result StakingError ℕ) → (paid a r).1 b ≤ 0
      paid_in (s', ok x) = omega arith
      paid_in (s', err e) = omega arith

  no_deposit-out :
      (a b : Address) (x : ℕ) (r : Staking × Option StakingError) → (deposited a x r).2 b ≡ 0
  no_deposit-out a b x (s, none) = refl
  no_deposit-out a b x (s, some e) = refl

  no_paid-in : (a b : Address) (r : Staking × Result StakingError ℕ) → (paid a r).1 b ≡ 0
  no_paid-in a b (s, ok x) = refl
  no_paid-in a b (s, err e) = refl

  owed-call :
      (c : StakeCall) (s : Staking) (b : Address)
      → owed s b + requested c < 2 ^ 256
      → owed (call c s).0 b + (call c s).2 b ≡ owed s b + (call c s).1 b
  unfolding call
  owed-call (bonds a x) s b fits =
      omega (arith, owed-bond a b x s fits, no_deposit-out a b x (bond cfg a x s))
  owed-call (unbonds a x now) s b fits = omega (arith, owed-unbond a b x now s (omega arith))
  owed-call (withdraws a now) s b fits =
      omega (arith, owed-withdraw a b now s, no_paid-in a b (withdraw a now s))

  -- Over any Bond, Unbond and Withdraw calls of any accounts, in any order and with any outcome:
  -- an account's stake and pending withdrawal, with what it was paid, are what it had and bonded,
  -- while these amounts stay below 2^256.
  pub owed-calls :
      (cs : List StakeCall) (s : Staking) (b : Address)
      → owed s b + total_requested cs < 2 ^ 256
      → owed (calls cs s) b + total_out cs s b ≡ owed s b + total_in cs s b
  unfolding calls total_in total_out total_requested
  owed-calls [] s b fits = refl
  owed-calls (c ∷ cs) s b fits =
      let first = owed-call c s b (omega arith) in
      omega (arith, first, owed-calls cs (call c s).0 b (omega (arith, first, call_in-le c s b)))

  -- After an Unbond that succeeds, a Withdraw before the unbonding time has passed is refused,
  -- while what the account is owed is below 2^256 and the unlock time is a uint64.
  pub withdraw-unbond_early :
      (a : Address) (x now later : ℕ) (s : Staking)
      → (unbond cfg a x now s).1 ≡ none
      → owed s a < 2 ^ 256
      → now + cfg.unbond_seconds < 2 ^ 64
      → later < now + cfg.unbond_seconds
      → (withdraw a later (unbond cfg a x now s).0).1 ≡ err too_early
  unfolding withdraw unbond take_stake queue_unbond set sub256 u256 u64
  withdraw-unbond_early a x now later s done fits room early = ground arith

-- After a Withdraw that pays, a second one finds nothing to pay.
pub withdraw-again :
    (a : Address) (x now later : ℕ) (s : Staking)
    → (withdraw a now s).1 ≡ ok x
    → (withdraw a later (withdraw a now s).0).1 ≡ err no_pending
unfolding withdraw set
withdraw-again a x now later s done = ground arith
