-- ===== src/Vm/Staking/Unbacked.antt =====
-- core/vm/precompiles.go: the value that a failed call leaves behind.
use dew.Base.{
  ℕ, ◌≡◌, ◌≢◌, refl, ◌∙◌, true, false, none, some, [], ◌∷◌, ◌==◌, arith, ok, err, Option,
}
use dew.Consensus.ValidatorSet.{Address}
use dew.Consensus.Message.{Bytes}
use dew.Native.Staking.{Ledger, Staking, StakingError, StakingConfig, bond}
use dew.Vm.{PrecompileError, Values, record_transfer, staking_address, u256_pad}
use dew.Vm.Staking.{
  StakingPrecompile, StakeWorld, Reply, credit_value, run_bond, run_method, run_staking,
}
use dew.Vm.Staking.Effects.{Effect, failed, answered, credited, paid, punished, run_staking-Effect}

bond-none : (cfg : StakingConfig) (a x : ℕ) (s : Staking) → x ≢ 0 → (bond cfg a x s).1 ≡ none
unfolding bond
bond-none cfg a x s some_amount = ground arith

Effect-failed :
    (p : StakingPrecompile) (w : StakeWorld) (r : Reply) (e : PrecompileError)
    → Effect p w r
    → r.1 ≡ err e
    → (r.0.value ≡ w.value) × (r.0.ledger.balance ≡ w.ledger.balance)
Effect-failed p w r e (failed s x) is = (refl, refl)
Effect-failed p w r e (answered s out) is = cc
Effect-failed p w r e (credited s has) is = cc
Effect-failed p w r e (paid s x le) is = cc
Effect-failed p w r e (punished a b ok_votes) is = cc

-- A call of the staking precompile that returns an error moves no balance, and leaves the recorded
-- value as it was.
pub run_staking-failed :
    (p : StakingPrecompile) (input : Bytes) (w : StakeWorld) (e : PrecompileError)
    → (run_staking p input w).1 ≡ err e
    → ((run_staking p input w).0.value ≡ w.value)
      × ((run_staking p input w).0.ledger.balance ≡ w.ledger.balance)
run_staking-failed p input w e = Effect-failed p w _ e (run_staking-Effect p w input)

-- A Bond of a recorded value, on any ledger.
bond_recorded :
    (p : StakingPrecompile) (payer amount : ℕ) (l : Ledger)
    → p.enabled ≡ true
    → amount ≢ 0
    → run_staking p
        (0 ∷ [])
        (record { ledger = l; value = record { payer = payer; amount = amount } })
      ≡ (
        record {
          ledger = record l { staking = (bond p.cfg payer amount l.staking).0 };
          value = record { payer = payer; amount = 0 };
        },
        ok (u256_pad amount),
      )
unfolding run_staking run_method run_bond credit_value
bond_recorded p payer amount l on some_amount =
    let none_left : (amount == 0) ≡ false = ground arith in
    rw (on, none_left) (taken (bond p.cfg payer amount l.staking) accepted)
  where
    accepted : (bond p.cfg payer amount l.staking).1 ≡ none
    accepted = bond-none p.cfg payer amount l.staking some_amount

    taken :
        (r : Staking × Option StakingError)
        → r.1 ≡ none
        → credit_value r (record { ledger = l; value = record { payer = payer; amount = amount } })
          ≡ (
            record {
              ledger = record l { staking = r.0 };
              value = record { payer = payer; amount = 0 };
            },
            ok (u256_pad amount),
          )
    taken (s, some x) is = cc
    taken (s, none) is = refl

module _ (p : StakingPrecompile) (input : Bytes) (v : Values) (payer other : Address) (amount : ℕ)
    (before : Ledger) where
  -- A call with a value, and the hook's values before the next one, which has none.
  abbrev pub first_call : Reply
  first_call =
      run_staking p input
        (record { ledger = before; value = (record_transfer payer staking_address amount v).stake })

  abbrev pub next_values : Values
  next_values = record_transfer other staking_address 0 (record v { stake = first_call.0.value })

  -- A value recorded by the hook stays after a call that fails, and a Bond that follows with no
  -- value of its own, on any ledger `l`, such as the one that the failed call is reverted to, is
  -- credited with the value that went back to its payer: it stores the stake, answers the amount,
  -- and moves no balance. The conditions are that the precompile is enabled and the amount is not
  -- zero.
  pub unbacked_bond :
      (l : Ledger) (e : PrecompileError)
      → p.enabled ≡ true
      → amount ≢ 0
      → first_call.1 ≡ err e
      → run_staking p (0 ∷ []) (record { ledger = l; value = next_values.stake }) ≡ (
        record {
          ledger = record l { staking = (bond p.cfg payer amount l.staking).0 };
          value = record { payer = payer; amount = 0 };
        },
        ok (u256_pad amount),
      )
  unfolding record_transfer
  unbacked_bond l e on some_amount is =
      let none_left : (amount == 0) ≡ false = ground arith in
      let stays : next_values.stake ≡ record { payer = payer; amount = amount } =
        (run_staking-failed p input _ e is).0 ∙ rw none_left refl in
      rw stays (bond_recorded p payer amount l on some_amount)
