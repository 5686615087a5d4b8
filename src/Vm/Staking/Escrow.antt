-- ===== src/Vm/Staking/Escrow.antt =====
-- core/vm/precompiles.go: the staking precompile neither makes nor loses money, but for slashing.
use dew.Base.{ℕ, ◌+◌, ◌^◌, ◌≤◌, ◌<◌, ◌≡◌, ◌≢◌, refl, true, List, arith, ok, if_rule}
use dew.Consensus.ValidatorSet.{Address}
use dew.Consensus.Message.{Bytes, Vote}
use dew.Consensus.Evidence.{verify_double_sign, offender}
use dew.Native.Staking.{Ledger, at_most, slash_and_jail, is_jailed}
use dew.Native.Executor.{is_listed, sub_balance}
use dew.Native.Executor.Supply.{supply, Once, supply-add_balance, supply-sub_balance}
use dew.Vm.{staking_address}
use dew.Vm.Staking.{StakingPrecompile, StakeWorld, Reply, with_staking, run_staking}
use dew.Vm.Staking.Effects.{Effect, failed, answered, credited, paid, punished, run_staking-Effect}

at_most-le : (bound n : ℕ) → at_most bound n ≤ bound
at_most-le bound n = ground arith

-- The sum of the balances after a call, what the call burned, and when it burns.
abbrev pub Accounts : List Address → StakingPrecompile → StakeWorld → Reply → Type 0
Accounts accounts p w r =
    (burned : ℕ) × (supply r.0.ledger.balance accounts + burned ≡ supply w.ledger.balance accounts)
    × (burned ≢ 0
        → (a : Vote) × (b : Vote) × (verify_double_sign p.crypto a b ≡ ok tt)
          × (burned ≡ (slash_and_jail (offender (a, b)) w.ledger).1))

module _ (accounts : List Address) (once : Once accounts)
    (module_listed : is_listed staking_address accounts ≡ true) where
  supply-slash_and_jail :
      (a : Address) (l : Ledger)
      → supply l.balance accounts < 2 ^ 256
      → supply (slash_and_jail a l).0.balance accounts + (slash_and_jail a l).1
        ≡ supply l.balance accounts
  unfolding slash_and_jail sub_balance
  supply-slash_and_jail a l fits =
      if_rule (λ (r : Ledger × ℕ). supply r.0.balance accounts + r.1 ≡ supply l.balance accounts)
        (is_jailed l.staking a) (λ _. omega arith)
        λ _.
          supply-sub_balance accounts once staking_address _ l module_listed fits (at_most-le _ _)

  Effect-Accounts :
      (p : StakingPrecompile) (w : StakeWorld) (r : Reply)
      → is_listed p.origin accounts ≡ true
      → supply w.ledger.balance accounts < 2 ^ 256
      → Effect p w r
      → Accounts accounts p w r
  Effect-Accounts p w r listed fits (failed s e) = (0, omega arith, λ h. absurd (h refl))
  Effect-Accounts p w r listed fits (answered s out) = (0, omega arith, λ h. absurd (h refl))
  Effect-Accounts p w r listed fits (credited s has) = (0, omega arith, λ h. absurd (h refl))
  Effect-Accounts p w r listed fits (paid s x enough) =
      let l : Ledger = (with_staking s w).ledger in
      let less = supply-sub_balance accounts once staking_address x l module_listed fits enough in
      let more =
        supply-add_balance accounts once p.origin x (sub_balance staking_address x l) listed
          (omega (arith, less)) in
      (0, omega (arith, less, more), λ h. absurd (h refl))
  Effect-Accounts p w r listed fits (punished a b valid) =
      (_, supply-slash_and_jail (offender (a, b)) w.ledger fits, λ h. (a, b, valid, refl))

  -- A call of the staking precompile, with any input and any outcome, keeps the sum of the balances
  -- of any accounts, listed once each, that include the precompile and the sender of the message,
  -- while that sum is below 2^256: all but what it burns, which is not zero only where two votes
  -- are valid evidence of a double sign, and is then what SlashAndJail burns for their offender.
  pub supply-run_staking :
      (p : StakingPrecompile) (input : Bytes) (w : StakeWorld)
      → is_listed p.origin accounts ≡ true
      → supply w.ledger.balance accounts < 2 ^ 256
      → Accounts accounts p w (run_staking p input w)
  supply-run_staking p input w listed fits =
      Effect-Accounts p w _ listed fits (run_staking-Effect p w input)
