-- ===== src/Vm/Staking/Effects.antt =====
-- core/vm/precompiles.go: what a call of the staking precompile may do.
use dew.Base.{
  ℕ, ◌≤◌, ◌≡◌, ◌≢◌, refl, not, Option, none, some, [], ◌∷◌, ◌==◌, ltb, if◌then◌else◌, if_rule,
  length, get_elem?, Result, ok, err, u64, arith,
}
use dew.Consensus.ValidatorSet.{Address}
use dew.Consensus.Message.{Bytes, Vote}
use dew.Consensus.Evidence.{EvidenceError, decode_evidence_wire, verify_double_sign, offender}
use dew.Native.Staking.{Staking, StakingError, slash_and_jail}
use dew.Native.Staking.ActiveSet.{Candidate, active_set}
use dew.Native.Executor.{add_balance, sub_balance}
use dew.Vm.{
  PrecompileError, not_enabled, bad_input, no_value, insolvent, out_of_range, unknown_method,
  staking_failed, bad_evidence, staking_address, consumed, u256_pad, bytes_at,
}
use dew.Vm.Staking.{
  StakingPrecompile, StakeWorld, Reply, with_staking, credit_value, settle_method, pay_out,
  query_address, query_pair, run_bond, run_unbond, run_withdraw, run_active_count, run_active_at,
  punish, run_jail, run_delegate, run_undelegate, run_withdraw_delegation, run_set_commission,
  run_claim_rewards, run_pending_rewards, run_query, run_method, run_staking,
}

-- The five ways in which a call ends. Only storage changes beside what is written.
pub data Effect (p : StakingPrecompile) (w : StakeWorld) : Reply → Type 0 where
  failed : (s : Staking) (e : PrecompileError) → Effect p w (with_staking s w, err e)
  answered : (s : Staking) (out : Bytes) → Effect p w (with_staking s w, ok out)
  credited :
      (s : Staking)
      → w.value.amount ≢ 0
      → Effect p w
          (record (with_staking s w) { value = consumed w.value }, ok (u256_pad w.value.amount))
  paid :
      (s : Staking) (x : ℕ)
      → x ≤ w.ledger.balance staking_address
      → Effect p w (
        record (with_staking s w) {
          ledger = add_balance p.origin x (sub_balance staking_address x (with_staking s w).ledger);
        },
        ok (u256_pad x),
      )
  punished :
      (a b : Vote)
      → verify_double_sign p.crypto a b ≡ ok tt
      → Effect p w (
        record w { ledger = (slash_and_jail (offender (a, b)) w.ledger).0 },
        ok (u256_pad (slash_and_jail (offender (a, b)) w.ledger).1),
      )

module _ (p : StakingPrecompile) (w : StakeWorld) where
  abbrev refused : (e : PrecompileError) → Effect p w (w, err e)
  refused e = failed w.ledger.staking e

  credit_value-Effect :
      (r : Staking × Option StakingError) → w.value.amount ≢ 0 → Effect p w (credit_value r w)
  unfolding credit_value
  credit_value-Effect (s, some e) has_value = failed s (staking_failed e)
  credit_value-Effect (s, none) has_value = credited s has_value

  settle_method-Effect :
      (r : Staking × Option StakingError) (out : ℕ) → Effect p w (settle_method r out w)
  unfolding settle_method
  settle_method-Effect (s, some e) out = failed s (staking_failed e)
  settle_method-Effect (s, none) out = answered s (u256_pad out)

  pay_out-Effect : (r : Staking × Result StakingError ℕ) → Effect p w (pay_out p.origin r w)
  unfolding pay_out
  pay_out-Effect (s, err e) = failed s (staking_failed e)
  pay_out-Effect (s, ok x) =
      if_rule (Effect p w) (ltb (w.ledger.balance staking_address) x) (λ _. failed s insolvent)
        λ enough. paid s x (ground arith)

  query_address-Effect :
      (args : Bytes) (answer : Address → Bytes) → Effect p w (query_address args answer w)
  unfolding query_address
  query_address-Effect args answer =
      if_rule (Effect p w) (length args == 20) (λ _. answered w.ledger.staking _)
        λ _. refused bad_input

  query_pair-Effect :
      (args : Bytes) (answer : Address → Address → Bytes) → Effect p w (query_pair args answer w)
  unfolding query_pair
  query_pair-Effect args answer =
      if_rule (Effect p w) (length args == 40) (λ _. answered w.ledger.staking _)
        λ _. refused bad_input

  run_bond-Effect : (args : Bytes) → Effect p w (run_bond p args w)
  unfolding run_bond
  run_bond-Effect args =
      if_rule (Effect p w) (not (length args == 0)) (λ _. refused bad_input)
        λ _.
          if_rule (Effect p w) (w.value.amount == 0) (λ _. refused no_value)
            λ h. credit_value-Effect _ (ground arith)

  run_delegate-Effect : (args : Bytes) → Effect p w (run_delegate p args w)
  unfolding run_delegate
  run_delegate-Effect args =
      if_rule (Effect p w) (not (length args == 20)) (λ _. refused bad_input)
        λ _.
          if_rule (Effect p w) (w.value.amount == 0) (λ _. refused no_value)
            λ h. credit_value-Effect _ (ground arith)

  punish-Effect : (votes : Vote × Vote) → Effect p w (punish p votes w)
  unfolding punish
  punish-Effect (a, b) = judged (verify_double_sign p.crypto a b) refl
    where
      judged :
          (r : Result EvidenceError (Unit {0}))
          → verify_double_sign p.crypto a b ≡ r
          → Effect p w (punish p (a, b) w)
      judged (err e) is = rw (is, punish) (refused (bad_evidence e))
      judged (ok u) is = rw (is, punish) (punished a b is)

  run_jail-Effect : (args : Bytes) → Effect p w (run_jail p args w)
  unfolding run_jail
  run_jail-Effect args =
      if_rule (Effect p w) (length args == 228) (λ _. decoded (decode_evidence_wire p.crypto args))
        λ _. refused bad_input
    where
      decoded :
          (r : Result EvidenceError (Vote × Vote))
          → Effect p w (elim r [ err e ↦ (w, err (bad_evidence e)) | ok votes ↦ punish p votes w ])
      decoded (err e) = refused (bad_evidence e)
      decoded (ok votes) = punish-Effect votes

  run_active_at-Effect : (args : Bytes) → Effect p w (run_active_at p args w)
  unfolding run_active_at
  run_active_at-Effect args =
      if_rule (Effect p w) (length args == 32)
        (λ _. found (get_elem? (active_set p.cfg w.ledger.staking) (u64 (bytes_at 0 32 args))))
        λ _. refused bad_input
    where
      found :
          (c : Option Candidate)
          → Effect p w
              (elim c [ none ↦ (w, err out_of_range) | some c ↦ (w, ok (u256_pad c.address)) ])
      found none = refused out_of_range
      found (some c) = answered w.ledger.staking _

  run_query-Effect : (method : ℕ) (args : Bytes) → Effect p w (run_query p method args w)
  unfolding run_query run_active_count
  run_query-Effect m args =
      if_rule (Effect p w) (m == 2) (λ _. query_address-Effect args _)
        λ _.
          if_rule (Effect p w) (m == 3) (λ _. query_address-Effect args _)
            λ _.
              if_rule (Effect p w) (m == 4)
                (λ _.
                  if_rule (Effect p w) (length args == 0) (λ _. answered w.ledger.staking _)
                    λ _. refused bad_input)
                λ _.
                  if_rule (Effect p w) (m == 5) (λ _. run_active_at-Effect args)
                    λ _.
                      if_rule (Effect p w) (m == 7) (λ _. query_address-Effect args _)
                        λ _.
                          if_rule (Effect p w) (m == 9) (λ _. query_address-Effect args _)
                            λ _.
                              if_rule (Effect p w) (m == 14) (λ _. query_pair-Effect args _)
                                λ _.
                                  if_rule (Effect p w) (m == 15) (λ _. query_address-Effect args _)
                                    λ _.
                                      if_rule (Effect p w) (m == 16)
                                        (λ _. query_address-Effect args _)
                                        λ _.
                                          if_rule (Effect p w) (m == 17)
                                            (λ _. query_pair-Effect args _)
                                            λ _. refused unknown_method

  run_method-Effect : (method : ℕ) (args : Bytes) → Effect p w (run_method p method args w)
  unfolding run_method run_unbond run_withdraw run_undelegate run_withdraw_delegation
      run_set_commission run_claim_rewards run_pending_rewards
  run_method-Effect m args =
      if_rule (Effect p w) (m == 0) (λ _. run_bond-Effect args)
        λ _.
          if_rule (Effect p w) (m == 1) (λ _. sized 32 (settle_method-Effect _ _))
            λ _.
              if_rule (Effect p w) (m == 6) (λ _. run_jail-Effect args)
                λ _.
                  if_rule (Effect p w) (m == 8) (λ _. sized 0 (pay_out-Effect _))
                    λ _.
                      if_rule (Effect p w) (m == 10) (λ _. run_delegate-Effect args)
                        λ _.
                          if_rule (Effect p w) (m == 11) (λ _. sized 52 (settle_method-Effect _ _))
                            λ _.
                              if_rule (Effect p w) (m == 12) (λ _. sized 20 (pay_out-Effect _))
                                λ _.
                                  if_rule (Effect p w) (m == 13)
                                    (λ _. sized 32 (settle_method-Effect _ _))
                                    λ _.
                                      if_rule (Effect p w) (m == 18)
                                        (λ _. sized 20 (pay_out-Effect _))
                                        λ _.
                                          if_rule (Effect p w) (m == 19)
                                            (λ _. sized 40 (answered _ _))
                                            λ _. run_query-Effect m args
    where
      sized :
          (n : ℕ) {r : Reply}
          → Effect p w r
          → Effect p w (if length args == n then r else (w, err bad_input))
      sized n fine = if_rule (Effect p w) (length args == n) (λ _. fine) λ _. refused bad_input

  -- Every call ends in one of the five ways.
  pub run_staking-Effect : (input : Bytes) → Effect p w (run_staking p input w)
  unfolding run_staking
  run_staking-Effect [] =
      if_rule (Effect p w) p.enabled (λ _. refused bad_input) λ _. refused not_enabled
  run_staking-Effect (m ∷ args) =
      if_rule (Effect p w) p.enabled (λ _. run_method-Effect m args) λ _. refused not_enabled
