-- ===== src/Native/Staking/Examples.antt =====
-- core/native/staking.go at concrete storage.
use dew.Base.{
  ℕ, ◌+◌, ◌*◌, ◌^◌, ◌<◌, ◌≡◌, ◌≢◌, refl, true, none, some, arith, List, [], ◌∷◌, ok, u64, u256,
}
use dew.Native.Staking.{
  slash_and_jail, delegated_total, shares_to_wei, unbond, take_stake, queue_unbond, withdraw, set,
  sub256, total_underflow, wei_to_shares, del_rate,
}
use dew.Native.Staking.Delegation.{delegate, undelegate}
use dew.Native.Staking.Slashing.{slash_and_jail-Slashed, Slashed}
use dew.Native.Staking.Unbonding.{
  StakeCall, bonds, unbonds, withdraws, owed, calls, total_in, total_out, total_requested,
  owed-calls,
}
use dew.Native.Staking.Shares.{Balanced, delegate-Balanced, undelegate-Balanced}
use dew.Native.Staking.Toy.{config, two_staked, delegated, ledger}
use dew.Native.Executor.{is_listed}
use dew.Native.Executor.Supply.{supply, Once}

delegated_small : delegated_total ledger.staking 7 * 500 < 2 ^ 256
unfolding shares_to_wei del_rate u256
delegated_small = omega arith

rate_small : del_rate ledger.staking 7 * 9500 < 2 ^ 256
unfolding del_rate
rate_small = omega arith

slash_and_jail-Slashed_example :
    Slashed 7 ledger (slash_and_jail 7 ledger).0 (slash_and_jail 7 ledger).1
slash_and_jail-Slashed_example =
    slash_and_jail-Slashed 7 ledger refl (omega arith) delegated_small rate_small (omega arith)

abbrev some_calls : List StakeCall
some_calls = bonds 7 500 ∷ unbonds 7 200 10 ∷ withdraws 7 604900 ∷ []

requested_in : owed two_staked 7 + total_requested config some_calls < 2 ^ 256
unfolding total_requested
requested_in = omega arith

owed-calls_example :
    owed (calls config some_calls two_staked) 7 + total_out config some_calls two_staked 7
    ≡ owed two_staked 7 + total_in config some_calls two_staked 7
owed-calls_example = owed-calls config some_calls two_staked 7 requested_in

unbonded : (unbond config 7 200 10 two_staked).1 ≡ none
unfolding unbond
unbonded = refl

paid_out : (withdraw 7 604810 (unbond config 7 200 10 two_staked).0).1 ≡ ok 200
unfolding withdraw unbond take_stake queue_unbond set sub256 u256 u64
paid_out = refl

abbrev delegators : List ℕ
delegators = 5 ∷ 6 ∷ []

once : Once delegators
once = (((omega arith), tt), (tt, tt))

listed : is_listed 6 delegators ≡ true
unfolding is_listed
listed = refl

balanced : Balanced 7 6 delegators once listed delegated
unfolding supply
balanced = refl

room : delegated.total_shares 7 + wei_to_shares delegated 7 300 < 2 ^ 256
unfolding wei_to_shares del_rate u256
room = omega arith

delegate-Balanced_example : Balanced 7 6 delegators once listed (delegate 7 6 300 delegated).0
delegate-Balanced_example = delegate-Balanced 7 6 delegators once listed delegated 300 balanced room

undelegate-Balanced_example :
    Balanced 7 6 delegators once listed (undelegate config 7 6 300 10 delegated).0
    × ((undelegate config 7 6 300 10 delegated).1 ≢ some total_underflow)
undelegate-Balanced_example =
    undelegate-Balanced 7 6 delegators once listed config delegated 300 10 balanced (omega arith)
