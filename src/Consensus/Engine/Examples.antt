-- ===== src/Consensus/Engine/Examples.antt =====
-- consensus/engine.go at a concrete engine and schedule.
use dew.Base.{arith, ◌≡◌}
use dew.Consensus.Engine.Order.{NoDouble}
use dew.Consensus.Engine.System.{run, fresh_system}
use dew.Consensus.Engine.Safety.{run-NoDouble}
use dew.Consensus.Engine.{prevote_hash, proposed_hash}
use dew.Consensus.Engine.Lock.{prevotes_without_lock}
use dew.Consensus.Engine.Toy.{
  waiting_call, until_proposed, waits_once_proposed, env, engine, one_set, header_at, one_round,
  made,
}

run-NoDouble_example : NoDouble (run env (fresh_system engine) one_round).sent
run-NoDouble_example =
    run-NoDouble env 9 one_set (header_at 4) 0 engine one_round made (omega arith)

prevotes_without_lock_example : prevote_hash env waiting_call ≡ proposed_hash env waiting_call
prevotes_without_lock_example =
    prevotes_without_lock env 9 one_set (header_at 4) 0 engine until_proposed 0 waiting_call made
      waits_once_proposed
