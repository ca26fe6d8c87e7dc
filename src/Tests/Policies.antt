-- ===== src/Tests/Policies.antt =====
-- A policy from its set-up to its closing, without and with a timelock.
use solana_vault_v.Base.{◌≡◌, ◌≢◌, ok, true, false, refl, arith}
use solana_vault_v.State.{Vault, StrategyPolicy, assert_not_executing, assert_curator}
use solana_vault_v.Strategy.Policy.{
  StrategyPolicyUpdateArgs, PendingStrategyPolicyUpdate, initialize_strategy_policy,
  validate_strategy_policy_update, apply_strategy_policy_update, update_strategy_policy,
  pause_strategy_policy, close_strategy_policy, queue_strategy_policy_update,
  execute_strategy_policy_update,
}
use solana_vault_v.Strategy.Versions.{
  stay, pauses, execute_strategy_policy_update-spoiled,
  execute_strategy_policy_update-reinitialized,
}
use solana_vault_v.Tests.Data.{vault}

-- The vault of `Data` has a timelock of 50 slots.
abbrev untimed : Vault
untimed = record vault { timelock_delay_slots = 0 }

abbrev fresh : StrategyPolicy
fresh = record {
  vault = 9;
  strategist = 60;
  merkle_root = 0;
  version = 0;
  paused = true;
  executing = false;
  bump = 250;
}

abbrev pub change : StrategyPolicyUpdateArgs
change = record { merkle_root = 77; paused = false }

abbrev armed : StrategyPolicy
armed = record fresh { merkle_root = 77; paused = false; version = 1 }

abbrev stopped : StrategyPolicy
stopped = record armed { paused = true; version = 2 }

initialize_run : initialize_strategy_policy 5 9 untimed 60 250 ≡ ok fresh
unfolding initialize_strategy_policy assert_curator
initialize_run = refl

update_run : update_strategy_policy 5 9 untimed fresh change ≡ ok armed
unfolding update_strategy_policy apply_strategy_policy_update assert_not_executing assert_curator
    validate_strategy_policy_update
update_run = refl

pause_run : pause_strategy_policy 5 9 untimed armed ≡ ok stopped
unfolding pause_strategy_policy assert_not_executing
pause_run = refl

abbrev pub queued : PendingStrategyPolicyUpdate
queued = record {
  vault = 9;
  strategy_policy = 50;
  queued_by = 5;
  created_slot = 5_000;
  eta_slot = 5_050;
  expected_version = 0;
  args = change;
}

queue_run : queue_strategy_policy_update 5 9 50 5_000 vault fresh change ≡ ok queued
unfolding queue_strategy_policy_update assert_curator validate_strategy_policy_update
queue_run = refl

abbrev halted : StrategyPolicy
halted = record fresh { version = 1 }

halt_run : pause_strategy_policy 5 9 vault fresh ≡ ok halted
unfolding pause_strategy_policy assert_not_executing
halt_run = refl

execute_strategy_policy_update-spoiled_example :
    execute_strategy_policy_update 9 50 6_000 vault halted queued ≢ ok armed
execute_strategy_policy_update-spoiled_example =
    execute_strategy_policy_update-spoiled 5 9 50 5_000 6_000 vault vault change queue_run
      (pauses 5 9 vault halt_run) stay

close_run : close_strategy_policy 5 9 vault fresh ≡ ok tt
unfolding close_strategy_policy assert_curator assert_not_executing
close_run = refl

again_run : initialize_strategy_policy 5 9 vault 60 250 ≡ ok fresh
unfolding initialize_strategy_policy assert_curator
again_run = refl

execute_strategy_policy_update-reinitialized_example :
    execute_strategy_policy_update 9 50 6_000 vault fresh queued
    ≡ ok (record fresh { merkle_root = 77; paused = false; version = 1 })
execute_strategy_policy_update-reinitialized_example =
    execute_strategy_policy_update-reinitialized 5 9 50 5_000 6_000 250 vault fresh change queue_run
      refl close_run again_run (omega arith)
