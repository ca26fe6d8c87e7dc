-- ===== src/Strategy/Versions.antt =====
-- The versions of a strategy policy, and what becomes of queued updates.
use solana_vault_v.Base.{ℕ, ◌+◌, ◌≤◌, ◌<◌, ◌≡◌, ◌≢◌, ◌⊎◌, true, false, ok, arith}
use solana_vault_v.State.{Pubkey, Vault, StrategyPolicy, assert_curator, assert_not_executing}
use solana_vault_v.Strategy.Policy.{
  StrategyPolicyUpdateArgs, PendingStrategyPolicyUpdate, initialize_strategy_policy,
  validate_strategy_policy_update, apply_strategy_policy_update, update_strategy_policy,
  pause_strategy_policy, close_strategy_policy, queue_strategy_policy_update,
  execute_strategy_policy_update,
}

-- A policy changed by one handler.
pub data PolicyStep (p : StrategyPolicy) : StrategyPolicy → Type 0 where
  updates :
      {p' : StrategyPolicy} (authority key : Pubkey) (v : Vault) (args : StrategyPolicyUpdateArgs)
      → update_strategy_policy authority key v p args ≡ ok p'
      → PolicyStep p p'
  pauses :
      {p' : StrategyPolicy} (authority key : Pubkey) (v : Vault)
      → pause_strategy_policy authority key v p ≡ ok p'
      → PolicyStep p p'
  executes :
      {p' : StrategyPolicy} (key policy : Pubkey) (slot : ℕ) (v : Vault)
      (pending_update : PendingStrategyPolicyUpdate)
      → execute_strategy_policy_update key policy slot v p pending_update ≡ ok p'
      → PolicyStep p p'

-- And by a sequence of them.
pub data PolicySteps (p : StrategyPolicy) : StrategyPolicy → Type 0 where
  stay : PolicySteps p p
  extend : {p' p'' : StrategyPolicy} → PolicySteps p p' → PolicyStep p' p'' → PolicySteps p p''

-- An unpaused policy has a root.
abbrev pub IsArmed : StrategyPolicy → Type 0
IsArmed p = (p.paused ≡ true) ⊎ (0 < p.merkle_root)

PolicyStep-moves :
    {p p' : StrategyPolicy}
    → PolicyStep p p'
    → (p.version < p'.version)
      × (p'.vault ≡ p.vault)
      × (p'.strategist ≡ p.strategist)
      × (p'.executing ≡ false)
      × IsArmed p'
unfolding update_strategy_policy pause_strategy_policy execute_strategy_policy_update
    apply_strategy_policy_update validate_strategy_policy_update assert_not_executing
PolicyStep-moves (updates authority key v args h) = ground arith
PolicyStep-moves (pauses authority key v h) = ground arith
PolicyStep-moves (executes key policy slot v pending_update h) = ground arith

PolicySteps-grow :
    {p p' : StrategyPolicy}
    → PolicySteps p p'
    → (p.version ≤ p'.version) × (p'.vault ≡ p.vault) × (p'.strategist ≡ p.strategist)
PolicySteps-grow stay = ground arith
PolicySteps-grow (extend steps step) =
    let before = PolicySteps-grow steps in let last = PolicyStep-moves step in ground arith

-- After an update was queued, a change of the policy in any way - an immediate update, a pause, the
-- execution of this or of another queued update - spoils it, however many more changes follow: it
-- can no longer be executed.
pub execute_strategy_policy_update-spoiled :
    (authority key policy : Pubkey) (slot later : ℕ) (v v' : Vault)
    (args : StrategyPolicyUpdateArgs) {p p1 p2 : StrategyPolicy}
    {pending_update : PendingStrategyPolicyUpdate} {p3 : StrategyPolicy}
    → queue_strategy_policy_update authority key policy slot v p args ≡ ok pending_update
    → PolicyStep p p1
    → PolicySteps p1 p2
    → execute_strategy_policy_update key policy later v' p2 pending_update ≢ ok p3
unfolding queue_strategy_policy_update execute_strategy_policy_update
execute_strategy_policy_update-spoiled authority key policy slot later v v' args h step steps k =
    let first = PolicyStep-moves step in let more = PolicySteps-grow steps in ground arith

-- A policy that any sequence of changes leads to from a fresh one is paused or has a root, and only
-- a policy with a version above zero is unpaused.
pub PolicySteps-IsArmed :
    (authority key strategist : Pubkey) (bump : ℕ) (v : Vault) {p p' : StrategyPolicy}
    → initialize_strategy_policy authority key v strategist bump ≡ ok p
    → PolicySteps p p'
    → IsArmed p' × ((p'.paused ≡ true) ⊎ (0 < p'.version)) × (p'.strategist ≡ strategist)
unfolding initialize_strategy_policy
PolicySteps-IsArmed authority key strategist bump v h stay = ground arith
PolicySteps-IsArmed authority key strategist bump v h (extend steps step) =
    let before = PolicySteps-grow steps in let last = PolicyStep-moves step in ground arith

-- An update of a policy that was queued at version zero outlives the policy: when the policy is
-- closed and initialised again for the same strategist, the old update can be executed on the new
-- policy once its slot has come, as long as the curator is the same.
pub execute_strategy_policy_update-reinitialized :
    (authority key policy : Pubkey) (slot later bump : ℕ) (v : Vault) (p : StrategyPolicy)
    (args : StrategyPolicyUpdateArgs) {fresh : StrategyPolicy}
    {pending_update : PendingStrategyPolicyUpdate}
    → queue_strategy_policy_update authority key policy slot v p args ≡ ok pending_update
    → p.version ≡ 0
    → close_strategy_policy authority key v p ≡ ok tt
    → initialize_strategy_policy authority key v p.strategist bump ≡ ok fresh
    → slot + v.timelock_delay_slots ≤ later
    → execute_strategy_policy_update key policy later v fresh pending_update
      ≡ ok (record fresh { merkle_root = args.merkle_root; paused = args.paused; version = 1 })
unfolding queue_strategy_policy_update execute_strategy_policy_update initialize_strategy_policy
    apply_strategy_policy_update assert_not_executing assert_curator
execute_strategy_policy_update-reinitialized authority key policy slot later bump v p args h new
      closed again late =
    ground arith
