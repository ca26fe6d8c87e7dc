-- ===== src/Strategy/Policy.antt =====
-- The life cycle of a strategy policy: initialised paused and without a root, updated at once or
-- under the timelock, paused, closed. Every handler checks that the policy is the vault's.
use solana_vault_v.Base.{
  ℕ, Bool, true, false, not, ◌||◌, ok, ◌>>=◌, ◌>>◌, leb, ltb, ◌==◌, if◌then◌else◌, u64_max,
  checked_add,
}
use solana_vault_v.Error.{
  Outcome, require, exact, invalid_strategy_policy, empty_merkle_root, timelock_required,
  timelock_not_configured, timelock_not_ready, stale_timelock_authority, invalid_timelock_change,
  stale_strategy_policy_version, unauthorized_signer,
}
use solana_vault_v.State.{
  ⊤, Pubkey, default_pubkey, Bytes32, Vault, StrategyPolicy, require_keys_eq, assert_curator,
  assert_not_executing,
}

pub record StrategyPolicyUpdateArgs : Type 0 where
  pub merkle_root : Bytes32
  pub paused : Bool

pub record PendingStrategyPolicyUpdate : Type 0 where
  pub vault : Pubkey
  pub strategy_policy : Pubkey
  pub queued_by : Pubkey
  pub created_slot : ℕ  -- u64
  pub eta_slot : ℕ  -- u64
  pub expected_version : ℕ  -- u64
  pub args : StrategyPolicyUpdateArgs

unfoldable pub initialize_strategy_policy :
    Pubkey → Pubkey → Vault → Pubkey → ℕ → Outcome StrategyPolicy
initialize_strategy_policy authority vault_key v strategist bump = do
  assert_curator v authority
  require (not (strategist == default_pubkey)) invalid_strategy_policy
  ok (record {
    vault = vault_key;
    strategist = strategist;
    merkle_root = 0;
    version = 0;
    paused = true;
    executing = false;
    bump = bump;
  })

-- An unpaused policy has a root.
unfoldable pub validate_strategy_policy_update : StrategyPolicyUpdateArgs → Outcome ⊤
validate_strategy_policy_update args =
    if args.paused then ok tt else require (not (args.merkle_root == 0)) empty_merkle_root

unfoldable pub apply_strategy_policy_update :
    StrategyPolicy → StrategyPolicyUpdateArgs → Outcome StrategyPolicy
apply_strategy_policy_update p args = do
  assert_not_executing p
  validate_strategy_policy_update args
  version ← exact (checked_add u64_max p.version 1)
  ok (record p { merkle_root = args.merkle_root; paused = args.paused; version = version })

unfoldable pub update_strategy_policy :
    Pubkey → Pubkey → Vault → StrategyPolicy → StrategyPolicyUpdateArgs → Outcome StrategyPolicy
update_strategy_policy authority vault_key v p args = do
  require (p.vault == vault_key) invalid_strategy_policy
  assert_curator v authority
  require (v.timelock_delay_slots == 0) timelock_required
  apply_strategy_policy_update p args

unfoldable pub pause_strategy_policy :
    Pubkey → Pubkey → Vault → StrategyPolicy → Outcome StrategyPolicy
pause_strategy_policy authority vault_key v p = do
  require (p.vault == vault_key) invalid_strategy_policy
  require (authority == v.curator || authority == v.breaker) unauthorized_signer
  assert_not_executing p
  version ← exact (checked_add u64_max p.version 1)
  ok (record p { paused = true; version = version })

unfoldable pub close_strategy_policy : Pubkey → Pubkey → Vault → StrategyPolicy → Outcome ⊤
close_strategy_policy authority vault_key v p = do
  require (p.vault == vault_key) invalid_strategy_policy
  assert_curator v authority
  assert_not_executing p

unfoldable pub queue_strategy_policy_update :
    Pubkey
    → Pubkey
    → Pubkey
    → ℕ
    → Vault
    → StrategyPolicy
    → StrategyPolicyUpdateArgs
    → Outcome PendingStrategyPolicyUpdate
queue_strategy_policy_update authority vault_key policy_key current_slot v p args = do
  require (p.vault == vault_key) invalid_strategy_policy
  assert_curator v authority
  require (ltb 0 v.timelock_delay_slots) timelock_not_configured
  validate_strategy_policy_update args
  eta_slot ← exact (checked_add u64_max current_slot v.timelock_delay_slots)
  ok (record {
    vault = vault_key;
    strategy_policy = policy_key;
    queued_by = authority;
    created_slot = current_slot;
    eta_slot = eta_slot;
    expected_version = p.version;
    args = args;
  })

unfoldable pub execute_strategy_policy_update :
    Pubkey
    → Pubkey
    → ℕ
    → Vault
    → StrategyPolicy
    → PendingStrategyPolicyUpdate
    → Outcome StrategyPolicy
execute_strategy_policy_update vault_key policy_key current_slot v p pending_update = do
  require (p.vault == vault_key) invalid_strategy_policy
  require (pending_update.vault == vault_key) invalid_timelock_change
  require (pending_update.strategy_policy == policy_key) invalid_timelock_change
  require (leb pending_update.eta_slot current_slot) timelock_not_ready
  require_keys_eq pending_update.queued_by v.curator stale_timelock_authority
  require (p.version == pending_update.expected_version) stale_strategy_policy_version
  apply_strategy_policy_update p pending_update.args

unfoldable pub cancel_strategy_policy_update :
    Pubkey → Pubkey → Vault → PendingStrategyPolicyUpdate → Outcome ⊤
cancel_strategy_policy_update authority vault_key v pending_update = do
  require (pending_update.vault == vault_key) invalid_timelock_change
  assert_curator v authority
