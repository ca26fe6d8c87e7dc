-- ===== src/Governance/Timelock.antt =====
-- A configuration change that waits: queued by the curator, executed by anybody once its slot has come.
-- Anchor closes the pending update's account after `execute` and `cancel`.
use solana_vault_v.Base.{ℕ, ok, ◌>>=◌, ◌>>◌, leb, ltb, ◌==◌, u64_max, checked_add}
use solana_vault_v.Error.{
  Outcome, require, exact, timelock_not_configured, timelock_not_ready, stale_timelock_authority,
  invalid_timelock_change,
}
use solana_vault_v.State.{⊤, Pubkey, Vault, assert_curator, require_keys_eq}
use solana_vault_v.Governance.Config.{
  UpdateVaultArgs, validate_queued_vault_update, apply_vault_update,
}

pub record PendingVaultUpdate : Type 0 where
  pub vault : Pubkey
  pub queued_by : Pubkey
  pub created_slot : ℕ  -- u64
  pub eta_slot : ℕ  -- u64
  pub args : UpdateVaultArgs

-- Each handler takes the address of the vault and the current slot.
unfoldable pub queue_vault_update :
    Pubkey → Pubkey → ℕ → Vault → UpdateVaultArgs → Outcome PendingVaultUpdate
queue_vault_update authority vault_key current_slot v a = do
  assert_curator v authority
  require (ltb 0 v.timelock_delay_slots) timelock_not_configured
  validate_queued_vault_update v a
  eta_slot ← exact (checked_add u64_max current_slot v.timelock_delay_slots)
  ok (record {
    vault = vault_key;
    queued_by = authority;
    created_slot = current_slot;
    eta_slot = eta_slot;
    args = a;
  })

unfoldable pub execute_vault_update : Pubkey → ℕ → Vault → PendingVaultUpdate → Outcome Vault
execute_vault_update vault_key current_slot v pending_update = do
  require (pending_update.vault == vault_key) invalid_timelock_change
  require (leb pending_update.eta_slot current_slot) timelock_not_ready
  require_keys_eq pending_update.queued_by v.curator stale_timelock_authority
  validate_queued_vault_update v pending_update.args
  apply_vault_update v pending_update.args

unfoldable pub cancel_vault_update : Pubkey → Pubkey → Vault → PendingVaultUpdate → Outcome ⊤
cancel_vault_update authority vault_key v pending_update = do
  require (pending_update.vault == vault_key) invalid_timelock_change
  assert_curator v authority
