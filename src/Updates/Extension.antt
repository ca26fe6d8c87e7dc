-- ===== src/Updates/Extension.antt =====
-- Changing an extension after the timelock
-- (programs/async_vault_v2/src/instructions/*_extension_update.rs). Anchor closes the pending update
-- after `execute` and `cancel`.
use solana_vault_v.Base.{ℕ, Bool, not, ok, ◌>>=◌, ◌>>◌, leb, ltb, ◌==◌, u64_max, checked_add}
use solana_vault_v.Bytes.{Bytes, length, drop}
use solana_vault_v.Error.{
  Outcome, require, exact, timelock_not_configured, timelock_not_ready, stale_timelock_authority,
  invalid_timelock_change, invalid_extension_data, uninitialized_extension,
}
use solana_vault_v.State.{⊤, Pubkey, Vault, assert_curator, require_keys_eq}
use solana_vault_v.Tlv.Types.{
  ExtensionType, min_subscription, min_redemption, pausable_subscriptions, pausable_redemptions,
}
use solana_vault_v.Tlv.Storage.{has_extension, update_vault_extension}
use solana_vault_v.Tlv.Instances.{
  pausable_subscriptions_extension, pausable_redemptions_extension, min_subscription_extension,
  min_redemption_extension,
}
use solana_vault_v.Updates.Initialize.{byte_of}

pub data ExtensionUpdateKind : Type 0 where
  min_subscription_update min_redemption_update : ExtensionUpdateKind
  pausable_subscriptions_update pausable_redemptions_update : ExtensionUpdateKind

-- `ExtensionUpdateKind::extension_type`
abbrev pub extension_type_of : ExtensionUpdateKind → ExtensionType
extension_type_of min_subscription_update = min_subscription
extension_type_of min_redemption_update = min_redemption
extension_type_of pausable_subscriptions_update = pausable_subscriptions
extension_type_of pausable_redemptions_update = pausable_redemptions

pub record ExtensionUpdateArgs : Type 0 where
  pub kind : ExtensionUpdateKind
  pub threshold : ℕ  -- u64
  pub paused : Bool

pub record PendingExtensionUpdate : Type 0 where
  pub vault : Pubkey
  pub queued_by : Pubkey
  pub created_slot : ℕ  -- u64
  pub eta_slot : ℕ  -- u64
  pub args : ExtensionUpdateArgs

-- The field that the kind does not use must have its zero value.
unfoldable pub validate_extension_update : ExtensionUpdateArgs → Outcome ⊤
validate_extension_update args = elim args.kind [
  | min_subscription_update ↦ require (not args.paused) invalid_extension_data
  | min_redemption_update ↦ require (not args.paused) invalid_extension_data
  | pausable_subscriptions_update ↦ require (args.threshold == 0) invalid_extension_data
  | pausable_redemptions_update ↦ require (args.threshold == 0) invalid_extension_data
]

module _ (tlv_start : ℕ) where
  unfoldable pub require_extension_exists : Bytes → ExtensionType → Outcome ⊤
  require_extension_exists account_data type = do
    require (ltb tlv_start (length account_data)) uninitialized_extension
    require (has_extension (drop tlv_start account_data) type) uninitialized_extension

  -- The `match` on the kind.
  abbrev pub write_setting : ExtensionUpdateKind → Bytes → ℕ → Bool → Outcome Bytes
  write_setting min_subscription_update account_data threshold paused =
      update_vault_extension tlv_start min_subscription_extension account_data threshold
  write_setting min_redemption_update account_data threshold paused =
      update_vault_extension tlv_start min_redemption_extension account_data threshold
  write_setting pausable_subscriptions_update account_data threshold paused =
      update_vault_extension tlv_start pausable_subscriptions_extension account_data
        (byte_of paused)
  write_setting pausable_redemptions_update account_data threshold paused =
      update_vault_extension tlv_start pausable_redemptions_extension account_data (byte_of paused)

  unfoldable pub apply_extension_update : Bytes → ExtensionUpdateArgs → Outcome Bytes
  apply_extension_update account_data args =
      validate_extension_update args
      >> write_setting args.kind account_data args.threshold args.paused

  -- Each handler takes the address of the vault and the current slot.
  unfoldable pub queue_extension_update :
      Pubkey → Pubkey → ℕ → Vault → Bytes → ExtensionUpdateArgs → Outcome PendingExtensionUpdate
  queue_extension_update authority vault_key current_slot v account_data args = do
    assert_curator v authority
    require (ltb 0 v.timelock_delay_slots) timelock_not_configured
    validate_extension_update args
    require_extension_exists account_data (extension_type_of args.kind)
    eta_slot ← exact (checked_add u64_max current_slot v.timelock_delay_slots)
    ok (record {
      vault = vault_key;
      queued_by = authority;
      created_slot = current_slot;
      eta_slot = eta_slot;
      args = args;
    })

  unfoldable pub execute_extension_update :
      Pubkey → ℕ → Vault → Bytes → PendingExtensionUpdate → Outcome Bytes
  execute_extension_update vault_key current_slot v account_data pending_update = do
    require (pending_update.vault == vault_key) invalid_timelock_change
    require (leb pending_update.eta_slot current_slot) timelock_not_ready
    require_keys_eq pending_update.queued_by v.curator stale_timelock_authority
    apply_extension_update account_data pending_update.args

unfoldable pub cancel_extension_update :
    Pubkey → Pubkey → Vault → PendingExtensionUpdate → Outcome ⊤
cancel_extension_update authority vault_key v pending_update = do
  require (pending_update.vault == vault_key) invalid_timelock_change
  assert_curator v authority
