-- ===== src/Updates/Immediate.antt =====
-- Changing an extension at once, while no timelock is set
-- (programs/async_vault_v2/src/extensions/*/instructions/update_*.rs).
use solana_vault_v.Base.{ℕ, Bool, ◌>>◌, ◌==◌}
use solana_vault_v.Bytes.{Bytes}
use solana_vault_v.Error.{Outcome, require, unauthorized_signer, timelock_required}
use solana_vault_v.Fee.{FeeType, from_fee_type}
use solana_vault_v.State.{⊤, Pubkey, Vault}
use solana_vault_v.Tlv.Storage.{update_vault_extension}
use solana_vault_v.Tlv.Instances.{
  pausable_subscriptions_extension, pausable_redemptions_extension, min_subscription_extension,
  min_redemption_extension, deposit_fee_extension, withdrawal_fee_extension,
}
use solana_vault_v.Updates.Initialize.{byte_of, validate_fee}

-- `BasicExtensionAccounts`
unfoldable pub basic_extension_accounts : Pubkey → Vault → Outcome ⊤
basic_extension_accounts authority v = do
  require (authority == v.curator) unauthorized_signer
  require (v.timelock_delay_slots == 0) timelock_required

module _ (tlv_start : ℕ) (authority : Pubkey) (v : Vault) where
  unfoldable pub update_deposit_fee : Bytes → FeeType → Outcome Bytes
  update_deposit_fee account_data fee =
      basic_extension_accounts authority v
      >> validate_fee fee
      >> update_vault_extension tlv_start deposit_fee_extension account_data (from_fee_type fee)

  unfoldable pub update_withdrawal_fee : Bytes → FeeType → Outcome Bytes
  update_withdrawal_fee account_data fee =
      basic_extension_accounts authority v
      >> validate_fee fee
      >> update_vault_extension tlv_start withdrawal_fee_extension account_data (from_fee_type fee)

  unfoldable pub update_min_subscription : Bytes → ℕ → Outcome Bytes
  update_min_subscription account_data threshold =
      basic_extension_accounts authority v
      >> update_vault_extension tlv_start min_subscription_extension account_data threshold

  unfoldable pub update_min_redemption : Bytes → ℕ → Outcome Bytes
  update_min_redemption account_data threshold =
      basic_extension_accounts authority v
      >> update_vault_extension tlv_start min_redemption_extension account_data threshold

  unfoldable pub update_pausable_subscriptions : Bytes → Bool → Outcome Bytes
  update_pausable_subscriptions account_data paused =
      basic_extension_accounts authority v
      >> update_vault_extension tlv_start pausable_subscriptions_extension account_data
          (byte_of paused)

  unfoldable pub update_pausable_redemptions : Bytes → Bool → Outcome Bytes
  update_pausable_redemptions account_data paused =
      basic_extension_accounts authority v
      >> update_vault_extension tlv_start pausable_redemptions_extension account_data
          (byte_of paused)
