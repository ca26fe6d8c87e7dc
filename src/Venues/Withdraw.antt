-- ===== src/Venues/Withdraw.antt =====
-- Withdrawing the vault's assets to a recipient that the vault has approved
-- (programs/async_vault_v2/src/instructions/withdraw_assets.rs).
use solana_vault_v.Base.{ℕ, ok, ◌>>=◌, ◌>>◌, ◌==◌, ensure}
use solana_vault_v.Error.{
  Outcome, require, constraint_violated, invalid_asset_mint, unauthorized_signer, invalid_vault,
  invalid_venue_entry, invalid_venue_recipient,
}
use solana_vault_v.State.{
  Pubkey, Vault, VenueEntry, VaultVenue, require_keys_eq, assert_unpaused_and_initialized,
  assert_entry_active, assert_venue_active,
}
use solana_vault_v.Extensions.{Extensions, assert_externally_managed_withdrawals_enabled}
use solana_vault_v.Limits.{consume_external_withdraw_rolling_limit}
use solana_vault_v.Runtime.{Clock}
use solana_vault_v.Runtime.Token.{TokenProgram}
use solana_vault_v.Requests.World.{transfer_checked}

-- The accounts of a call; the recipient's token account comes with its owner.
pub record WithdrawAccounts : Type 0 where
  pub authority : Pubkey
  pub asset_mint : Pubkey
  pub vault_key : Pubkey
  pub venue_entry_key : Pubkey
  pub venue_entry : VenueEntry
  pub vault_venue : VaultVenue
  pub vault_token_account : Pubkey
  pub recipient_token_account : Pubkey
  pub recipient_owner : Pubkey

pub record WithdrawWorld (T : TokenProgram) : Type 0 where
  pub vault : Vault
  pub extensions : Extensions
  pub tokens : T.Tokens

-- The vault's `total_asset_balance` stays: what is withdrawn still belongs to the vault.
unfoldable pub withdraw_assets :
    (T : TokenProgram) → Clock → WithdrawAccounts → ℕ → WithdrawWorld T → Outcome (WithdrawWorld T)
withdraw_assets T clock accounts amount w = do
  require_keys_eq w.vault.asset_mint accounts.asset_mint invalid_asset_mint
  require (accounts.authority == w.vault.curator) unauthorized_signer
  require_keys_eq (accounts.vault_venue.vault) accounts.vault_key invalid_vault
  require_keys_eq (accounts.vault_venue.venue_entry) accounts.venue_entry_key invalid_venue_entry
  ensure (w.vault.vault_token_account == accounts.vault_token_account) constraint_violated
  require (accounts.recipient_owner == accounts.vault_venue.recipient_authority)
      invalid_venue_recipient
  assert_unpaused_and_initialized w.vault
  assert_externally_managed_withdrawals_enabled w.extensions
  assert_entry_active accounts.venue_entry
  assert_venue_active accounts.vault_venue
  v ← consume_external_withdraw_rolling_limit w.vault amount clock.slot
  t ←
      transfer_checked T w.tokens accounts.vault_token_account accounts.recipient_token_account
        amount
  ok (record w { vault = v; tokens = t })
