-- ===== src/Setup/Assets.antt =====
-- The secondary assets of a vault
-- (programs/async_vault_v2/src/instructions/add_vault_asset.rs and remove_vault_asset.rs).
use solana_vault_v.Base.{ℕ, not, ◌&&◌, ok, ◌>>=◌, ◌>>◌, ltb, ◌==◌, checked_add, checked_sub}
use solana_vault_v.Error.{
  Outcome, require, exact, timelock_required, asset_already_approved, max_approved_assets_exceeded,
  asset_balance_non_zero, invalid_vault, invalid_asset_mint, invalid_pending_vault,
}
use solana_vault_v.State.{Pubkey, Vault, VaultAsset, require_keys_eq, assert_curator}
use solana_vault_v.Runtime.{Addresses, Mint, validate_asset_mint_extensions}
use solana_vault_v.Runtime.Token.{TokenProgram}

abbrev pub max_approved_assets : ℕ
max_approved_assets = 8

abbrev u8_max : ℕ
u8_max = 255

-- The accounts of both calls: Anchor derives the addresses of the asset, its reserve and its escrow
-- account from the vault and the mint.
pub record AssetAccounts : Type 0 where
  pub authority : Pubkey
  pub vault_key : Pubkey
  pub asset_mint : Mint
  pub reserve : Pubkey
  pub pending_vault : Pubkey
  pub reserve_bump : ℕ
  pub pending_vault_bump : ℕ
  pub bump : ℕ

-- Creates the asset's account and its two token accounts.
unfoldable pub add_vault_asset :
    Addresses → AssetAccounts → ℕ → Vault → Outcome (Vault × VaultAsset)
add_vault_asset addresses accounts deposit_cap v = do
  assert_curator v accounts.authority
  require (v.timelock_delay_slots == 0) timelock_required
  require (not (accounts.asset_mint.key == v.asset_mint)) asset_already_approved
  require (ltb v.approved_asset_count max_approved_assets) max_approved_assets_exceeded
  validate_asset_mint_extensions addresses accounts.asset_mint
  count ← exact (checked_add u8_max v.approved_asset_count 1)
  ok (
    record v { approved_asset_count = count },
    record {
      vault = accounts.vault_key;
      asset_mint = accounts.asset_mint.key;
      reserve = accounts.reserve;
      pending_vault = accounts.pending_vault;
      idle_balance = 0;
      deployed_balance = 0;
      pending_deposit_amount = 0;
      deposit_cap = deposit_cap;
      manager_window_start_slot = 0;
      manager_window_amount = 0;
      reserve_bump = accounts.reserve_bump;
      pending_vault_bump = accounts.pending_vault_bump;
      bump = accounts.bump;
    },
  )

-- Closes the three accounts, which hold nothing.
unfoldable pub remove_vault_asset :
    (T : TokenProgram) → AssetAccounts → Vault → VaultAsset → T.Tokens → Outcome Vault
remove_vault_asset T accounts v asset tokens = do
  require_keys_eq asset.vault accounts.vault_key invalid_vault
  require_keys_eq asset.asset_mint accounts.asset_mint.key invalid_asset_mint
  require_keys_eq asset.reserve accounts.reserve invalid_vault
  require_keys_eq asset.pending_vault accounts.pending_vault invalid_pending_vault
  assert_curator v accounts.authority
  require (v.timelock_delay_slots == 0) timelock_required
  require
      (asset.idle_balance == 0
        && (asset.deployed_balance == 0
            && (asset.pending_deposit_amount == 0
                && (T.balance tokens accounts.reserve == 0
                    && T.balance tokens accounts.pending_vault == 0))))
      asset_balance_non_zero
  count ← exact (checked_sub v.approved_asset_count 1)
  ok (record v { approved_asset_count = count })
