-- ===== src/Setup/Creation.antt =====
-- Creating a vault and opening it
-- (programs/async_vault_v2/src/instructions/create_vault.rs and initialize_vault.rs).
use solana_vault_v.Base.{ℕ, true, false, not, none, ok, ◌>>=◌, ◌>>◌, ◌==◌, ok_or}
use solana_vault_v.Base.Int.{pos}
use solana_vault_v.Error.{
  Outcome, require, mints_should_be_different, share_mint_supply_should_be_zero, invalid_share_mint,
  unauthorized_signer, token_program_refused,
}
use solana_vault_v.State.{Pubkey, Vault, authority_signed, require_keys_eq, assert_uninitialized}
use solana_vault_v.Runtime.{
  Addresses, Mint, validate_asset_mint_extensions, validate_share_mint_extensions,
}
use solana_vault_v.Setup.Mints.{MintAuthorities}

pub record AsyncVaultArgs : Type 0 where
  pub authority : Pubkey
  pub fee_recipient : Pubkey

-- The accounts of the call; those it creates come with the bumps of their addresses.
pub record CreateVaultAccounts : Type 0 where
  pub mint_authority : Pubkey
  pub asset_mint : Mint
  pub share_mint : Mint
  pub vault_key : Pubkey
  pub reserve : Pubkey
  pub pending_vault : Pubkey
  pub reserve_bump : ℕ
  pub pending_vault_bump : ℕ
  pub bump : ℕ

-- The vault that `set_inner` writes.
abbrev pub new_vault : CreateVaultAccounts → AsyncVaultArgs → Vault
new_vault accounts args = record {
  asset_mint = accounts.asset_mint.key;
  approved_asset_count = 1;
  share_mint = accounts.share_mint.key;
  vault_token_account = accounts.reserve;
  authority = args.authority;
  curator = args.authority;
  manager = args.authority;
  hot_manager = args.authority;
  fulfiller = args.authority;
  breaker = args.authority;
  fee_recipient = args.fee_recipient;
  paused = false;
  initialized = false;
  pending_vault = accounts.pending_vault;
  nav = 0;
  nav_version = 0;
  nav_mode = authority_signed;
  require_fresh_nav = true;
  max_nav_delta_bps = 0;
  max_implied_apy_bps = 0;
  max_nav_staleness_slots = 0;
  last_nav_update_slot = 0;
  last_nav_update_timestamp = pos 0;
  pending_async_requests = 0;
  total_asset_balance = 0;
  deposit_cap = 0;
  pending_deposit_amount = 0;
  rolling_limit_window_slots = 0;
  manager_rolling_limit = 0;
  manager_window_start_slot = 0;
  manager_window_amount = 0;
  external_withdraw_rolling_limit = 0;
  redemption_rolling_limit = 0;
  external_withdraw_window_start_slot = 0;
  external_withdraw_window_amount = 0;
  redemption_window_start_slot = 0;
  redemption_window_amount = 0;
  timelock_delay_slots = 0;
  performance_fee_bps = 0;
  performance_fee_crystallization_interval_seconds = 0;
  protocol_fee_bps = 0;
  protocol_fee_recipient = args.fee_recipient;
  instant_redemption_fee_bps = 0;
  high_water_mark = 0;
  tranche_config = none;
  last_fee_crystallization_timestamp = pos 0;
  reserve_bump = accounts.reserve_bump;
  pending_vault_bump = accounts.pending_vault_bump;
  bump = accounts.bump;
  pending_authority = none;
}

module _ (addresses : Addresses) (M : MintAuthorities) where
  -- The vault takes the authority over its share mint, which has no shares yet.
  unfoldable pub create_vault :
      CreateVaultAccounts → AsyncVaultArgs → M.Mints → Outcome (Vault × M.Mints)
  create_vault accounts args mints = do
    require (not (accounts.share_mint.key == accounts.asset_mint.key)) mints_should_be_different
    require (accounts.share_mint.supply == 0) share_mint_supply_should_be_zero
    validate_asset_mint_extensions addresses accounts.asset_mint
    validate_share_mint_extensions addresses accounts.share_mint
    mints' ←
        ok_or
          (M.set_authority mints accounts.share_mint.key accounts.mint_authority accounts.vault_key)
          token_program_refused
    ok (new_vault accounts args, mints')

unfoldable pub initialize_vault : Pubkey → Pubkey → Vault → Outcome Vault
initialize_vault authority share_mint v = do
  require_keys_eq v.share_mint share_mint invalid_share_mint
  require (authority == v.curator) unauthorized_signer
  assert_uninitialized v
  ok (record v { initialized = true })
