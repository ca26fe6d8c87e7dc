-- ===== src/Setup/Tranches.antt =====
-- Splitting a vault that is not open yet into two tranches
-- (programs/async_vault_v2/src/instructions/initialize_tranches.rs).
use solana_vault_v.Base.{
  ℕ, Bool, not, ◌&&◌, ◌||◌, some, ok, ◌>>=◌, ◌>>◌, leb, ◌==◌, is_some, if◌then◌else◌, ok_or,
}
use solana_vault_v.Base.Int.{pos}
use solana_vault_v.Error.{
  Outcome, require, or_fail, unauthorized_signer, extension_already_initialized,
  unsupported_phase_config, fee_bps_exceeded, invalid_tranche_request_limit_config,
  mints_should_be_different, invalid_share_mint, share_mint_supply_should_be_zero,
  token_program_refused,
}
use solana_vault_v.Fee.{max_bps}
use solana_vault_v.State.{
  ⊤, Pubkey, Vault, TrancheConfig, RequestLimits, require_keys_eq, assert_uninitialized,
  assert_curator,
}
use solana_vault_v.Runtime.{Addresses, Mint, validate_share_mint_extensions}
use solana_vault_v.Setup.Mints.{MintAuthorities}

pub record InitializeTranchesArgs : Type 0 where
  pub senior_target_bps : ℕ  -- u16
  pub min_junior_ratio_bps : ℕ  -- u16
  pub min_request_amounts : RequestLimits
  pub max_request_amounts : RequestLimits

pub record InitializeTranchesAccounts : Type 0 where
  pub mint_authority : Pubkey
  pub authority : Pubkey
  pub vault_key : Pubkey
  pub senior_share_mint : Mint
  pub junior_share_mint : Mint
  pub senior_share_token_program : Pubkey
  pub junior_share_token_program : Pubkey
  pub tranche_config_key : Pubkey
  pub bump : ℕ

-- One pair of the loop over the limits; a maximum of 0 is none.
abbrev pub limits_ordered : ℕ → ℕ → Bool
limits_ordered min_amount max_amount = max_amount == 0 || leb min_amount max_amount

-- The loop, over all four pairs.
unfoldable pub check_request_limits : RequestLimits → RequestLimits → Outcome ⊤
check_request_limits least most = do
  require (limits_ordered least.senior_deposit most.senior_deposit)
      invalid_tranche_request_limit_config
  require (limits_ordered least.senior_redeem most.senior_redeem)
      invalid_tranche_request_limit_config
  require (limits_ordered least.junior_deposit most.junior_deposit)
      invalid_tranche_request_limit_config
  require (limits_ordered least.junior_redeem most.junior_redeem)
      invalid_tranche_request_limit_config

abbrev pub new_tranche_config : InitializeTranchesAccounts → InitializeTranchesArgs → TrancheConfig
new_tranche_config accounts args = record {
  vault = accounts.vault_key;
  senior_share_mint = accounts.senior_share_mint.key;
  junior_share_mint = accounts.junior_share_mint.key;
  senior_nav = 0;
  junior_nav = 0;
  senior_supply = 0;
  junior_supply = 0;
  senior_target_bps = args.senior_target_bps;
  min_junior_ratio_bps = args.min_junior_ratio_bps;
  min_request_amounts = args.min_request_amounts;
  max_request_amounts = args.max_request_amounts;
  senior_subscription_request_total = 0;
  senior_subscription_request_last_processed = 0;
  senior_redemption_request_total = 0;
  senior_redemption_request_last_processed = 0;
  junior_subscription_request_total = 0;
  junior_subscription_request_last_processed = 0;
  junior_redemption_request_total = 0;
  junior_redemption_request_last_processed = 0;
  last_waterfall_slot = 0;
  last_waterfall_timestamp = pos 0;
  bump = accounts.bump;
}

-- The checks on the configuration, before any mint is looked at.
unfoldable pub check_tranche_args : Pubkey → Vault → InitializeTranchesArgs → Outcome ⊤
check_tranche_args authority v args = do
  assert_uninitialized v
  assert_curator v authority
  require (not (is_some v.tranche_config)) extension_already_initialized
  require (v.performance_fee_bps == 0) unsupported_phase_config
  require (leb args.senior_target_bps max_bps && leb args.min_junior_ratio_bps max_bps)
      fee_bps_exceeded
  check_request_limits args.min_request_amounts args.max_request_amounts

-- The two mints: different, neither of them the asset's, one of them the vault's, and both empty.
unfoldable pub check_tranche_mints : Addresses → Vault → InitializeTranchesAccounts → Outcome ⊤
check_tranche_mints addresses v accounts = do
  let senior = accounts.senior_share_mint
  let junior = accounts.junior_share_mint
  require (not (senior.key == junior.key)) mints_should_be_different
  require (not (senior.key == v.asset_mint)) invalid_share_mint
  require (not (junior.key == v.asset_mint)) invalid_share_mint
  require (senior.key == v.share_mint || junior.key == v.share_mint) invalid_share_mint
  require (senior.supply == 0 && junior.supply == 0) share_mint_supply_should_be_zero
  require_keys_eq senior.owner accounts.senior_share_token_program invalid_share_mint
  require_keys_eq junior.owner accounts.junior_share_token_program invalid_share_mint
  validate_share_mint_extensions addresses senior
  validate_share_mint_extensions addresses junior

module _ (addresses : Addresses) (M : MintAuthorities) where
  unfoldable pub require_mint_owned_by : M.Mints → Pubkey → Pubkey → Outcome ⊤
  require_mint_owned_by mints mint authority = do
    current ← or_fail (M.authority mints mint) unauthorized_signer
    require_keys_eq current authority unauthorized_signer

  -- The vault owns its own share mint already, and takes the other one.
  unfoldable pub take_tranche_mints : Vault → InitializeTranchesAccounts → M.Mints → Outcome M.Mints
  take_tranche_mints v accounts mints =
      let senior = accounts.senior_share_mint.key in
      let junior = accounts.junior_share_mint.key in
      let take : Pubkey → Outcome M.Mints = λ mint.
        ok_or (M.set_authority mints mint accounts.mint_authority accounts.vault_key)
          token_program_refused in
      if senior == v.share_mint
      then require_mint_owned_by mints senior accounts.vault_key >> take junior
      else require_mint_owned_by mints junior accounts.vault_key >> take senior

  unfoldable pub initialize_tranches :
      InitializeTranchesAccounts
      → InitializeTranchesArgs
      → Vault
      → M.Mints
      → Outcome (Vault × TrancheConfig × M.Mints)
  initialize_tranches accounts args v mints = do
    check_tranche_args accounts.authority v args
    check_tranche_mints addresses v accounts
    mints' ← take_tranche_mints v accounts mints
    ok (
      record v { tranche_config = some accounts.tranche_config_key },
      new_tranche_config accounts args,
      mints',
    )
