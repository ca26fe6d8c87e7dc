-- ===== src/Error.antt =====
-- The program's error codes (programs/async_vault_v2/src/error.rs) and those of the fee library
-- (libs/vault_common/src/error.rs).
use solana_vault_v.Base.{Bool, Result, ensure, Option, ok_or, map_err}

pub data VaultMathError : Type 0 where
  arithmetic fee_bps_limit_reached : VaultMathError

pub data AsyncVaultError : Type 0 where
  invalid_initial_price unauthorized_signer uninitialized_vault paused_vault : AsyncVaultError
  vault_already_initialized extension_already_initialized uninitialized_extension : AsyncVaultError
  invalid_extension_data fee_bps_exceeded arithmetic_error mints_should_be_different :
      AsyncVaultError
  share_mint_supply_should_be_zero no_pending_authority invalid_pending_vault : AsyncVaultError
  invalid_pending_shares_vault missing_fee_recipient invalid_fee_recipient : AsyncVaultError
  request_invalid_state request_is_not_pending invalid_request_type : AsyncVaultError
  missing_required_account invalid_asset_mint_extensions invalid_asset_mint : AsyncVaultError
  invalid_share_mint invalid_request request_not_pending request_not_claimable : AsyncVaultError
  subscriptions_paused redemptions_paused subscription_queue_out_of_order : AsyncVaultError
  request_is_not_canceled must_use_cancel_queued_deposit_request : AsyncVaultError
  redemption_queue_out_of_order must_use_cancel_queued_redemption_request : AsyncVaultError
  subscription_amount_below_minimum redemption_amount_below_minimum nav_is_not_set : AsyncVaultError
  insufficient_redeem_amount approval_request_mismatch insufficient_deposit_amount : AsyncVaultError
  invalid_share_mint_extensions stale_nav nav_delta_exceeded nav_apy_exceeded : AsyncVaultError
  deposit_cap_exceeded breaker_can_only_pause unsupported_phase_config : AsyncVaultError
  rolling_limit_exceeded invalid_rolling_limit_config timelock_required : AsyncVaultError
  timelock_not_configured timelock_not_ready invalid_timelock_change : AsyncVaultError
  stale_timelock_authority asset_already_approved max_approved_assets_exceeded : AsyncVaultError
  asset_balance_non_zero invalid_vault externally_managed_withdrawals_disabled : AsyncVaultError
  invalid_venue_discriminator_count venue_paused venue_position_non_zero : AsyncVaultError
  invalid_venue_entry invalid_position position_balance_non_zero : AsyncVaultError
  insufficient_position_balance invalid_balance_delta instant_settlement_disabled : AsyncVaultError
  insufficient_liquidity junior_ratio_below_minimum invalid_tranche_request_limit_config :
      AsyncVaultError
  tranche_request_amount_below_minimum tranche_request_amount_above_maximum : AsyncVaultError
  invalid_instant_settlement_threshold_config instant_deposit_amount_below_minimum : AsyncVaultError
  instant_deposit_amount_above_maximum instant_redeem_shares_below_minimum : AsyncVaultError
  instant_redeem_shares_above_maximum invalid_venue_recipient invalid_strategy_policy :
      AsyncVaultError
  strategy_policy_paused empty_merkle_root merkle_proof_too_deep merkle_proof_invalid :
      AsyncVaultError
  stale_strategy_policy_version invalid_policy_operator policy_operator_out_of_bounds :
      AsyncVaultError
  duplicate_manager_limit_operator invalid_venue_instruction venue_instruction_not_allowed :
      AsyncVaultError
  target_program_mismatch target_program_not_executable unsafe_target_program : AsyncVaultError
  too_many_cpi_accounts instruction_data_too_large share_supply_changed : AsyncVaultError
  reentrant_strategy_call policy_ingestion_limit_exceeded : AsyncVaultError

-- `impl From<VaultMathError> for AsyncVaultError`
abbrev pub from_math : VaultMathError → AsyncVaultError
from_math arithmetic = arithmetic_error
from_math fee_bps_limit_reached = fee_bps_exceeded

-- What a handler returns: the program's own code, a `ProgramError` of the runtime, or the refusal of
-- a token-program call.
pub data Error : Type 0 where
  program : AsyncVaultError → Error
  invalid_account_data invalid_account_owner account_not_deserialized constraint_violated : Error
  token_program_refused panicked : Error

-- The `Result<T>` of Anchor.
abbrev pub Outcome : Type 0 → Type 0
Outcome A = Result Error A

-- `require!(b, e)`
abbrev pub require : Bool → AsyncVaultError → Outcome (Unit {0})
require b e = ensure b (program e)

-- `o.ok_or(e)?`
abbrev pub or_fail : {A : Type 0} → Option A → AsyncVaultError → Outcome A
or_fail o e = ok_or o (program e)

-- `o.ok_or(AsyncVaultError::ArithmeticError)?`
abbrev pub exact : {A : Type 0} → Option A → Outcome A
exact o = or_fail o arithmetic_error

-- `r.map_err(AsyncVaultError::from)?`
abbrev pub or_math : {A : Type 0} → Result VaultMathError A → Outcome A
or_math r = map_err (λ e. program (from_math e)) r
