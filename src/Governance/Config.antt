-- ===== src/Governance/Config.antt =====
-- The configuration update and its checks (update_vault.rs).
use solana_vault_v.Base.{
  ℕ, Bool, not, ◌&&◌, ◌||◌, Option, none, some, ok, err, ◌>>◌, leb, ltb, ◌==◌, if◌then◌else◌,
  is_some, unwrap_or,
}
use solana_vault_v.Error.{
  Outcome, AsyncVaultError, program, require, fee_bps_exceeded, invalid_fee_recipient,
  unsupported_phase_config, invalid_rolling_limit_config, invalid_timelock_change,
  timelock_required,
}
use solana_vault_v.Fee.{max_bps}
use solana_vault_v.State.{
  ⊤, Pubkey, NavMode, Vault, default_pubkey, is_authority_signed, validate_config, assert_curator,
}

pub record UpdateVaultArgs : Type 0 where
  pub paused : Option Bool
  pub fee_recipient : Option Pubkey
  pub manager : Option Pubkey
  pub hot_manager : Option Pubkey
  pub fulfiller : Option Pubkey
  pub breaker : Option Pubkey
  pub nav_mode : Option NavMode
  pub require_fresh_nav : Option Bool
  pub max_nav_delta_bps : Option ℕ  -- u16
  pub max_implied_apy_bps : Option ℕ  -- u32
  pub max_nav_staleness_slots : Option ℕ  -- u64
  pub deposit_cap : Option ℕ  -- u64
  pub rolling_limit_window_slots : Option ℕ  -- u64
  pub manager_rolling_limit : Option ℕ  -- u64
  pub external_withdraw_rolling_limit : Option ℕ  -- u64
  pub redemption_rolling_limit : Option ℕ  -- u64
  pub timelock_delay_slots : Option ℕ  -- u64
  pub performance_fee_bps : Option ℕ  -- u16
  pub performance_fee_crystallization_interval_seconds : Option ℕ  -- u64
  pub protocol_fee_bps : Option ℕ  -- u16
  pub protocol_fee_recipient : Option Pubkey
  pub instant_redemption_fee_bps : Option ℕ  -- u16

unfoldable pub has_timelocked_fields : UpdateVaultArgs → Bool
has_timelocked_fields a =
    is_some a.fee_recipient
    || is_some a.manager
    || is_some a.hot_manager
    || is_some a.fulfiller
    || is_some a.nav_mode
    || is_some a.require_fresh_nav
    || is_some a.max_nav_delta_bps
    || is_some a.max_implied_apy_bps
    || is_some a.max_nav_staleness_slots
    || is_some a.deposit_cap
    || is_some a.rolling_limit_window_slots
    || is_some a.manager_rolling_limit
    || is_some a.external_withdraw_rolling_limit
    || is_some a.redemption_rolling_limit
    || is_some a.timelock_delay_slots
    || is_some a.performance_fee_bps
    || is_some a.performance_fee_crystallization_interval_seconds
    || is_some a.protocol_fee_bps
    || is_some a.protocol_fee_recipient
    || is_some a.instant_redemption_fee_bps

-- `UpdateVaultArgs::has_pause_change`
abbrev pub has_pause_change : UpdateVaultArgs → Bool
has_pause_change a = is_some a.paused

-- A field of the arguments that is set must pass a test.
abbrev pub check_given : {A : Type 0} → Option A → (A → Bool) → AsyncVaultError → Outcome ⊤
check_given none test e = ok tt
check_given (some a) test e = require (test a) e

unfoldable pub validate_update_args_supported : Vault → UpdateVaultArgs → Outcome ⊤
validate_update_args_supported v a = do
  check_given a.max_nav_delta_bps (λ bps. leb bps max_bps) fee_bps_exceeded
  check_given a.performance_fee_bps (λ bps. leb bps max_bps) fee_bps_exceeded
  check_given a.protocol_fee_bps (λ bps. leb bps max_bps) fee_bps_exceeded
  (if ltb 0 (unwrap_or a.protocol_fee_bps v.protocol_fee_bps)
      then require
          (not (unwrap_or a.protocol_fee_recipient v.protocol_fee_recipient == default_pubkey))
          invalid_fee_recipient
      else ok tt)
  check_given a.instant_redemption_fee_bps (λ bps. leb bps max_bps) fee_bps_exceeded
  check_given a.nav_mode is_authority_signed unsupported_phase_config
  require
      (not (is_some v.tranche_config) || unwrap_or a.performance_fee_bps v.performance_fee_bps == 0)
      unsupported_phase_config
  require
      (ltb 0 (unwrap_or a.rolling_limit_window_slots v.rolling_limit_window_slots)
        || unwrap_or a.manager_rolling_limit v.manager_rolling_limit == 0
          && unwrap_or a.external_withdraw_rolling_limit v.external_withdraw_rolling_limit == 0
          && unwrap_or a.redemption_rolling_limit v.redemption_rolling_limit == 0)
      invalid_rolling_limit_config

unfoldable pub validate_queued_vault_update : Vault → UpdateVaultArgs → Outcome ⊤
validate_queued_vault_update v a = do
  require (has_timelocked_fields a && not (has_pause_change a)) invalid_timelock_change
  require (not (is_some a.breaker)) invalid_timelock_change
  validate_update_args_supported v a

-- The assignments of `apply_vault_update`: a field that is not given stays.
unfoldable pub updated : Vault → UpdateVaultArgs → Vault
updated v a = record v {
  paused = unwrap_or a.paused v.paused;
  fee_recipient = unwrap_or a.fee_recipient v.fee_recipient;
  manager = unwrap_or a.manager v.manager;
  hot_manager = unwrap_or a.hot_manager v.hot_manager;
  fulfiller = unwrap_or a.fulfiller v.fulfiller;
  breaker = unwrap_or a.breaker v.breaker;
  nav_mode = unwrap_or a.nav_mode v.nav_mode;
  require_fresh_nav = unwrap_or a.require_fresh_nav v.require_fresh_nav;
  max_nav_delta_bps = unwrap_or a.max_nav_delta_bps v.max_nav_delta_bps;
  max_implied_apy_bps = unwrap_or a.max_implied_apy_bps v.max_implied_apy_bps;
  max_nav_staleness_slots = unwrap_or a.max_nav_staleness_slots v.max_nav_staleness_slots;
  deposit_cap = unwrap_or a.deposit_cap v.deposit_cap;
  rolling_limit_window_slots = unwrap_or a.rolling_limit_window_slots v.rolling_limit_window_slots;
  manager_rolling_limit = unwrap_or a.manager_rolling_limit v.manager_rolling_limit;
  external_withdraw_rolling_limit =
      unwrap_or a.external_withdraw_rolling_limit v.external_withdraw_rolling_limit;
  redemption_rolling_limit = unwrap_or a.redemption_rolling_limit v.redemption_rolling_limit;
  timelock_delay_slots = unwrap_or a.timelock_delay_slots v.timelock_delay_slots;
  performance_fee_bps = unwrap_or a.performance_fee_bps v.performance_fee_bps;
  performance_fee_crystallization_interval_seconds =
      unwrap_or a.performance_fee_crystallization_interval_seconds
        v.performance_fee_crystallization_interval_seconds;
  protocol_fee_bps = unwrap_or a.protocol_fee_bps v.protocol_fee_bps;
  protocol_fee_recipient = unwrap_or a.protocol_fee_recipient v.protocol_fee_recipient;
  instant_redemption_fee_bps = unwrap_or a.instant_redemption_fee_bps v.instant_redemption_fee_bps;
}

unfoldable pub apply_vault_update : Vault → UpdateVaultArgs → Outcome Vault
apply_vault_update v a = do validate_config (updated v a); ok (updated v a)

-- The handler of `update_vault`.
unfoldable pub update_vault : Pubkey → Vault → UpdateVaultArgs → Outcome Vault
update_vault authority v a = do
  assert_curator v authority
  (if ltb 0 v.timelock_delay_slots && has_timelocked_fields a
      then err (program timelock_required)
      else apply_vault_update v a)
