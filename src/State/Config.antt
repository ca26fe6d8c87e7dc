-- ===== src/State/Config.antt =====
-- `Vault::validate_config` (programs/async_vault_v2/src/state/async_vault_v2.rs).
use solana_vault_v.Base.{
  Bool, true, false, not, ◌&&◌, ◌||◌, ok, ◌>>◌, leb, ltb, ◌==◌, if◌then◌else◌, is_some,
}
use solana_vault_v.Error.{
  Outcome, require, fee_bps_exceeded, unsupported_phase_config, invalid_fee_recipient,
  invalid_rolling_limit_config,
}
use solana_vault_v.Fee.{max_bps}
use solana_vault_v.State.Accounts.{NavMode, authority_signed, oracle, hybrid, Vault, default_pubkey}

-- `mode == NavMode::AuthoritySigned`
abbrev pub is_authority_signed : NavMode → Bool
is_authority_signed authority_signed = true
is_authority_signed oracle = false
is_authority_signed hybrid = false

unfoldable pub validate_config : Vault → Outcome (Unit {0})
validate_config v = do
  require
      (leb v.max_nav_delta_bps max_bps
        && leb v.performance_fee_bps max_bps
        && leb v.protocol_fee_bps max_bps
        && leb v.instant_redemption_fee_bps max_bps)
      fee_bps_exceeded
  require (is_authority_signed v.nav_mode) unsupported_phase_config
  require (not (is_some v.tranche_config) || v.performance_fee_bps == 0) unsupported_phase_config
  (if ltb 0 v.protocol_fee_bps
      then require (not (v.protocol_fee_recipient == default_pubkey)) invalid_fee_recipient
      else ok tt)
  require
      (ltb 0 v.rolling_limit_window_slots
        || v.manager_rolling_limit == 0
          && v.external_withdraw_rolling_limit == 0
          && v.redemption_rolling_limit == 0)
      invalid_rolling_limit_config
