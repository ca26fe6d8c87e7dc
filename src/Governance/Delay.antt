-- ===== src/Governance/Delay.antt =====
-- What the timelock promises to the users of a vault.
use solana_vault_v.Base.{
  ℕ, ◌+◌, ◌≤◌, ◌<◌, ◌≡◌, ◌&&◌, not, none, ok, is_some, unwrap_or, arith, >>=-eq-ok,
}
use solana_vault_v.Error.{require, invalid_timelock_change}
use solana_vault_v.State.{Pubkey, Vault, validate_config, assert_curator}
use solana_vault_v.Governance.Config.{
  UpdateVaultArgs, validate_queued_vault_update, update_vault, apply_vault_update, updated,
  has_timelocked_fields, has_pause_change,
}
use solana_vault_v.Governance.Timelock.{
  PendingVaultUpdate, queue_vault_update, execute_vault_update,
}

-- A change that can be queued names neither the pause nor the breaker.
validate_queued_vault_update-eq_ok :
    (v : Vault) (args : UpdateVaultArgs)
    → validate_queued_vault_update v args ≡ ok tt
    → (args.paused ≡ none) × (args.breaker ≡ none)
unfolding validate_queued_vault_update
validate_queued_vault_update-eq_ok v args h =
    let (_, no_pause, h1) =
      >>=-eq-ok
        (require (has_timelocked_fields args && not (has_pause_change args))
          invalid_timelock_change)
        _ h in
    let (_, no_breaker, _) =
      >>=-eq-ok (require (not (is_some args.breaker)) invalid_timelock_change) _ h1 in
    (ground arith, ground arith)

apply_vault_update-eq_ok :
    (v : Vault) (args : UpdateVaultArgs) {v' : Vault}
    → apply_vault_update v args ≡ ok v'
    → (v' ≡ updated v args) × (validate_config v' ≡ ok tt)
unfolding apply_vault_update
apply_vault_update-eq_ok v args h = (ground arith, ground arith)

-- What the execution of a queued change has met before it applies the change.
execute_vault_update-applied :
    (authority key later_key : Pubkey) (queued executed : ℕ) (v later : Vault)
    (args : UpdateVaultArgs) {p : PendingVaultUpdate} {v' : Vault}
    → queue_vault_update authority key queued v args ≡ ok p
    → execute_vault_update later_key executed later p ≡ ok v'
    → (queued + v.timelock_delay_slots ≤ executed)
      × (0 < v.timelock_delay_slots)
      × (later.curator ≡ v.curator)
      × (later_key ≡ key)
      × (validate_queued_vault_update later args ≡ ok tt)
      × (apply_vault_update later args ≡ ok v')
unfolding queue_vault_update execute_vault_update assert_curator
execute_vault_update-applied authority key later_key queued executed v later args h k = ground arith

-- A change that was queued for a vault at one slot and is executed at another: it has waited for
-- the whole delay, above zero, that the vault had when it was queued; the vault's address and
-- curator are the same as then; of the twenty fields that can be queued exactly those that were
-- given take the value given and the others keep theirs, as does all else of the vault, its pause
-- and its breaker included; and the configuration that results is valid.
pub execute_vault_update-queue_vault_update :
    (authority key later_key : Pubkey) (queued executed : ℕ) (v later : Vault)
    (args : UpdateVaultArgs) {p : PendingVaultUpdate} {v' : Vault}
    → queue_vault_update authority key queued v args ≡ ok p
    → execute_vault_update later_key executed later p ≡ ok v'
    → (queued + v.timelock_delay_slots ≤ executed)
      × (0 < v.timelock_delay_slots)
      × (later.curator ≡ v.curator)
      × (later_key ≡ key)
      × (v' ≡ record later {
        fee_recipient = unwrap_or args.fee_recipient later.fee_recipient;
        manager = unwrap_or args.manager later.manager;
        hot_manager = unwrap_or args.hot_manager later.hot_manager;
        fulfiller = unwrap_or args.fulfiller later.fulfiller;
        nav_mode = unwrap_or args.nav_mode later.nav_mode;
        require_fresh_nav = unwrap_or args.require_fresh_nav later.require_fresh_nav;
        max_nav_delta_bps = unwrap_or args.max_nav_delta_bps later.max_nav_delta_bps;
        max_implied_apy_bps = unwrap_or args.max_implied_apy_bps later.max_implied_apy_bps;
        max_nav_staleness_slots =
            unwrap_or args.max_nav_staleness_slots later.max_nav_staleness_slots;
        deposit_cap = unwrap_or args.deposit_cap later.deposit_cap;
        rolling_limit_window_slots =
            unwrap_or args.rolling_limit_window_slots later.rolling_limit_window_slots;
        manager_rolling_limit = unwrap_or args.manager_rolling_limit later.manager_rolling_limit;
        external_withdraw_rolling_limit =
            unwrap_or args.external_withdraw_rolling_limit later.external_withdraw_rolling_limit;
        redemption_rolling_limit =
            unwrap_or args.redemption_rolling_limit later.redemption_rolling_limit;
        timelock_delay_slots = unwrap_or args.timelock_delay_slots later.timelock_delay_slots;
        performance_fee_bps = unwrap_or args.performance_fee_bps later.performance_fee_bps;
        performance_fee_crystallization_interval_seconds =
            unwrap_or args.performance_fee_crystallization_interval_seconds
              later.performance_fee_crystallization_interval_seconds;
        protocol_fee_bps = unwrap_or args.protocol_fee_bps later.protocol_fee_bps;
        protocol_fee_recipient = unwrap_or args.protocol_fee_recipient later.protocol_fee_recipient;
        instant_redemption_fee_bps =
            unwrap_or args.instant_redemption_fee_bps later.instant_redemption_fee_bps;
      })
      × (validate_config v' ≡ ok tt)
unfolding updated
execute_vault_update-queue_vault_update authority key later_key queued executed v later args {p}
      {v'} h k =
    let (waited, delay, curator, same_key, valid, result) =
      execute_vault_update-applied authority key later_key queued executed v later args h k in
    let (not_paused, no_breaker) = validate_queued_vault_update-eq_ok later args valid in
    let (applied, checked) = apply_vault_update-eq_ok later args result in
    (waited, delay, curator, same_key, rw (not_paused, no_breaker) at applied, checked)

-- While a timelock is set, an immediate update changes nothing but the pause and the breaker.
pub update_vault-timelocked :
    (authority : Pubkey) (v : Vault) (args : UpdateVaultArgs) {v' : Vault}
    → update_vault authority v args ≡ ok v'
    → 0 < v.timelock_delay_slots
    → v' ≡ record v {
      paused = unwrap_or args.paused v.paused;
      breaker = unwrap_or args.breaker v.breaker;
    }
unfolding update_vault apply_vault_update updated has_timelocked_fields
update_vault-timelocked authority v args h d = ground arith
