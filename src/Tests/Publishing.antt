-- ===== src/Tests/Publishing.antt =====
-- A NAV update, a waterfall after a loss, a performance fee, and changes of the configuration.
use solana_vault_v.Base.{
  ℕ, ◌+◌, ◌-◌, ◌*◌, ◌/◌, ◌^◌, ◌≤◌, ◌<◌, ◌≡◌, ◌≢◌, ◌⊎◌, none, some, [], true, ok, refl, arith,
  unwrap_or,
}
use solana_vault_v.Base.Int.{pos}
use solana_vault_v.State.{Vault, validate_config, assert_curator, assert_curator_or_fulfiller}
use solana_vault_v.Pricing.{assets_from_nav, nav_from_assets}
use solana_vault_v.Runtime.Token.{TokenProgram}
use solana_vault_v.Runtime.Tables.{table_program}
use solana_vault_v.Nav.{
  TrancheWaterfallState, TrancheMintSnapshot, TrancheWaterfallOutcome, min_ℕ, distribute_loss,
  compute_tranche_waterfall, calculate_performance_fee_shares, NavWorld, update_nav,
  validate_nav_update, validate_nav_delta, validate_implied_apy, maybe_crystallize_performance_fee,
  is_too_early, maybe_apply_tranche_waterfall, publish_nav,
}
use solana_vault_v.Nav.Conservation.{compute_tranche_waterfall-priority}
use solana_vault_v.Nav.Dilution.{calculate_performance_fee_shares-dilution}
use solana_vault_v.Nav.Effects.{update_nav-eq_ok}
use solana_vault_v.Governance.{
  UpdateVaultArgs, PendingVaultUpdate, queue_vault_update, execute_vault_update, update_vault,
  validate_queued_vault_update, validate_update_args_supported, has_timelocked_fields,
  apply_vault_update, updated, invite_new_authority, accept_authority_invitation,
}
use solana_vault_v.Governance.Delay.{
  execute_vault_update-queue_vault_update, update_vault-timelocked,
}
use solana_vault_v.Governance.Succession.{accept_authority_invitation-invite_new_authority}
use solana_vault_v.Tests.Data.{addresses, clock, vault, tokens}

abbrev T : TokenProgram
T = table_program

-- Each tranche has 1,000 units; the NAV falls to a quarter, so 500 units are left.
abbrev state : TrancheWaterfallState
state = record {
  senior_nav = 1_000_000;
  junior_nav = 1_000_000;
  senior_target_bps = 500;
  last_waterfall_timestamp = pos 1_600_000_000;
}

abbrev mint_snapshot : TrancheMintSnapshot
mint_snapshot = record { supply = 1_000; decimals = 6 }

abbrev after_loss : TrancheWaterfallOutcome
after_loss = record {
  updated_total_assets = 500;
  senior_assets = 500;
  junior_assets = 0;
  senior_nav = 500_000;
  junior_nav = 0;
}

waterfall_run :
    compute_tranche_waterfall state 250_000 (pos 1_700_000_000) mint_snapshot mint_snapshot
    ≡ ok after_loss
unfolding compute_tranche_waterfall assets_from_nav nav_from_assets distribute_loss
waterfall_run = refl

compute_tranche_waterfall-priority_example :
    (500 ≡ 1_000 * 250_000 / 10 ^ 6 + 1_000 * 250_000 / 10 ^ 6)
    × (500 + 0 ≡ 1_000 * 250_000 / 10 ^ 6 + 1_000 * 250_000 / 10 ^ 6)
    × (((1_000 + 1_000 ≤ 500) × (1_000 ≤ 500) × (1_000 ≤ 0))
        ⊎ ((500 < 1_000 + 1_000) × (500 ≡ min_ℕ 1_000 500)))
compute_tranche_waterfall-priority_example =
    compute_tranche_waterfall-priority state 250_000 (pos 1_700_000_000) mint_snapshot mint_snapshot
      waterfall_run

nav_run : nav_from_assets 1_000 3 6 ≡ ok 333_333_333
unfolding nav_from_assets
nav_run = refl

nav_valued_run : assets_from_nav 3 333_333_333 6 ≡ ok 999
unfolding assets_from_nav
nav_valued_run = refl

-- 20 percent of a gain from 1 to 2 on 5,000 shares: 1,000 units, or 555 shares.
fee_shares_run : calculate_performance_fee_shares 2_000_000 1_000_000 2_000 5_000 6 ≡ ok 555
unfolding calculate_performance_fee_shares
fee_shares_run = refl

calculate_performance_fee_shares-dilution_example :
    let total_assets = 5_000 * 2_000_000 / 10 ^ 6 in
    let profit = 5_000 * (2_000_000 - 1_000_000) / 10 ^ 6 in
    555 * total_assets * 10_000 ≤ profit * 2_000 * (5_000 + 555)
calculate_performance_fee_shares-dilution_example =
    calculate_performance_fee_shares-dilution 2_000_000 1_000_000 2_000 5_000 6 fee_shares_run

abbrev before : NavWorld T
before = record { vault = vault; tokens = tokens; remaining = [] }

abbrev published : NavWorld T
published = record before {
  vault = record vault {
    nav = 2_100_000;
    nav_version = 8;
    last_nav_update_slot = 5_000;
    last_nav_update_timestamp = pos 1_700_000_000;
    high_water_mark = 2_100_000;
    last_fee_crystallization_timestamp = pos 1_700_000_000;
  };
}

update_run : update_nav addresses T clock 5 9 2_100_000 before ≡ ok published
unfolding update_nav assert_curator_or_fulfiller validate_nav_update validate_nav_delta
    validate_implied_apy maybe_crystallize_performance_fee is_too_early
    maybe_apply_tranche_waterfall publish_nav
update_run = refl

update_nav-eq_ok_example :
    (published.vault.nav ≡ 2_100_000)
    × (published.vault.nav_version ≡ 7 + 1)
    × (published.vault.last_nav_update_slot ≡ 5_000)
    × ((published.vault.high_water_mark ≡ vault.high_water_mark)
        ⊎ ((vault.high_water_mark < 2_100_000) × (published.vault.high_water_mark ≡ 2_100_000)))
update_nav-eq_ok_example = update_nav-eq_ok addresses T clock 5 9 2_100_000 before update_run

delta_run : validate_nav_delta vault 2_100_000 ≡ ok tt
unfolding validate_nav_delta
delta_run = refl

abbrev nothing : UpdateVaultArgs
nothing = record {
  paused = none;
  fee_recipient = none;
  manager = none;
  hot_manager = none;
  fulfiller = none;
  breaker = none;
  nav_mode = none;
  require_fresh_nav = none;
  max_nav_delta_bps = none;
  max_implied_apy_bps = none;
  max_nav_staleness_slots = none;
  deposit_cap = none;
  rolling_limit_window_slots = none;
  manager_rolling_limit = none;
  external_withdraw_rolling_limit = none;
  redemption_rolling_limit = none;
  timelock_delay_slots = none;
  performance_fee_bps = none;
  performance_fee_crystallization_interval_seconds = none;
  protocol_fee_bps = none;
  protocol_fee_recipient = none;
  instant_redemption_fee_bps = none;
}

-- A new manager, queued at slot 100 and executed at slot 150.
abbrev new_manager : UpdateVaultArgs
new_manager = record nothing { manager = some 77 }

abbrev waiting : PendingVaultUpdate
waiting = record {
  vault = 9;
  queued_by = 5;
  created_slot = 100;
  eta_slot = 150;
  args = new_manager;
}

queue_run : queue_vault_update 5 9 100 vault new_manager ≡ ok waiting
unfolding queue_vault_update assert_curator validate_queued_vault_update
    validate_update_args_supported has_timelocked_fields
queue_run = refl

execute_run : execute_vault_update 9 150 vault waiting ≡ ok (record vault { manager = 77 })
unfolding execute_vault_update validate_queued_vault_update validate_update_args_supported
    has_timelocked_fields apply_vault_update updated validate_config
execute_run = refl

execute_vault_update-queue_vault_update_example :
    (100 + 50 ≤ 150)
    × (0 < 50)
    × (vault.curator ≡ vault.curator)
    × (◌≡◌ {A = ℕ} 9 9)
    × (record vault { manager = 77 }
        ≡ record vault { manager = unwrap_or new_manager.manager vault.manager })
    × (validate_config (record vault { manager = 77 }) ≡ ok tt)
execute_vault_update-queue_vault_update_example =
    execute_vault_update-queue_vault_update 5 9 9 100 150 vault vault new_manager queue_run
      execute_run

abbrev pausing : UpdateVaultArgs
pausing = record nothing { paused = some true }

pause_run : update_vault 5 vault pausing ≡ ok (record vault { paused = true })
unfolding update_vault assert_curator has_timelocked_fields apply_vault_update updated
    validate_config
pause_run = refl

update_vault-timelocked_example :
    record vault { paused = true } ≡ record vault { paused = true; breaker = vault.breaker }
update_vault-timelocked_example = update_vault-timelocked 5 vault pausing pause_run (omega arith)

abbrev invited : Vault
invited = record vault { pending_authority = some 88 }

invite_run : invite_new_authority 5 88 vault ≡ ok invited
unfolding invite_new_authority assert_curator
invite_run = refl

abbrev succeeded : Vault
succeeded = record vault {
  authority = 88;
  curator = 88;
  manager = 88;
  hot_manager = 88;
  fulfiller = 88;
  breaker = 88;
}

accept_run : accept_authority_invitation 88 invited ≡ ok succeeded
unfolding accept_authority_invitation
accept_run = refl

accept_authority_invitation-invite_new_authority_example :
    (succeeded.authority ≡ 88)
    × (succeeded.authority ≡ 88)
    × (succeeded.curator ≡ 88)
    × (succeeded.manager ≢ 5)
    × (succeeded.hot_manager ≢ 5)
    × (succeeded.fulfiller ≢ 5)
    × (succeeded.breaker ≢ 5)
    × (succeeded.pending_authority ≡ none)
accept_authority_invitation-invite_new_authority_example =
    accept_authority_invitation-invite_new_authority 5 88 88 vault invite_run accept_run
      (omega arith)
