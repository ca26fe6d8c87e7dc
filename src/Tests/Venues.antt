-- ===== src/Tests/Venues.antt =====
-- A venue that is registered and approved, and a position that is opened under it and filled; and
-- withdrawals to a recipient.
use solana_vault_v.Base.{
  ℕ, ◌+◌, ◌*◌, ◌≤◌, ◌<◌, ◌≡◌, ◌↔◌, true, false, none, some, List, [], ◌∷◌, ◌++◌, ok, refl, arith,
  ◌==◌, if◌then◌else◌, is_ok,
}
use solana_vault_v.Bytes.{Bytes, slice, zeros}
use solana_vault_v.State.{
  Vault, VaultAsset, VenueEntry, VaultVenue, Position, external_protocol, assert_curator,
  assert_entry_active, assert_venue_active, assert_unpaused_and_initialized,
  assert_manager_authorized, assert_matches, assert_reserve,
}
use solana_vault_v.Extensions.{assert_externally_managed_withdrawals_enabled}
use solana_vault_v.Limits.{
  consume_asset_rolling_limit, consume_rolling_limit, consume_external_withdraw_rolling_limit,
}
use solana_vault_v.Positions.{deploy}
use solana_vault_v.Runtime.Tables.{Tables}
use solana_vault_v.Strategy.Manage.{assert_instruction_allowed}
use solana_vault_v.Venues.Registry.{RegisterVenueArgs, register_venue, approve_vault_venue}
use solana_vault_v.Venues.Accounts.{VenueAccounts, VenueWorld}
use solana_vault_v.Venues.Moves.{
  check_move, secondary_asset, count_secondary, exchange, deploy_secondary, deploy_venue_position,
}
use solana_vault_v.Venues.Slots.{create_venue_position}
use solana_vault_v.Venues.Portfolio.{Portfolio, put, IsAccounted, venue_world, moved_to}
use solana_vault_v.Venues.Backing as Backing
use solana_vault_v.Venues.Backing.{Steps, Steps-IsAccounted}
use solana_vault_v.Venues.Permissions.{assert_instruction_allowed-register_venue}
use solana_vault_v.Venues.Withdraw.{WithdrawAccounts, WithdrawWorld, withdraw_assets}
use solana_vault_v.Venues.WithdrawLimit.{
  WithdrawCall, call_withdraw, withdrawn, after_calls, withdrawn-le_twice,
}
use solana_vault_v.Tests.Data.{addresses, clock, vault, extensions, value_or}
use solana_vault_v.Tests.Requests.{T}

abbrev discriminator : Bytes
discriminator = 1 ∷ 2 ∷ 3 ∷ 4 ∷ 5 ∷ 6 ∷ 7 ∷ 8 ∷ []

-- One discriminator, with other bytes behind it.
abbrev args : RegisterVenueArgs
args = record {
  venue_id = 21;
  target_program = 700;
  allowed_discriminator_count = 1;
  allowed_discriminators = discriminator ++ (9 ∷ zeros 55);
  risk_class = 0;
  venue_type = external_protocol;
  routine_safe = false;
}

abbrev entry : VenueEntry
entry = record {
  registry_authority = 20;
  venue_id = 21;
  target_program = 700;
  allowed_discriminator_count = 1;
  allowed_discriminators = discriminator ++ zeros 56;
  risk_class = 0;
  venue_type = external_protocol;
  routine_safe = false;
  paused = false;
  bump = 0;
}

register_run : register_venue 20 0 args ≡ ok entry
unfolding register_venue
register_run = refl

assert_instruction_allowed-register_venue_example :
    (is_ok (assert_instruction_allowed entry (discriminator ++ (7 ∷ []))) ≡ true) ↔ (
      (8 ≤ 9) × ((i : ℕ) × (i < 1) × (slice (8 * i) 8 args.allowed_discriminators ≡ discriminator)))
assert_instruction_allowed-register_venue_example =
    assert_instruction_allowed-register_venue 20 0 args (discriminator ++ (7 ∷ [])) refl
      register_run

-- The vault without a timelock, and a secondary asset of which 90 units are idle.
abbrev open_vault : Vault
open_vault = record vault { timelock_delay_slots = 0 }

abbrev asset : VaultAsset
asset = record {
  vault = 9;
  asset_mint = 30;
  reserve = 31;
  pending_vault = 32;
  idle_balance = 90;
  deployed_balance = 0;
  pending_deposit_amount = 0;
  deposit_cap = 0;
  manager_window_start_slot = 0;
  manager_window_amount = 0;
  reserve_bump = 0;
  pending_vault_bump = 0;
  bump = 0;
}

abbrev tokens : Tables
tokens = record { held = λ k. if k == 31 then 90 else if k == 3 then 5_000 else 0; issued = λ _. 0 }

abbrev start : Portfolio T
start = record {
  vault = open_vault;
  assets = put 30 (some asset) (λ _. none);
  venues = λ _. none;
  positions = [];
  tokens = tokens;
}

start-IsAccounted : IsAccounted T start
unfolding IsAccounted
start-IsAccounted = (λ mint. ground arith, λ k. refl, tt)

abbrev venue : VaultVenue
venue = record {
  vault = 9;
  venue_entry = 22;
  recipient_authority = 23;
  target_program = 700;
  routine_safe = false;
  paused = false;
  position_count = 0;
  approved_at_slot = 10;
  bump = 0;
}

approve_run : approve_vault_venue 5 9 22 open_vault entry 10 0 23 ≡ ok venue
unfolding approve_vault_venue assert_curator assert_entry_active
approve_run = refl

abbrev approved : Portfolio T
approved = record start { venues = put 24 (some venue) start.venues }

abbrev venue_accounts : VenueAccounts
venue_accounts = record {
  authority = 5;
  asset_mint = 30;
  vault_key = 9;
  venue_entry_key = 22;
  venue_entry = entry;
  vault_venue_key = 24;
  vault_token_account = 31;
  position_token_account = 41;
}

abbrev used_venue : VaultVenue
used_venue = record venue { position_count = 1 }

abbrev position : Position
position = record {
  vault = 9;
  venue_entry = 22;
  vault_venue = 24;
  asset_mint = 30;
  token_account = 41;
  amount = 0;
  token_account_bump = 0;
  bump = 0;
}

create_run :
    create_venue_position venue_accounts open_vault (some asset) venue 0 0
    ≡ ok (used_venue, position)
unfolding create_venue_position assert_curator assert_entry_active assert_venue_active
    assert_matches
create_run = refl

abbrev created : Portfolio T
created = record approved {
  venues = put 24 (some used_venue) approved.venues;
  positions = position ∷ [];
}

abbrev before : VenueWorld T
before = venue_world T venue_accounts created used_venue position

-- Forty of the ninety units are deployed.
abbrev filled : VenueWorld T
filled = value_or before (deploy_venue_position T clock venue_accounts 40 before)

deploy_run : deploy_venue_position T clock venue_accounts 40 before ≡ ok filled
unfolding deploy_venue_position check_move deploy_secondary secondary_asset count_secondary exchange
    deploy assert_unpaused_and_initialized assert_manager_authorized assert_entry_active
    assert_venue_active assert_matches assert_reserve consume_asset_rolling_limit
    consume_rolling_limit
deploy_run = refl

abbrev deployed : Portfolio T
deployed = moved_to T venue_accounts created [] [] filled

run : Steps addresses T start deployed
run =
    Backing.then_step
      (Backing.then_step
        (Backing.then_step Backing.done
          (Backing.approve 5 9 22 24 23 entry 10 0 venue refl approve_run))
        (Backing.create venue_accounts 0 0 venue used_venue position refl create_run))
      (Backing.deploy clock venue_accounts 40 used_venue position filled [] [] refl refl tt
        deploy_run)

Steps-IsAccounted_example : IsAccounted T deployed
Steps-IsAccounted_example = Steps-IsAccounted addresses T run start-IsAccounted

-- A vault that lets 100 units out in a window of 100 slots.
abbrev withdraw_world : WithdrawWorld T
withdraw_world = record {
  vault = record open_vault { external_withdraw_rolling_limit = 100 };
  extensions = record extensions { externally_managed_withdrawals = some 1 };
  tokens = tokens;
}

abbrev withdraw_accounts : WithdrawAccounts
withdraw_accounts = record {
  authority = 5;
  asset_mint = 1;
  vault_key = 9;
  venue_entry_key = 22;
  venue_entry = entry;
  vault_venue = venue;
  vault_token_account = 3;
  recipient_token_account = 50;
  recipient_owner = 23;
}

-- The second call is over the limit and fails.
abbrev calls : List WithdrawCall
calls =
    record { clock = clock; accounts = withdraw_accounts; amount = 70 }
    ∷ record { clock = record clock { slot = 5_010 }; accounts = withdraw_accounts; amount = 60 }
    ∷ []

withdraw_run : withdrawn T calls withdraw_world ≡ 70
unfolding call_withdraw withdraw_assets assert_unpaused_and_initialized assert_entry_active
    assert_venue_active assert_externally_managed_withdrawals_enabled
    consume_external_withdraw_rolling_limit consume_rolling_limit
withdraw_run = refl

withdrawn-le_twice_example :
    (withdrawn T calls withdraw_world + 0 ≤ 2 * 100)
    × (5_000 + 0 ≤ T.balance (after_calls T calls withdraw_world).tokens 3 + 2 * 100)
withdrawn-le_twice_example =
    withdrawn-le_twice T 5_000 calls withdraw_world 3 (omega arith) (omega arith)
      (omega arith, omega arith, (omega arith, omega arith, tt))
