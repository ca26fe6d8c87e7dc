-- ===== src/Venues/Moves.antt =====
-- Deploying assets into a position and pulling them back
-- (programs/async_vault_v2/src/instructions/deploy_venue_position.rs and pull_venue_position.rs).
use solana_vault_v.Base.{
  ℕ, ◌&&◌, Option, some, ok, ◌>>=◌, ◌>>◌, leb, ◌==◌, if◌then◌else◌, u64_max, checked_add,
  checked_sub,
}
use solana_vault_v.Error.{
  Outcome, require, or_fail, exact, invalid_vault, invalid_asset_mint, insufficient_liquidity,
  insufficient_position_balance, invalid_balance_delta,
}
use solana_vault_v.State.{
  ⊤, Pubkey, Vault, VaultAsset, Position, require_keys_eq, is_primary_asset, assert_matches,
  assert_reserve, assert_unpaused_and_initialized, assert_manager_authorized, assert_entry_active,
  assert_venue_active,
}
use solana_vault_v.Limits.{consume_manager_rolling_limit, consume_asset_rolling_limit}
use solana_vault_v.Positions.{PositionLedger, deploy, pull}
use solana_vault_v.Runtime.{Clock}
use solana_vault_v.Runtime.Token.{TokenProgram}
use solana_vault_v.Requests.World.{transfer_checked}
use solana_vault_v.Venues.Accounts.{VenueAccounts, VenueWorld, check_vault_venue, check_position}

-- `PositionLedger::new`
abbrev pub ledger_of : Position → VaultAsset → PositionLedger
ledger_of position asset = record {
  position_amount = position.amount;
  idle_balance = asset.idle_balance;
  deployed_balance = asset.deployed_balance;
}

-- The asset after its ledger has moved.
abbrev pub write_ledger : VaultAsset → PositionLedger → VaultAsset
write_ledger asset ledger = record asset {
  idle_balance = ledger.idle_balance;
  deployed_balance = ledger.deployed_balance;
}

module _ (T : TokenProgram) (clock : Clock) (accounts : VenueAccounts) where
  open accounts use {
    authority, asset_mint, vault_key, venue_entry, vault_token_account, position_token_account,
  }

  -- The constraints, and the checks that both instructions start with.
  unfoldable pub check_move : VenueWorld T → Outcome ⊤
  check_move w = do
    check_vault_venue accounts w.vault_venue
    check_position accounts w.position
    assert_unpaused_and_initialized w.vault
    assert_manager_authorized w.vault_venue w.vault authority
    assert_entry_active venue_entry
    assert_venue_active w.vault_venue

  -- The primary asset lies in the vault's token account, and counts for the vault's own window.
  unfoldable pub count_primary : Vault → ℕ → Outcome Vault
  count_primary v amount = do
    require_keys_eq v.vault_token_account vault_token_account invalid_vault
    consume_manager_rolling_limit v amount clock.slot

  -- A secondary asset lies in its reserve and has a window of its own.
  unfoldable pub secondary_asset : Option VaultAsset → Outcome VaultAsset
  secondary_asset vault_asset = do
    asset ← or_fail vault_asset invalid_asset_mint
    assert_matches asset vault_key asset_mint
    assert_reserve asset vault_token_account
    ok asset

  unfoldable pub count_secondary : Vault → VaultAsset → ℕ → Outcome VaultAsset
  count_secondary v asset amount =
      consume_asset_rolling_limit asset amount clock.slot v.manager_rolling_limit
        v.rolling_limit_window_slots

  -- The transfer, after which both balances must have moved by exactly the amount.
  unfoldable pub exchange : Pubkey → Pubkey → ℕ → T.Tokens → Outcome T.Tokens
  exchange from to amount t = do
    t' ← transfer_checked T t from to amount
    expected_from ← exact (checked_sub (T.balance t from) amount)
    expected_to ← exact (checked_add u64_max (T.balance t to) amount)
    require (T.balance t' from == expected_from && T.balance t' to == expected_to)
        invalid_balance_delta
    ok t'

  unfoldable pub deploy_primary : ℕ → VenueWorld T → Outcome (VenueWorld T)
  deploy_primary amount w = do
    v ← count_primary w.vault amount
    t ← exchange vault_token_account position_token_account amount w.tokens
    deployed ← exact (checked_add u64_max w.position.amount amount)
    ok (record w { vault = v; position = record (w.position) { amount = deployed }; tokens = t })

  unfoldable pub deploy_secondary : ℕ → VenueWorld T → Outcome (VenueWorld T)
  deploy_secondary amount w = do
    asset ← secondary_asset w.vault_asset
    require (leb amount asset.idle_balance) insufficient_liquidity
    counted ← count_secondary w.vault asset amount
    ledger ← deploy (ledger_of w.position counted) amount
    t ← exchange vault_token_account position_token_account amount w.tokens
    ok (record w {
      vault_asset = some (write_ledger counted ledger);
      position = record (w.position) { amount = ledger.position_amount };
      tokens = t;
    })

  unfoldable pub deploy_venue_position : ℕ → VenueWorld T → Outcome (VenueWorld T)
  deploy_venue_position amount w = do
    check_move w
    if is_primary_asset w.vault asset_mint
        then deploy_primary amount w
        else deploy_secondary amount w

  unfoldable pub pull_primary : ℕ → VenueWorld T → Outcome (VenueWorld T)
  pull_primary amount w = do
    v ← count_primary w.vault amount
    t ← exchange position_token_account vault_token_account amount w.tokens
    left ← exact (checked_sub w.position.amount amount)
    ok (record w { vault = v; position = record (w.position) { amount = left }; tokens = t })

  unfoldable pub pull_secondary : ℕ → VenueWorld T → Outcome (VenueWorld T)
  pull_secondary amount w = do
    asset ← secondary_asset w.vault_asset
    require (leb amount asset.deployed_balance) insufficient_position_balance
    counted ← count_secondary w.vault asset amount
    ledger ← pull (ledger_of w.position counted) amount
    t ← exchange position_token_account vault_token_account amount w.tokens
    ok (record w {
      vault_asset = some (write_ledger counted ledger);
      position = record (w.position) { amount = ledger.position_amount };
      tokens = t;
    })

  unfoldable pub pull_venue_position : ℕ → VenueWorld T → Outcome (VenueWorld T)
  pull_venue_position amount w = do
    check_move w
    require (leb amount w.position.amount) insufficient_position_balance
    if is_primary_asset w.vault asset_mint then pull_primary amount w else pull_secondary amount w
