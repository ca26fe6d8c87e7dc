-- ===== src/Venues/Slots.antt =====
-- Opening and closing a position
-- (programs/async_vault_v2/src/instructions/create_venue_position.rs and remove_venue_position.rs).
use solana_vault_v.Base.{ℕ, Option, ok, ◌>>=◌, ◌>>◌, ◌==◌, u16_max, checked_add, checked_sub}
use solana_vault_v.Error.{Outcome, require, exact, timelock_required, position_balance_non_zero}
use solana_vault_v.State.{
  Vault, VaultAsset, VaultVenue, Position, assert_curator, assert_entry_active, assert_venue_active,
  assert_position_empty,
}
use solana_vault_v.Runtime.Token.{TokenProgram}
use solana_vault_v.Venues.Accounts.{
  VenueAccounts, VenueWorld, check_vault_venue, check_position, check_approved_asset,
}

-- The position and its empty token account are created by the call, with the bumps of their addresses.
unfoldable pub create_venue_position :
    VenueAccounts → Vault → Option VaultAsset → VaultVenue → ℕ → ℕ → Outcome (VaultVenue × Position)
create_venue_position accounts v vault_asset vault_venue bump token_account_bump = do
  check_vault_venue accounts vault_venue
  assert_curator v accounts.authority
  require (v.timelock_delay_slots == 0) timelock_required
  check_approved_asset accounts v vault_asset
  assert_entry_active accounts.venue_entry
  assert_venue_active vault_venue
  count ← exact (checked_add u16_max vault_venue.position_count 1)
  ok (
    record vault_venue { position_count = count },
    record {
      vault = accounts.vault_key;
      venue_entry = accounts.venue_entry_key;
      vault_venue = accounts.vault_venue_key;
      asset_mint = accounts.asset_mint;
      token_account = accounts.position_token_account;
      amount = 0;
      token_account_bump = token_account_bump;
      bump = bump;
    },
  )

-- The position and its token account, which holds nothing, are closed by the call.
unfoldable pub remove_venue_position :
    (T : TokenProgram) → VenueAccounts → VenueWorld T → Outcome VaultVenue
remove_venue_position T accounts w = do
  check_vault_venue accounts w.vault_venue
  check_position accounts w.position
  assert_curator w.vault accounts.authority
  require (w.vault.timelock_delay_slots == 0) timelock_required
  check_approved_asset accounts w.vault w.vault_asset
  assert_position_empty w.position
  require (T.balance w.tokens accounts.position_token_account == 0) position_balance_non_zero
  count ← exact (checked_sub w.vault_venue.position_count 1)
  ok (record (w.vault_venue) { position_count = count })
