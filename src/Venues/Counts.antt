-- ===== src/Venues/Counts.antt =====
-- What the calls on assets, approvals and empty positions do to the counts.
use solana_vault_v.Base.{ℕ, ◌+◌, ◌≡◌, Option, ok, arith}
use solana_vault_v.State.{
  Pubkey, Vault, VaultAsset, VenueEntry, VaultVenue, Position, assert_venue_empty,
  assert_position_empty,
}
use solana_vault_v.Runtime.{Addresses}
use solana_vault_v.Runtime.Token.{TokenProgram}
use solana_vault_v.Setup.Assets.{AssetAccounts, add_vault_asset, remove_vault_asset}
use solana_vault_v.Venues.Registry.{approve_vault_venue, remove_vault_venue}
use solana_vault_v.Venues.Accounts.{VenueAccounts, VenueWorld}
use solana_vault_v.Venues.Slots.{create_venue_position, remove_venue_position}

module _ (addresses : Addresses) (T : TokenProgram) where
  pub add_vault_asset-eq_ok :
      (accounts : AssetAccounts) (deposit_cap : ℕ) (v : Vault) {v' : Vault} {asset : VaultAsset}
      → add_vault_asset addresses accounts deposit_cap v ≡ ok (v', asset)
      → (asset.deployed_balance ≡ 0) × (v'.asset_mint ≡ v.asset_mint)
  unfolding add_vault_asset
  add_vault_asset-eq_ok accounts deposit_cap v h = (ground arith, ground arith)

  pub remove_vault_asset-eq_ok :
      (accounts : AssetAccounts) (v : Vault) (asset : VaultAsset) (t : T.Tokens) {v' : Vault}
      → remove_vault_asset T accounts v asset t ≡ ok v'
      → (asset.deployed_balance ≡ 0) × (v'.asset_mint ≡ v.asset_mint)
  unfolding remove_vault_asset
  remove_vault_asset-eq_ok accounts v asset t h = (ground arith, ground arith)

  pub approve_vault_venue-eq_ok :
      (authority vault_key venue_entry_key : Pubkey) (v : Vault) (entry : VenueEntry)
      (slot bump : ℕ) (recipient : Pubkey) {venue : VaultVenue}
      → approve_vault_venue authority vault_key venue_entry_key v entry slot bump recipient
        ≡ ok venue
      → venue.position_count ≡ 0
  unfolding approve_vault_venue
  approve_vault_venue-eq_ok authority vault_key venue_entry_key v entry slot bump recipient h =
      ground arith

  pub remove_vault_venue-eq_ok :
      (authority vault_key venue_entry_key : Pubkey) (v : Vault) (venue : VaultVenue)
      → remove_vault_venue authority vault_key venue_entry_key v venue ≡ ok tt
      → venue.position_count ≡ 0
  unfolding remove_vault_venue assert_venue_empty
  remove_vault_venue-eq_ok authority vault_key venue_entry_key v venue h = ground arith

  pub create_venue_position-eq_ok :
      (accounts : VenueAccounts) (v : Vault) (asset : Option VaultAsset) (venue : VaultVenue)
      (bump token_account_bump : ℕ) {venue' : VaultVenue} {p : Position}
      → create_venue_position accounts v asset venue bump token_account_bump ≡ ok (venue', p)
      → (venue'.position_count ≡ venue.position_count + 1)
        × (p.amount ≡ 0)
        × (p.vault_venue ≡ accounts.vault_venue_key)
  unfolding create_venue_position
  create_venue_position-eq_ok accounts v asset venue bump token_account_bump h =
      (ground arith, ground arith, ground arith)

  pub remove_venue_position-eq_ok :
      (accounts : VenueAccounts) (w : VenueWorld T) {venue : VaultVenue}
      → remove_venue_position T accounts w ≡ ok venue
      → (venue.position_count + 1 ≡ w.vault_venue.position_count)
        × (w.position.amount ≡ 0)
        × (w.position.vault_venue ≡ accounts.vault_venue_key)
  unfolding remove_venue_position assert_position_empty
  remove_venue_position-eq_ok accounts w h = (ground arith, ground arith, ground arith)
