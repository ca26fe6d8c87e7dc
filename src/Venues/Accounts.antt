-- ===== src/Venues/Accounts.antt =====
-- What the instructions on a position read and write, and the constraints that they share
-- (programs/async_vault_v2/src/instructions/*_venue_position.rs).
use solana_vault_v.Base.{Option, ok, ◌>>=◌, ◌>>◌, if◌then◌else◌}
use solana_vault_v.Error.{
  Outcome, or_fail, invalid_vault, invalid_venue_entry, invalid_asset_mint, invalid_position,
}
use solana_vault_v.State.{
  ⊤, Pubkey, Vault, VaultAsset, VenueEntry, VaultVenue, Position, require_keys_eq, is_primary_asset,
  assert_matches,
}
use solana_vault_v.Runtime.Token.{TokenProgram}

-- The accounts that a call names and does not write. Anchor checks the mints and owners of the token
-- accounts, the derived addresses, and that the authority signs.
pub record VenueAccounts : Type 0 where
  pub authority : Pubkey
  pub asset_mint : Pubkey
  pub vault_key : Pubkey
  pub venue_entry_key : Pubkey
  pub venue_entry : VenueEntry
  pub vault_venue_key : Pubkey
  pub vault_token_account : Pubkey
  pub position_token_account : Pubkey

-- Those that it writes.
pub record VenueWorld (T : TokenProgram) : Type 0 where
  pub vault : Vault
  pub vault_asset : Option VaultAsset
  pub vault_venue : VaultVenue
  pub position : Position
  pub tokens : T.Tokens

-- The constraints on the approval.
abbrev pub check_vault_venue : VenueAccounts → VaultVenue → Outcome ⊤
check_vault_venue accounts vault_venue = do
  require_keys_eq vault_venue.vault accounts.vault_key invalid_vault
  require_keys_eq vault_venue.venue_entry accounts.venue_entry_key invalid_venue_entry

-- The constraints on the position and its token account.
abbrev pub check_position : VenueAccounts → Position → Outcome ⊤
check_position accounts position = do
  require_keys_eq position.vault accounts.vault_key invalid_vault
  require_keys_eq position.venue_entry accounts.venue_entry_key invalid_venue_entry
  require_keys_eq position.vault_venue accounts.vault_venue_key invalid_venue_entry
  require_keys_eq position.asset_mint accounts.asset_mint invalid_asset_mint
  require_keys_eq position.token_account accounts.position_token_account invalid_position

-- A secondary asset is one that the vault has approved.
abbrev pub check_approved_asset : VenueAccounts → Vault → Option VaultAsset → Outcome ⊤
check_approved_asset accounts v vault_asset =
    if is_primary_asset v accounts.asset_mint then ok tt else (do
      asset ← or_fail vault_asset invalid_asset_mint
      assert_matches asset accounts.vault_key accounts.asset_mint)
