-- ===== src/Venues/Registry.antt =====
-- The registry of venues and a vault's approvals (register_venue.rs, set_venue_entry_paused.rs,
-- approve_vault_venue.rs and remove_vault_venue.rs under programs/async_vault_v2/src/instructions).
use solana_vault_v.Base.{
  ℕ, Bool, false, not, ◌-◌, ◌++◌, ◌&&◌, ok, ◌>>=◌, ◌>>◌, leb, ltb, ◌==◌, u64_max, checked_mul,
}
use solana_vault_v.Bytes.{Bytes, take, zeros}
use solana_vault_v.Error.{
  Outcome, require, exact, invalid_venue_discriminator_count, invalid_venue_recipient,
  timelock_required, invalid_vault, invalid_venue_entry, unauthorized_signer,
}
use solana_vault_v.State.{
  ⊤, Pubkey, default_pubkey, Bytes32, Vault, VenueType, VenueEntry, VaultVenue, require_keys_eq,
  assert_curator, assert_entry_active, assert_entry_authority, assert_venue_empty,
}

abbrev pub max_venue_discriminators : ℕ
max_venue_discriminators = 8

abbrev pub max_venue_discriminator_bytes : ℕ
max_venue_discriminator_bytes = 64

pub record RegisterVenueArgs : Type 0 where
  pub venue_id : Bytes32
  pub target_program : Pubkey
  pub allowed_discriminator_count : ℕ  -- u8
  pub allowed_discriminators : Bytes  -- [u8; 64]
  pub risk_class : ℕ  -- u8
  pub venue_type : VenueType
  pub routine_safe : Bool

-- The bytes after the active discriminators are zeros, whatever the caller wrote there.
unfoldable pub register_venue : Pubkey → ℕ → RegisterVenueArgs → Outcome VenueEntry
register_venue registry_authority bump args = do
  require
      (ltb 0 args.allowed_discriminator_count
        && leb args.allowed_discriminator_count max_venue_discriminators)
      invalid_venue_discriminator_count
  active_len ← exact (checked_mul u64_max args.allowed_discriminator_count 8)
  ok (record {
    registry_authority = registry_authority;
    venue_id = args.venue_id;
    target_program = args.target_program;
    allowed_discriminator_count = args.allowed_discriminator_count;
    allowed_discriminators =
        take active_len args.allowed_discriminators
        ++ zeros (max_venue_discriminator_bytes - active_len);
    risk_class = args.risk_class;
    venue_type = args.venue_type;
    routine_safe = args.routine_safe;
    paused = false;
    bump = bump;
  })

unfoldable pub set_venue_entry_paused : Pubkey → VenueEntry → Bool → Outcome VenueEntry
set_venue_entry_paused registry_authority entry paused = do
  require (entry.registry_authority == registry_authority) unauthorized_signer
  assert_entry_authority entry registry_authority
  ok (record entry { paused = paused })

unfoldable pub approve_vault_venue :
    Pubkey → Pubkey → Pubkey → Vault → VenueEntry → ℕ → ℕ → Pubkey → Outcome VaultVenue
approve_vault_venue authority vault_key venue_entry_key v entry slot bump recipient_authority = do
  assert_curator v authority
  require (not (recipient_authority == default_pubkey)) invalid_venue_recipient
  require (v.timelock_delay_slots == 0) timelock_required
  assert_entry_active entry
  ok (record {
    vault = vault_key;
    venue_entry = venue_entry_key;
    recipient_authority = recipient_authority;
    target_program = entry.target_program;
    routine_safe = entry.routine_safe;
    paused = false;
    position_count = 0;
    approved_at_slot = slot;
    bump = bump;
  })

-- The approval is closed.
unfoldable pub remove_vault_venue : Pubkey → Pubkey → Pubkey → Vault → VaultVenue → Outcome ⊤
remove_vault_venue authority vault_key venue_entry_key v vault_venue = do
  require_keys_eq vault_venue.vault vault_key invalid_vault
  require_keys_eq vault_venue.venue_entry venue_entry_key invalid_venue_entry
  assert_curator v authority
  require (v.timelock_delay_slots == 0) timelock_required
  assert_venue_empty vault_venue
