-- ===== src/State/Checks.antt =====
-- The guards of `Vault`, `VaultAsset`, `VenueEntry`, `VaultVenue`, `StrategyPolicy` and `Position`
-- (programs/async_vault_v2/src/state/async_vault_v2.rs).
use solana_vault_v.Base.{
  ℕ, Bool, not, ◌&&◌, ◌||◌, ok, ◌>>=◌, ◌>>◌, leb, ltb, ◌==◌, if◌then◌else◌, u64_max, checked_add,
  checked_sub,
}
use solana_vault_v.Error.{
  AsyncVaultError, Outcome, require, exact, uninitialized_vault, paused_vault,
  vault_already_initialized, unauthorized_signer, stale_nav, deposit_cap_exceeded, invalid_vault,
  invalid_asset_mint, invalid_pending_vault, venue_paused, venue_position_non_zero,
  invalid_strategy_policy, strategy_policy_paused, empty_merkle_root, reentrant_strategy_call,
  position_balance_non_zero,
}
use solana_vault_v.State.Accounts.{
  Pubkey, Vault, VaultAsset, VenueEntry, VaultVenue, StrategyPolicy, Position,
}

abbrev pub ⊤ : Type 0
⊤ = Unit {0}

-- `require_keys_eq!`
abbrev pub require_keys_eq : Pubkey → Pubkey → AsyncVaultError → Outcome ⊤
require_keys_eq a b e = require (a == b) e

abbrev pub is_primary_asset : Vault → Pubkey → Bool
is_primary_asset v asset_mint = v.asset_mint == asset_mint

unfoldable pub assert_unpaused_and_initialized : Vault → Outcome ⊤
assert_unpaused_and_initialized v = do
  require v.initialized uninitialized_vault
  require (not v.paused) paused_vault

unfoldable pub assert_uninitialized : Vault → Outcome ⊤
assert_uninitialized v = require (not v.initialized) vault_already_initialized

unfoldable pub assert_curator : Vault → Pubkey → Outcome ⊤
assert_curator v signer = require_keys_eq signer v.curator unauthorized_signer

unfoldable pub assert_curator_or_fulfiller : Vault → Pubkey → Outcome ⊤
assert_curator_or_fulfiller v signer =
    require (signer == v.curator || signer == v.fulfiller) unauthorized_signer

unfoldable pub assert_breaker : Vault → Pubkey → Outcome ⊤
assert_breaker v signer = require_keys_eq signer v.breaker unauthorized_signer

unfoldable pub assert_fresh_nav_for_request : Vault → ℕ → Outcome ⊤
assert_fresh_nav_for_request v request_nav_version =
    if v.require_fresh_nav then require (ltb request_nav_version v.nav_version) stale_nav else ok tt

unfoldable pub assert_nav_not_stale : Vault → ℕ → Outcome ⊤
assert_nav_not_stale v current_slot = if v.max_nav_staleness_slots == 0 then ok tt else (do
  elapsed_slots ← exact (checked_sub current_slot v.last_nav_update_slot)
  require (leb elapsed_slots v.max_nav_staleness_slots) stale_nav)

-- The two `assert_deposit_cap_allows` differ in the balance that they count: a cap of zero is no cap.
abbrev pub cap_allows : ℕ → ℕ → ℕ → ℕ → Outcome ⊤
cap_allows deposit_cap balance pending_deposit_amount additional_amount =
    if deposit_cap == 0 then ok tt else (do
      reserved ← exact (checked_add u64_max balance pending_deposit_amount)
      reserved_total ← exact (checked_add u64_max reserved additional_amount)
      require (leb reserved_total deposit_cap) deposit_cap_exceeded)

-- `Vault::assert_deposit_cap_allows`
unfoldable pub assert_deposit_cap_allows : Vault → ℕ → Outcome ⊤
assert_deposit_cap_allows v additional_amount =
    cap_allows v.deposit_cap v.total_asset_balance v.pending_deposit_amount additional_amount

-- `VaultAsset::assert_deposit_cap_allows`
unfoldable pub assert_asset_deposit_cap_allows : VaultAsset → ℕ → Outcome ⊤
assert_asset_deposit_cap_allows a additional_amount =
    cap_allows a.deposit_cap a.idle_balance a.pending_deposit_amount additional_amount

unfoldable pub assert_matches : VaultAsset → Pubkey → Pubkey → Outcome ⊤
assert_matches a vault asset_mint = do
  require_keys_eq a.vault vault invalid_vault
  require_keys_eq a.asset_mint asset_mint invalid_asset_mint

unfoldable pub assert_pending_vault : VaultAsset → Pubkey → Outcome ⊤
assert_pending_vault a pending_vault =
    require_keys_eq a.pending_vault pending_vault invalid_pending_vault

unfoldable pub assert_reserve : VaultAsset → Pubkey → Outcome ⊤
assert_reserve a reserve = require_keys_eq a.reserve reserve invalid_vault

-- `VenueEntry::assert_active`
unfoldable pub assert_entry_active : VenueEntry → Outcome ⊤
assert_entry_active e = require (not e.paused) venue_paused

-- `VenueEntry::assert_authority`
unfoldable pub assert_entry_authority : VenueEntry → Pubkey → Outcome ⊤
assert_entry_authority e signer = require_keys_eq signer e.registry_authority unauthorized_signer

-- `VaultVenue::assert_active`
unfoldable pub assert_venue_active : VaultVenue → Outcome ⊤
assert_venue_active a = require (not a.paused) venue_paused

unfoldable pub assert_manager_authorized : VaultVenue → Vault → Pubkey → Outcome ⊤
assert_manager_authorized a v signer =
    require (signer == v.manager || signer == v.hot_manager && a.routine_safe) unauthorized_signer

-- `VaultVenue::assert_empty`
unfoldable pub assert_venue_empty : VaultVenue → Outcome ⊤
assert_venue_empty a = require (a.position_count == 0) venue_position_non_zero

-- `StrategyPolicy::assert_bound`
unfoldable pub assert_bound : StrategyPolicy → Pubkey → Pubkey → Outcome ⊤
assert_bound p vault strategist = do
  require_keys_eq p.vault vault invalid_vault
  require_keys_eq p.strategist strategist invalid_strategy_policy

unfoldable pub assert_not_executing : StrategyPolicy → Outcome ⊤
assert_not_executing p = require (not p.executing) reentrant_strategy_call

-- `StrategyPolicy::assert_active`
unfoldable pub assert_policy_active : StrategyPolicy → Outcome ⊤
unfolding assert_not_executing
assert_policy_active p = do
  require (not p.paused) strategy_policy_paused
  require (not (p.merkle_root == 0)) empty_merkle_root
  assert_not_executing p

-- `Position::assert_empty`
unfoldable pub assert_position_empty : Position → Outcome ⊤
assert_position_empty p = require (p.amount == 0) position_balance_non_zero
