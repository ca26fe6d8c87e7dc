-- ===== src/State/Accounts.antt =====
-- The program's accounts (programs/async_vault_v2/src/state/async_vault_v2.rs, state/request.rs).
-- Unsigned fields are native numbers with their machine type beside them.
use solana_vault_v.Base.{ℕ, Bool, Option, List}
use solana_vault_v.Base.Int.{ℤ}

-- A public key, compared only for equality; `Pubkey::default()` is 0.
abbrev pub Pubkey : Type 0
Pubkey = ℕ

abbrev pub default_pubkey : Pubkey
default_pubkey = 0

-- `[u8; 32]`, read as a number of 256 bits: compared, and ordered as the bytes are.
abbrev pub Bytes32 : Type 0
Bytes32 = ℕ

pub data NavMode : Type 0 where
  authority_signed oracle hybrid : NavMode

pub data VenueType : Type 0 where
  external_protocol vault_v2 : VenueType

pub data RequestState : Type 0 where
  pending claimable canceled : RequestState

pub data RequestType : Type 0 where
  deposit redeem : RequestType

pub record ProtocolFeeConfig : Type 0 where
  pub authority : Pubkey
  pub protocol_fee_recipient : Pubkey
  pub bump : ℕ  -- u8

pub record Vault : Type 0 where
  pub asset_mint : Pubkey
  pub approved_asset_count : ℕ  -- u8
  pub share_mint : Pubkey
  pub vault_token_account : Pubkey
  pub authority : Pubkey
  pub curator : Pubkey
  pub manager : Pubkey
  pub hot_manager : Pubkey
  pub fulfiller : Pubkey
  pub breaker : Pubkey
  pub fee_recipient : Pubkey
  pub paused : Bool
  pub initialized : Bool
  pub pending_vault : Pubkey
  pub nav : ℕ  -- u128
  pub nav_version : ℕ  -- u64
  pub nav_mode : NavMode
  pub require_fresh_nav : Bool
  pub max_nav_delta_bps : ℕ  -- u16
  pub max_implied_apy_bps : ℕ  -- u32
  pub max_nav_staleness_slots : ℕ  -- u64
  pub last_nav_update_slot : ℕ  -- u64
  pub last_nav_update_timestamp : ℤ  -- i64
  pub pending_async_requests : ℕ  -- u16
  pub total_asset_balance : ℕ  -- u64
  pub deposit_cap : ℕ  -- u64
  pub pending_deposit_amount : ℕ  -- u64
  pub rolling_limit_window_slots : ℕ  -- u64
  pub manager_rolling_limit : ℕ  -- u64
  pub manager_window_start_slot : ℕ  -- u64
  pub manager_window_amount : ℕ  -- u64
  pub external_withdraw_rolling_limit : ℕ  -- u64
  pub redemption_rolling_limit : ℕ  -- u64
  pub external_withdraw_window_start_slot : ℕ  -- u64
  pub external_withdraw_window_amount : ℕ  -- u64
  pub redemption_window_start_slot : ℕ  -- u64
  pub redemption_window_amount : ℕ  -- u64
  pub timelock_delay_slots : ℕ  -- u64
  pub performance_fee_bps : ℕ  -- u16
  pub performance_fee_crystallization_interval_seconds : ℕ  -- u64
  pub protocol_fee_bps : ℕ  -- u16
  pub protocol_fee_recipient : Pubkey
  pub instant_redemption_fee_bps : ℕ  -- u16
  pub high_water_mark : ℕ  -- u128
  pub tranche_config : Option Pubkey
  pub last_fee_crystallization_timestamp : ℤ  -- i64
  pub reserve_bump : ℕ  -- u8
  pub pending_vault_bump : ℕ  -- u8
  pub bump : ℕ  -- u8
  pub pending_authority : Option Pubkey

pub record VaultAsset : Type 0 where
  pub vault : Pubkey
  pub asset_mint : Pubkey
  pub reserve : Pubkey
  pub pending_vault : Pubkey
  pub idle_balance : ℕ  -- u64
  pub deployed_balance : ℕ  -- u64
  pub pending_deposit_amount : ℕ  -- u64
  pub deposit_cap : ℕ  -- u64
  pub manager_window_start_slot : ℕ  -- u64
  pub manager_window_amount : ℕ  -- u64
  pub reserve_bump : ℕ  -- u8
  pub pending_vault_bump : ℕ  -- u8
  pub bump : ℕ  -- u8

pub record InstantSettlementUser : Type 0 where
  pub vault : Pubkey
  pub user : Pubkey
  pub deposit_window_start_slot : ℕ  -- u64
  pub deposit_window_amount : ℕ  -- u64
  pub redeem_window_start_slot : ℕ  -- u64
  pub redeem_window_amount : ℕ  -- u64
  pub bump : ℕ  -- u8

pub record VenueEntry : Type 0 where
  pub registry_authority : Pubkey
  pub venue_id : Bytes32
  pub target_program : Pubkey
  pub allowed_discriminator_count : ℕ  -- u8
  pub allowed_discriminators : List ℕ  -- [u8; 64]
  pub risk_class : ℕ  -- u8
  pub venue_type : VenueType
  pub routine_safe : Bool
  pub paused : Bool
  pub bump : ℕ  -- u8

pub record VaultVenue : Type 0 where
  pub vault : Pubkey
  pub venue_entry : Pubkey
  pub recipient_authority : Pubkey
  pub target_program : Pubkey
  pub routine_safe : Bool
  pub paused : Bool
  pub position_count : ℕ  -- u16
  pub approved_at_slot : ℕ  -- u64
  pub bump : ℕ  -- u8

pub record StrategyPolicy : Type 0 where
  pub vault : Pubkey
  pub strategist : Pubkey
  pub merkle_root : Bytes32
  pub version : ℕ  -- u64
  pub paused : Bool
  pub executing : Bool
  pub bump : ℕ  -- u8

pub record Position : Type 0 where
  pub vault : Pubkey
  pub venue_entry : Pubkey
  pub vault_venue : Pubkey
  pub asset_mint : Pubkey
  pub token_account : Pubkey
  pub amount : ℕ  -- u64
  pub token_account_bump : ℕ  -- u8
  pub bump : ℕ  -- u8

-- `[u64; 4]`, in the order of the source: senior deposit, senior redeem, junior deposit, junior redeem.
pub record RequestLimits : Type 0 where
  pub senior_deposit : ℕ
  pub senior_redeem : ℕ
  pub junior_deposit : ℕ
  pub junior_redeem : ℕ

pub record TrancheConfig : Type 0 where
  pub vault : Pubkey
  pub senior_share_mint : Pubkey
  pub junior_share_mint : Pubkey
  pub senior_nav : ℕ  -- u128
  pub junior_nav : ℕ  -- u128
  pub senior_supply : ℕ  -- u64
  pub junior_supply : ℕ  -- u64
  pub senior_target_bps : ℕ  -- u16
  pub min_junior_ratio_bps : ℕ  -- u16
  pub min_request_amounts : RequestLimits
  pub max_request_amounts : RequestLimits
  pub senior_subscription_request_total : ℕ  -- u64
  pub senior_subscription_request_last_processed : ℕ  -- u64
  pub senior_redemption_request_total : ℕ  -- u64
  pub senior_redemption_request_last_processed : ℕ  -- u64
  pub junior_subscription_request_total : ℕ  -- u64
  pub junior_subscription_request_last_processed : ℕ  -- u64
  pub junior_redemption_request_total : ℕ  -- u64
  pub junior_redemption_request_last_processed : ℕ  -- u64
  pub last_waterfall_slot : ℕ  -- u64
  pub last_waterfall_timestamp : ℤ  -- i64
  pub bump : ℕ  -- u8

pub record Request : Type 0 where
  pub vault : Pubkey
  pub request_type : RequestType
  pub request_state : RequestState
  pub owner : Pubkey
  pub amount : ℕ  -- u64
  pub price : ℕ  -- u128
  pub asset_mint_address : Pubkey
  pub share_mint_address : Pubkey
  pub created_at : ℤ  -- i64
  pub nav_update_version : ℕ  -- u64
  pub operator : Option Pubkey
