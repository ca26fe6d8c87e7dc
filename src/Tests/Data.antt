-- ===== src/Tests/Data.antt =====
-- One vault, one pending deposit and one user, over a token program of two tables.
use solana_vault_v.Base.{ℕ, ◌+◌, ◌==◌, if◌then◌else◌, true, false, Option, none, some, [], ok, err}
use solana_vault_v.Base.Int.{pos}
use solana_vault_v.Error.{Outcome}
use solana_vault_v.State.{
  Vault, authority_signed, Request, RequestType, RequestState, deposit, Pubkey,
}
use solana_vault_v.Extensions.{Extensions}
use solana_vault_v.Runtime.{Addresses, Clock}
use solana_vault_v.Runtime.Tables.{Tables, table_program}
use solana_vault_v.Requests.{ExpectedRequest}
use solana_vault_v.Requests.World.{World, RequestAccounts}

-- What a call returns, or the given value where it fails.
abbrev pub value_or : {A : Type 0} → A → Outcome A → A
value_or a (ok b) = b
value_or a (err _) = a

abbrev pub addresses : Addresses
addresses = record {
  token_program = 900;
  token_2022_program = 901;
  vault_program = 902;
  tranche_config = λ v. v;
  protocol_fee_config = 903;
  protocol_fee_config_bump = 254;
  system_program = 904;
  instant_user = λ v u. (1_000 + v + u, 253);
}

abbrev pub clock : Clock
clock = record { slot = 5_000; unix_timestamp = pos 1_700_000_000 }

-- Keys: 1 the asset mint, 2 the share mint, 3 the vault's account, 4 its escrow, 5 the curator, 6 the
-- user, 7 and 8 the user's accounts, 9 the vault.
abbrev pub vault : Vault
vault = record {
  asset_mint = 1;
  approved_asset_count = 0;
  share_mint = 2;
  vault_token_account = 3;
  authority = 5;
  curator = 5;
  manager = 5;
  hot_manager = 5;
  fulfiller = 5;
  breaker = 5;
  fee_recipient = 5;
  paused = false;
  initialized = true;
  pending_vault = 4;
  nav = 2_000_000;
  nav_version = 7;
  nav_mode = authority_signed;
  require_fresh_nav = false;
  max_nav_delta_bps = 1_000;
  max_implied_apy_bps = 0;
  max_nav_staleness_slots = 0;
  last_nav_update_slot = 4_000;
  last_nav_update_timestamp = pos 1_600_000_000;
  pending_async_requests = 1;
  total_asset_balance = 5_000;
  deposit_cap = 10_000;
  pending_deposit_amount = 1_000;
  rolling_limit_window_slots = 100;
  manager_rolling_limit = 0;
  manager_window_start_slot = 0;
  manager_window_amount = 0;
  external_withdraw_rolling_limit = 0;
  redemption_rolling_limit = 0;
  external_withdraw_window_start_slot = 0;
  external_withdraw_window_amount = 0;
  redemption_window_start_slot = 0;
  redemption_window_amount = 0;
  timelock_delay_slots = 50;
  performance_fee_bps = 0;
  performance_fee_crystallization_interval_seconds = 0;
  protocol_fee_bps = 0;
  protocol_fee_recipient = 0;
  instant_redemption_fee_bps = 0;
  high_water_mark = 1_500_000;
  tranche_config = none;
  last_fee_crystallization_timestamp = pos 0;
  reserve_bump = 0;
  pending_vault_bump = 0;
  bump = 0;
  pending_authority = none;
}

abbrev pub extensions : Extensions
extensions = record {
  deposit_fee = none;
  withdrawal_fee = none;
  pausable_subscriptions = none;
  pausable_redemptions = none;
  subscription_queue = none;
  redemption_queue = none;
  min_subscription = none;
  min_redemption = none;
  externally_managed_withdrawals = none;
  instant_settlement = none;
}

abbrev pub request : RequestType → RequestState → Pubkey → Request
request t s asset_mint = record {
  vault = 9;
  request_type = t;
  request_state = s;
  owner = 6;
  amount = 1_000;
  price = 2_000_000;
  asset_mint_address = asset_mint;
  share_mint_address = 2;
  created_at = pos 1_600_000_000;
  nav_update_version = 6;
  operator = none;
}

abbrev pub accounts : RequestAccounts
accounts = record {
  signer = 6;
  owner = 6;
  asset_mint = record {
    key = 1;
    owner = 900;
    supply = 1_000_000;
    decimals = 6;
    transfer_fee_bps = none;
    confidential_mint_burn = false;
  };
  share_mint = record {
    key = 2;
    owner = 900;
    supply = 5_000;
    decimals = 6;
    transfer_fee_bps = none;
    confidential_mint_burn = false;
  };
  vault_key = 9;
  vault_token_account = 3;
  pending_vault = some 4;
  user_asset_account = some 7;
  user_share_account = some 8;
  asset_token_program = true;
  share_token_program = true;
}

abbrev pub expected : ExpectedRequest
expected = record {
  owner = 6;
  request_type = deposit;
  amount = 1_000;
  created_at = pos 1_600_000_000;
  nav_update_version = 6;
}

-- The vault's account and its escrow hold 5,000 and 1,000; 5,000 shares exist.
abbrev pub tokens : Tables
tokens = record {
  held = λ k. if k == 3 then 5_000 else if k == 4 then 1_000 else 0;
  issued = λ k. 5_000;
}

abbrev pub world : RequestType → RequestState → Pubkey → Option ℕ → World table_program
world t s asset_mint id = record {
  vault = vault;
  extensions = extensions;
  vault_asset = none;
  request = request t s asset_mint;
  ids = record { subscription = none; redemption = id };
  remaining = [];
  tokens = tokens;
}
