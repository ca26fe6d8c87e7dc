-- ===== src/Tests/Instant.antt =====
-- Instant settlement: a deposit, and a redemption of the same shares later.
use solana_vault_v.Base.{
  ℕ, ◌+◌, ◌*◌, ◌/◌, ◌^◌, ◌≤◌, ◌<◌, ◌≡◌, ◌==◌, if◌then◌else◌, true, none, some, [], ok, refl, arith,
}
use solana_vault_v.State.{
  Vault, assert_unpaused_and_initialized, assert_nav_not_stale, assert_deposit_cap_allows,
}
use solana_vault_v.Extensions.{
  Extensions, assert_instant_settlement_enabled, assert_instant_settlement_safety_guards,
  assert_deposit_amount, assert_redeem_shares,
}
use solana_vault_v.Fee.{get_fee_and_net, split_protocol_fee, get_extension_fee, get_fee, fee_type}
use solana_vault_v.Fee.Charge.{IsExtensionFee}
use solana_vault_v.Pricing.{calculate_shares, calculate_assets}
use solana_vault_v.Limits.{
  consume_redemption_rolling_limit, consume_rolling_limit, consume_deposit_limit,
  consume_redeem_limit,
}
use solana_vault_v.Runtime.{Clock, validate_asset_mint_extensions}
use solana_vault_v.Instant.Users.{
  UserAccount, ensure_initialized, load_or_init_instant_settlement_user,
}
use solana_vault_v.Instant.Fees.{InstantWorld, InstantAccounts, pay_fee_recipient, pay_protocol}
use solana_vault_v.Instant.Deposit.{
  check_instant, check_instant_nav, count_deposit, price_deposit, move_deposit, instant_deposit,
}
use solana_vault_v.Instant.Redeem.{
  count_redeem, instant_fee, price_redeem, move_redeem, instant_redeem,
}
use solana_vault_v.Instant.Effects.{instant_deposit-eq_ok}
use solana_vault_v.Instant.Comparison.{
  instant_redeem-instant_deposit, instant_deposit-finish_approval,
}
use solana_vault_v.Tests.Data.{addresses, clock, accounts, extensions, vault, value_or}
use solana_vault_v.Tests.Payout.{stored_fee}
use solana_vault_v.Tests.Requests.{T, asked, context, settle_asked, finish_asked}

-- Half a percent for settling at once; at most 4,000 units and 1,000 shares for a user in a window.
abbrev instant_vault : Vault
instant_vault = record vault { instant_redemption_fee_bps = 50; max_nav_staleness_slots = 2_000 }

abbrev instant_extensions : Extensions
instant_extensions = record extensions {
  withdrawal_fee = some (stored_fee 1 100);
  instant_settlement = some (record {
    min_deposit_amount = 10;
    max_deposit_amount = 0;
    min_redeem_shares = 0;
    max_redeem_shares = 2_000;
    max_user_deposit_amount = 4_000;
    max_user_redeem_shares = 1_000;
    enabled = 1;
  });
}

-- The user's account does not exist yet.
abbrev new_user : UserAccount
new_user = record {
  key = 1_015;
  owner = 904;
  is_writable = true;
  data_is_empty = true;
  can_be_created = true;
  as_user = none;
}

abbrev instant_accounts : InstantAccounts
instant_accounts = record {
  user = 6;
  asset_mint = accounts.asset_mint;
  share_mint = accounts.share_mint;
  vault_key = 9;
  instant_user_bump = 253;
  vault_token_account = 3;
  user_asset_account = 7;
  user_share_account = 8;
  fee_recipient_token_account = some (record {
    key = 11;
    owner = 900;
    is_writable = true;
    as_mint = none;
    as_token_account = none;
    as_tranche_config = none;
    as_protocol_fee_config = none;
  });
  protocol_fee_recipient_token_account = none;
  remaining = [];
}

abbrev before : InstantWorld T
before = record {
  vault = instant_vault;
  extensions = instant_extensions;
  instant_user = some new_user;
  tokens = record {
    held = λ k. if k == 3 then 5_000 else if k == 7 then 3_000 else 0;
    issued = λ k. 5_000;
  };
}

abbrev after_deposit : InstantWorld T
after_deposit = value_or before (instant_deposit addresses T clock instant_accounts 1_000 before)

deposit_run : instant_deposit addresses T clock instant_accounts 1_000 before ≡ ok after_deposit
unfolding instant_deposit check_instant check_instant_nav count_deposit price_deposit move_deposit
    assert_unpaused_and_initialized assert_nav_not_stale assert_deposit_cap_allows
    assert_instant_settlement_enabled assert_instant_settlement_safety_guards assert_deposit_amount
    get_fee_and_net get_extension_fee split_protocol_fee get_fee calculate_shares
    validate_asset_mint_extensions consume_deposit_limit consume_rolling_limit ensure_initialized
    load_or_init_instant_settlement_user pay_fee_recipient pay_protocol
deposit_run = refl

-- 100 of 1,000 units are the fee, and 900 units at a NAV of 2 are 450 shares.
abbrev charged : InstantWorld T
charged = record before {
  extensions = record instant_extensions { deposit_fee = some (stored_fee 0 100) };
}

abbrev after_charged : InstantWorld T
after_charged = value_or charged (instant_deposit addresses T clock instant_accounts 1_000 charged)

charged_run : instant_deposit addresses T clock instant_accounts 1_000 charged ≡ ok after_charged
unfolding instant_deposit check_instant check_instant_nav count_deposit price_deposit move_deposit
    assert_unpaused_and_initialized assert_nav_not_stale assert_deposit_cap_allows
    assert_instant_settlement_enabled assert_instant_settlement_safety_guards assert_deposit_amount
    get_fee_and_net get_extension_fee split_protocol_fee get_fee calculate_shares
    validate_asset_mint_extensions consume_deposit_limit consume_rolling_limit ensure_initialized
    load_or_init_instant_settlement_user pay_fee_recipient pay_protocol fee_type
charged_run = refl

instant_deposit-eq_ok_example :
    (fee net : ℕ) × IsExtensionFee (some (stored_fee 0 100)) 1_000 fee
    × (fee + net ≡ 1_000)
    × (0 < net)
    × (0 < net * 10 ^ 6 / 2_000_000)
    × (T.supply after_charged.tokens 2 ≡ 5_000 + net * 10 ^ 6 / 2_000_000)
    × (after_charged.vault.total_asset_balance ≡ 5_000 + net)
    × (T.balance charged.tokens 3 + net ≤ T.balance after_charged.tokens 3)
    × (T.balance charged.tokens 7 ≤ T.balance after_charged.tokens 7 + 1_000)
instant_deposit-eq_ok_example =
    instant_deposit-eq_ok addresses T clock instant_accounts 1_000 charged charged_run (omega arith)

-- Later, at the same NAV.
abbrev later : Clock
later = record clock { slot = 5_100 }

abbrev after_redeem : InstantWorld T
after_redeem = value_or before (instant_redeem addresses T later instant_accounts 500 after_deposit)

redeem_run : instant_redeem addresses T later instant_accounts 500 after_deposit ≡ ok after_redeem
unfolding instant_deposit check_instant check_instant_nav count_deposit price_deposit move_deposit
    assert_unpaused_and_initialized assert_nav_not_stale assert_deposit_cap_allows
    assert_instant_settlement_enabled assert_instant_settlement_safety_guards assert_deposit_amount
    get_fee_and_net get_extension_fee split_protocol_fee get_fee calculate_shares
    validate_asset_mint_extensions consume_deposit_limit consume_rolling_limit ensure_initialized
    load_or_init_instant_settlement_user pay_fee_recipient pay_protocol instant_redeem count_redeem
    instant_fee price_redeem move_redeem calculate_assets consume_redemption_rolling_limit
    consume_redeem_limit assert_redeem_shares fee_type
redeem_run = refl

minted_run : T.supply after_deposit.tokens 2 ≡ 5_000 + 500
unfolding instant_deposit check_instant check_instant_nav count_deposit price_deposit move_deposit
    assert_unpaused_and_initialized assert_nav_not_stale assert_deposit_cap_allows
    assert_instant_settlement_enabled assert_instant_settlement_safety_guards assert_deposit_amount
    get_fee_and_net get_extension_fee split_protocol_fee get_fee calculate_shares
    validate_asset_mint_extensions consume_deposit_limit consume_rolling_limit ensure_initialized
    load_or_init_instant_settlement_user pay_fee_recipient pay_protocol
minted_run = refl

instant_redeem-instant_deposit_example :
    (T.supply after_redeem.tokens 2 ≡ T.supply before.tokens 2)
    × (5_000 ≤ after_redeem.vault.total_asset_balance)
instant_redeem-instant_deposit_example =
    instant_redeem-instant_deposit addresses T instant_accounts clock later 1_000 500 before
      deposit_run minted_run redeem_run

-- The requested deposit of 1,000 units gets 500 shares too.
instant_deposit-finish_approval_example :
    (T.supply after_deposit.tokens 2 ≡ 5_000 + 500)
    × (after_deposit.vault.total_asset_balance ≡ 6_000)
instant_deposit-finish_approval_example =
    instant_deposit-finish_approval addresses T instant_accounts accounts clock clock 1_000 before
      context 4 asked deposit_run settle_asked finish_asked refl refl refl refl refl refl
