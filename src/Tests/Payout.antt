-- ===== src/Tests/Payout.antt =====
-- Approvals that take a fee: a fixed one from a deposit and a percentage from a redemption.
use solana_vault_v.Base.{
  ℕ, ◌+◌, ◌*◌, ◌/◌, ◌^◌, ◌≤◌, ◌<◌, ◌≡◌, ◌⊎◌, true, none, some, [], ◌∷◌, ok, refl,
}
use solana_vault_v.State.{deposit, redeem, pending, claimable}
use solana_vault_v.Fee.{
  FeeData, get_fee_and_net, split_protocol_fee, get_extension_fee, get_fee, fee_type,
}
use solana_vault_v.Fee.Charge.{IsExtensionFee}
use solana_vault_v.Pricing.{calculate_shares, calculate_assets}
use solana_vault_v.Limits.{consume_redemption_rolling_limit, consume_rolling_limit}
use solana_vault_v.Runtime.{AccountInfo, validate_token_account_owner}
use solana_vault_v.Requests.World.{World}
use solana_vault_v.Requests.{
  Settlement, close_pending_request, settle_deposit, settle_redeem, finish_approval,
  account_deposit, account_redeem, maybe_enforce_junior_ratio_floor, update_tranche_supply_cache,
  pay_out_net, fee_recipient_account, protocol_fee_account, pay_fee,
}
use solana_vault_v.Requests.Payout.{finish_approval-settle_deposit, finish_approval-settle_redeem}
use solana_vault_v.Tests.Data.{addresses, clock, accounts, extensions, world, value_or}
use solana_vault_v.Tests.Requests.{T, context}

-- The token account of the fee recipient.
abbrev fee_account : AccountInfo
fee_account = record {
  key = 11;
  owner = 900;
  is_writable = true;
  as_mint = none;
  as_token_account = some (record { mint = 1; owner = 5 });
  as_tranche_config = none;
  as_protocol_fee_config = none;
}

-- A hundred units, or one percent.
abbrev pub stored_fee : ℕ → ℕ → FeeData
stored_fee kind first_byte = record {
  discriminant = kind;
  payload = record { b0 = first_byte; b1 = 0; b2 = 0; b3 = 0; b4 = 0; b5 = 0; b6 = 0; b7 = 0 };
}

abbrev subscribing : World T
subscribing = record (world deposit pending 1 none) {
  extensions = record extensions { deposit_fee = some (stored_fee 0 100) };
  remaining = fee_account ∷ [];
}

abbrev deposit_settlement : Settlement T
deposit_settlement =
    value_or (record { claimable_amount = 0; balance_delta = 0; settled = subscribing })
      (settle_deposit addresses T clock accounts context 4 subscribing)

abbrev subscribed : World T
subscribed = record (deposit_settlement.settled) {
  vault = record (subscribing.vault) {
    total_asset_balance = 5_900;
    pending_deposit_amount = 0;
    pending_async_requests = 0;
  };
  request = record (subscribing.request) { amount = 450; request_state = claimable };
}

settle_subscribing :
    settle_deposit addresses T clock accounts context 4 subscribing ≡ ok deposit_settlement
unfolding settle_deposit get_fee_and_net get_extension_fee calculate_shares fee_type
    maybe_enforce_junior_ratio_floor update_tranche_supply_cache pay_out_net split_protocol_fee
    get_fee fee_recipient_account protocol_fee_account pay_fee validate_token_account_owner
settle_subscribing = refl

finish_subscribing :
    finish_approval addresses T clock accounts 2_000_000 subscribing.request deposit_settlement
    ≡ ok subscribed
unfolding settle_deposit get_fee_and_net get_extension_fee calculate_shares fee_type
    maybe_enforce_junior_ratio_floor update_tranche_supply_cache pay_out_net split_protocol_fee
    get_fee fee_recipient_account protocol_fee_account pay_fee validate_token_account_owner
    finish_approval account_deposit close_pending_request
finish_subscribing = refl

-- 900 of 1,000 units are left, which are 450 shares at a NAV of 2.
finish_approval-settle_deposit_example :
    (fee net : ℕ) × IsExtensionFee (some (stored_fee 0 100)) 1_000 fee
    × (fee + net ≡ 1_000)
    × (0 < net)
    × (0 < 450)
    × (450 ≡ net * 10 ^ 6 / 2_000_000)
    × (subscribed.request.price ≡ 2_000_000)
    × (subscribed.request.request_state ≡ claimable)
    × (5_900 ≡ 5_000 + net)
    × ((subscribing.vault.deposit_cap ≡ 0) ⊎ (5_900 ≤ 10_000))
finish_approval-settle_deposit_example =
    finish_approval-settle_deposit addresses T clock accounts context 4 subscribing
      settle_subscribing finish_subscribing refl

abbrev redeeming : World T
redeeming = record (world redeem pending 1 none) {
  extensions = record extensions { withdrawal_fee = some (stored_fee 1 100) };
  remaining = fee_account ∷ [];
}

abbrev redeem_settlement : Settlement T
redeem_settlement =
    value_or (record { claimable_amount = 0; balance_delta = 0; settled = redeeming })
      (settle_redeem addresses T clock accounts context 4 redeeming)

abbrev redeemed : World T
redeemed = record (redeem_settlement.settled) {
  vault = record (redeeming.vault) { total_asset_balance = 3_000; pending_async_requests = 0 };
  request = record (redeeming.request) { amount = 1_980; request_state = claimable };
}

settle_redeeming :
    settle_redeem addresses T clock accounts context 4 redeeming ≡ ok redeem_settlement
unfolding settle_redeem get_fee_and_net get_extension_fee calculate_assets fee_type
    maybe_enforce_junior_ratio_floor update_tranche_supply_cache pay_out_net split_protocol_fee
    get_fee fee_recipient_account protocol_fee_account pay_fee consume_redemption_rolling_limit
    consume_rolling_limit validate_token_account_owner
settle_redeeming = refl

finish_redeeming :
    finish_approval addresses T clock accounts 2_000_000 redeeming.request redeem_settlement
    ≡ ok redeemed
unfolding settle_redeem get_fee_and_net get_extension_fee calculate_assets fee_type
    maybe_enforce_junior_ratio_floor update_tranche_supply_cache pay_out_net split_protocol_fee
    get_fee fee_recipient_account protocol_fee_account pay_fee consume_redemption_rolling_limit
    consume_rolling_limit validate_token_account_owner finish_approval account_redeem
    close_pending_request
finish_redeeming = refl

-- 1,000 shares at a NAV of 2 are 2,000 units, of which 20 are the fee.
finish_approval-settle_redeem_example :
    (fee net : ℕ) × IsExtensionFee (some (stored_fee 1 100)) (1_000 * 2_000_000 / 10 ^ 6) fee
    × (fee + net ≡ 1_000 * 2_000_000 / 10 ^ 6)
    × (0 < fee + net)
    × (1_980 ≡ net)
    × (redeemed.request.price ≡ 2_000_000)
    × (redeemed.request.request_state ≡ claimable)
    × (3_000 + fee + net ≡ 5_000)
finish_approval-settle_redeem_example =
    finish_approval-settle_redeem addresses T clock accounts context 4 redeeming settle_redeeming
      finish_redeeming refl
