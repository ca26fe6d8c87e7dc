-- ===== src/Tests/Requests.antt =====
-- Requests: a deposit cancelled or approved, an approved request, and a queued
-- redemption in another asset.
use solana_vault_v.Base.{◌≡◌, ◌≢◌, none, some, [], ok, refl, arith}
use solana_vault_v.State.{deposit, redeem, pending, claimable, assert_unpaused_and_initialized}
use solana_vault_v.Tranche.{validate_request_share_mint, RequestShareMintContext}
use solana_vault_v.Fee.{get_fee_and_net, split_protocol_fee, get_extension_fee, get_fee}
use solana_vault_v.Pricing.{calculate_shares}
use solana_vault_v.Runtime.Token.{TokenProgram}
use solana_vault_v.Runtime.Tables.{table_program}
use solana_vault_v.Requests.World.{World}
use solana_vault_v.Requests.{
  Settlement, cancel_request, reject_request, approve_request, cancel_queued_deposit_request,
  cancel_queued_redemption_request, skip_canceled_queue_request,
  validate_queue_extension_constraints, refund_deposit, refund_escrow, release_pending_deposit,
  close_pending_request, settle_deposit, finish_approval, account_deposit,
  maybe_enforce_junior_ratio_floor, update_tranche_supply_cache, pay_out_net, fee_recipient_account,
  protocol_fee_account, pay_fee,
}
use solana_vault_v.Requests.Backing.{DistinctEscrow}
use solana_vault_v.Requests.Backing.Books.{books, placed, IsBalanced}
use solana_vault_v.Requests.Backing.System.{done, then_step, cancel, Steps-IsBalanced}
use solana_vault_v.Requests.Lifecycle.{approved_request-final, queued_secondary_redemption-stuck}
use solana_vault_v.Tests.Data.{addresses, clock, accounts, world, expected, value_or}

abbrev pub T : TokenProgram
T = table_program

abbrev pub asked : World T
asked = world deposit pending 1 none

abbrev cancelled : World T
cancelled = value_or asked (cancel_request addresses T accounts asked)

cancel_asked : cancel_request addresses T accounts asked ≡ ok cancelled
unfolding cancel_request assert_unpaused_and_initialized validate_request_share_mint
    validate_queue_extension_constraints refund_deposit refund_escrow release_pending_deposit
    close_pending_request
cancel_asked = refl

asked-IsBalanced : IsBalanced T (books T asked (placed [] (some asked.request) []))
unfolding IsBalanced
asked-IsBalanced = (omega arith, refl, refl)

no_asset : DistinctEscrow T asked
no_asset a e = cc

Steps-IsBalanced_example : IsBalanced T (books T cancelled (placed [] none []))
Steps-IsBalanced_example =
    Steps-IsBalanced addresses T
      (then_step done (cancel accounts asked cancelled [] [] cancel_asked no_asset))
      asked-IsBalanced

abbrev pub context : RequestShareMintContext
context = record { consumed_accounts = 0; tranche_nav = none; tranche_info = none }

-- 1,000 units at a NAV of 2 are 500 shares.
abbrev pub deposit_settlement : Settlement T
deposit_settlement =
    value_or (record { claimable_amount = 0; balance_delta = 0; settled = asked })
      (settle_deposit addresses T clock accounts context 4 asked)

abbrev pub deposited : World T
deposited = record (deposit_settlement.settled) {
  vault = record (asked.vault) {
    total_asset_balance = 6_000;
    pending_deposit_amount = 0;
    pending_async_requests = 0;
  };
  request = record (asked.request) { amount = 500; request_state = claimable };
}

pub settle_asked : settle_deposit addresses T clock accounts context 4 asked ≡ ok deposit_settlement
unfolding settle_deposit get_fee_and_net get_extension_fee calculate_shares
    maybe_enforce_junior_ratio_floor update_tranche_supply_cache pay_out_net split_protocol_fee
    get_fee fee_recipient_account protocol_fee_account pay_fee
settle_asked = refl

pub finish_asked :
    finish_approval addresses T clock accounts 2_000_000 asked.request deposit_settlement
    ≡ ok deposited
unfolding settle_deposit get_fee_and_net get_extension_fee calculate_shares
    maybe_enforce_junior_ratio_floor update_tranche_supply_cache pay_out_net split_protocol_fee
    get_fee fee_recipient_account protocol_fee_account pay_fee finish_approval account_deposit
    close_pending_request
finish_asked = refl

abbrev approved : World T
approved = world deposit claimable 1 none

approved_request-final_example :
    (approve_request addresses T clock accounts expected approved ≢ ok asked)
    × (cancel_request addresses T accounts approved ≢ ok asked)
    × (reject_request addresses T accounts expected approved ≢ ok asked)
    × (cancel_queued_deposit_request addresses T accounts approved ≢ ok asked)
    × (cancel_queued_redemption_request addresses T accounts approved ≢ ok asked)
    × (skip_canceled_queue_request addresses T accounts approved ≢ ok asked)
approved_request-final_example =
    approved_request-final addresses T clock accounts expected approved asked refl

-- The request asks for mint 30, which is not the vault's own, and is the third in the queue.
abbrev secondary : World T
secondary = world redeem pending 30 (some 3)

queued_secondary_redemption-stuck_example :
    (approve_request addresses T clock accounts expected secondary ≢ ok asked)
    × (cancel_request addresses T accounts secondary ≢ ok asked)
    × (cancel_queued_redemption_request addresses T accounts secondary ≢ ok asked)
queued_secondary_redemption-stuck_example =
    queued_secondary_redemption-stuck addresses T clock accounts expected secondary asked 3 refl
      (omega arith) refl
