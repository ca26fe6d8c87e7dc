-- ===== src/Requests/Queued.antt =====
-- Requests with a queue number: their owner cancels them at once, and the request stays as a tombstone
-- until the queue has gone past it (programs/async_vault_v2/src/extensions:
-- subscription_queue/instructions/cancel_queued_deposit_request.rs,
-- redemption_queue/instructions/cancel_queued_redemption_request.rs,
-- fifo_queues/skip_canceled_queue_request.rs).
use solana_vault_v.Base.{ok, ◌>>=◌, ◌>>◌, ◌==◌, is_some, ensure}
use solana_vault_v.Error.{
  Outcome, require, constraint_violated, unauthorized_signer, request_is_not_pending,
  invalid_request_type, uninitialized_extension, invalid_asset_mint, request_is_not_canceled,
}
use solana_vault_v.State.{
  RequestType, deposit, redeem, canceled, assert_unpaused_and_initialized, require_keys_eq,
}
use solana_vault_v.Runtime.{Addresses}
use solana_vault_v.Runtime.Token.{TokenProgram}
use solana_vault_v.Tranche.{validate_request_share_mint}
use solana_vault_v.Requests.World.{
  World, RequestAccounts, required, transfer_checked, mint_shares, check_pending_vault,
  release_pending_deposit, close_pending_request, is_pending, is_canceled,
}
use solana_vault_v.Requests.Ordering.{check_fifo_ordering}
use solana_vault_v.Requests.Refund.{same_type, check_mints}

module _ (addresses : Addresses) (T : TokenProgram) (accounts : RequestAccounts) where
  open accounts use {
    signer, owner, asset_mint, share_mint, vault_key, pending_vault, user_asset_account,
    user_share_account,
  }

  -- The account constraints that the two cancel instructions put on the request.
  abbrev check_own_request : RequestType → World T → Outcome (Unit {0})
  check_own_request request_type w = do
    require (w.request.owner == signer) unauthorized_signer
    require (same_type w.request.request_type request_type) invalid_request_type
    ensure (w.request.vault == vault_key) constraint_violated

  unfoldable pub cancel_queued_deposit_request : World T → Outcome (World T)
  cancel_queued_deposit_request w = do
    check_own_request deposit w
    escrow ← required pending_vault
    to ← required user_asset_account
    assert_unpaused_and_initialized w.vault
    require (is_pending w.request.request_state) request_is_not_pending
    require (is_some w.ids.subscription) uninitialized_extension
    check_mints w.request asset_mint.key share_mint.key
    _ ← validate_request_share_mint addresses w.vault vault_key share_mint.key w.remaining
    check_pending_vault w.vault w.vault_asset vault_key asset_mint.key escrow
    tokens' ← transfer_checked T w.tokens escrow to w.request.amount
    (v, a) ← release_pending_deposit w.vault w.vault_asset asset_mint.key w.request.amount
    counted ← close_pending_request v
    ok (record w {
      vault = counted;
      vault_asset = a;
      request = record (w.request) { request_state = canceled };
      tokens = tokens';
    })

  -- The vault account is held to `has_one = asset_mint`: only the primary asset is accepted here.
  unfoldable pub cancel_queued_redemption_request : World T → Outcome (World T)
  cancel_queued_redemption_request w = do
    require_keys_eq w.vault.asset_mint asset_mint.key invalid_asset_mint
    check_own_request redeem w
    to ← required user_share_account
    assert_unpaused_and_initialized w.vault
    require (is_pending w.request.request_state) request_is_not_pending
    require (is_some w.ids.redemption) uninitialized_extension
    check_mints w.request asset_mint.key share_mint.key
    _ ← validate_request_share_mint addresses w.vault vault_key share_mint.key w.remaining
    tokens' ← mint_shares T w.tokens share_mint.key to w.request.amount
    counted ← close_pending_request w.vault
    ok (record w {
      vault = counted;
      request = record (w.request) { request_state = canceled };
      tokens = tokens';
    })

  -- Anybody may advance a queue past a tombstone, whose account Anchor then closes.
  unfoldable pub skip_canceled_queue_request : World T → Outcome (World T)
  skip_canceled_queue_request w = do
    require (is_canceled w.request.request_state) request_is_not_canceled
    ensure (w.request.vault == vault_key) constraint_violated
    ensure (w.request.owner == owner) constraint_violated
    context ←
        validate_request_share_mint addresses w.vault vault_key w.request.share_mint_address
          w.remaining
    (e, remaining') ←
        check_fifo_ordering context w.request.share_mint_address w.request.request_type w.ids
          w.extensions w.remaining
    ok (record w { extensions = e; remaining = remaining' })
