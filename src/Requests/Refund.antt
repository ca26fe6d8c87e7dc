-- ===== src/Requests/Refund.antt =====
-- Giving a pending request back: `cancel_request` by its owner, `reject_request` by the curator or
-- fulfiller (programs/async_vault_v2/src/instructions/cancel_request.rs, reject_request.rs). Anchor
-- closes the request's account after either.
use solana_vault_v.Base.{
  ℕ, Bool, not, ◌&&◌, none, some, ok, ◌>>=◌, ◌>>◌, ◌==◌, if◌then◌else◌, is_some, ensure,
}
use solana_vault_v.Base.Int.{ℤ, eq_ℤ}
use solana_vault_v.Error.{
  Outcome, require, constraint_violated, unauthorized_signer, request_is_not_pending,
  request_invalid_state, invalid_asset_mint, invalid_share_mint,
  must_use_cancel_queued_deposit_request, must_use_cancel_queued_redemption_request,
  approval_request_mismatch,
}
use solana_vault_v.State.{
  ⊤, Pubkey, Request, RequestType, deposit, redeem, require_keys_eq,
  assert_unpaused_and_initialized, assert_curator_or_fulfiller,
}
use solana_vault_v.Runtime.{Addresses}
use solana_vault_v.Runtime.Token.{TokenProgram}
use solana_vault_v.Tranche.{validate_request_share_mint, is_deposit}
use solana_vault_v.Requests.World.{
  World, QueueIds, RequestAccounts, demanded, transfer_checked, mint_shares, refund_escrow,
  release_pending_deposit, close_pending_request, is_pending,
}
use solana_vault_v.Requests.Ordering.{check_fifo_ordering}

-- `validate_queue_extension_constraints`: a request with a queue number has its own cancel
-- instruction.
unfoldable pub validate_queue_extension_constraints : RequestType → QueueIds → Outcome ⊤
validate_queue_extension_constraints deposit ids =
    require (not (is_some ids.subscription)) must_use_cancel_queued_deposit_request
validate_queue_extension_constraints redeem ids =
    require (not (is_some ids.redemption)) must_use_cancel_queued_redemption_request

-- `RejectRequestArgs`, `ApproveRequestArgs`: what the signer believes the request to be.
pub record ExpectedRequest : Type 0 where
  pub owner : Pubkey
  pub request_type : RequestType
  pub amount : ℕ  -- u64
  pub created_at : ℤ  -- i64
  pub nav_update_version : ℕ  -- u64

abbrev pub same_type : RequestType → RequestType → Bool
same_type deposit t = is_deposit t
same_type redeem t = not (is_deposit t)

unfoldable pub matches_request : Request → ExpectedRequest → Outcome ⊤
matches_request r e =
    require
      (r.owner == e.owner
        && same_type r.request_type e.request_type
        && r.amount == e.amount
        && eq_ℤ r.created_at e.created_at
        && r.nav_update_version == e.nav_update_version)
      approval_request_mismatch

-- The mints of a request and of the call are the same.
abbrev pub check_mints : Request → Pubkey → Pubkey → Outcome ⊤
check_mints r asset_mint share_mint = do
  require_keys_eq r.asset_mint_address asset_mint invalid_asset_mint
  require_keys_eq r.share_mint_address share_mint invalid_share_mint

module _ (addresses : Addresses) (T : TokenProgram) (accounts : RequestAccounts) where
  open accounts use {
    signer, owner, asset_mint, share_mint, vault_key, pending_vault, user_asset_account,
    user_share_account, asset_token_program, share_token_program,
  }

  -- The `Deposit` arm of both handlers: the assets leave the escrow for the user.
  unfoldable pub refund_deposit : World T → Outcome (World T)
  refund_deposit w = do
    escrow ← refund_escrow w.vault w.vault_asset vault_key asset_mint.key pending_vault
    to ← demanded user_asset_account
    demanded (if asset_token_program then some tt else none)
    tokens' ← transfer_checked T w.tokens escrow to w.request.amount
    (v, a) ← release_pending_deposit w.vault w.vault_asset asset_mint.key w.request.amount
    ok (record w { vault = v; vault_asset = a; tokens = tokens' })

  -- The `Redeem` arm of both handlers: the burnt shares are minted again.
  unfoldable pub refund_redeem : World T → Outcome (World T)
  refund_redeem w = do
    to ← demanded user_share_account
    demanded (if share_token_program then some tt else none)
    tokens' ← mint_shares T w.tokens share_mint.key to w.request.amount
    ok (record w { tokens = tokens' })

  abbrev pub refund : RequestType → World T → Outcome (World T)
  refund deposit w = refund_deposit w
  refund redeem w = refund_redeem w

  -- The last statement of both handlers.
  abbrev pub count_down : World T → Outcome (World T)
  count_down w = do v ← close_pending_request w.vault; ok (record w { vault = v })

  unfoldable pub cancel_request : World T → Outcome (World T)
  cancel_request w = do
    require (w.request.owner == signer) unauthorized_signer
    ensure (w.request.vault == vault_key) constraint_violated
    assert_unpaused_and_initialized w.vault
    require (is_pending w.request.request_state) request_is_not_pending
    check_mints w.request asset_mint.key share_mint.key
    _ ← validate_request_share_mint addresses w.vault vault_key share_mint.key w.remaining
    validate_queue_extension_constraints w.request.request_type w.ids
    w' ← refund w.request.request_type w
    count_down w'

  unfoldable pub reject_request : ExpectedRequest → World T → Outcome (World T)
  reject_request args w = do
    require (w.request.owner == owner) unauthorized_signer
    ensure (w.request.vault == vault_key) constraint_violated
    assert_curator_or_fulfiller w.vault signer
    require (is_pending w.request.request_state) request_invalid_state
    matches_request w.request args
    check_mints w.request asset_mint.key share_mint.key
    context ← validate_request_share_mint addresses w.vault vault_key share_mint.key w.remaining
    (e, remaining') ←
        check_fifo_ordering context share_mint.key w.request.request_type w.ids w.extensions
          w.remaining
    w' ← refund w.request.request_type (record w { extensions = e; remaining = remaining' })
    count_down w'
