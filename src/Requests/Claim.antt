-- ===== src/Requests/Claim.antt =====
-- Claiming an approved request (programs/async_vault_v2/src/instructions/claim.rs). Anchor closes the
-- request's account afterwards.
use solana_vault_v.Base.{
  Bool, false, ◌||◌, Option, none, some, ok, ◌>>=◌, ◌>>◌, ◌==◌, if◌then◌else◌,
}
use solana_vault_v.Error.{
  Outcome, require, unauthorized_signer, invalid_request, request_not_claimable,
}
use solana_vault_v.State.{Pubkey, RequestType, deposit, redeem, assert_unpaused_and_initialized}
use solana_vault_v.Runtime.{Addresses}
use solana_vault_v.Runtime.Token.{TokenProgram}
use solana_vault_v.Tranche.{validate_request_share_mint}
use solana_vault_v.Requests.World.{
  World, RequestAccounts, demanded, transfer_checked, mint_shares, check_pending_vault,
  is_claimable,
}
use solana_vault_v.Requests.Refund.{check_mints}

-- `request.operator == Some(user_key)`
abbrev pub is_operator : Option Pubkey → Pubkey → Bool
is_operator none user = false
is_operator (some k) user = k == user

module _ (addresses : Addresses) (T : TokenProgram) (accounts : RequestAccounts) where
  open accounts use {
    signer, owner, asset_mint, share_mint, vault_key, pending_vault, user_asset_account,
    user_share_account, share_token_program,
  }

  -- `Claim::deposit`: the shares of an approved deposit are minted.
  unfoldable pub claim_deposit : World T → Outcome (World T)
  claim_deposit w = do
    to ← demanded user_share_account
    demanded (if share_token_program then some tt else none)
    tokens' ← mint_shares T w.tokens share_mint.key to w.request.amount
    ok (record w { tokens = tokens' })

  -- The `Redeem` arm and `Claim::redeem`: the assets leave the escrow.
  unfoldable pub claim_redeem : World T → Outcome (World T)
  claim_redeem w = do
    escrow ← demanded pending_vault
    check_pending_vault w.vault w.vault_asset vault_key asset_mint.key escrow
    to ← demanded user_asset_account
    tokens' ← transfer_checked T w.tokens escrow to w.request.amount
    ok (record w { tokens = tokens' })

  abbrev pub pay_out : RequestType → World T → Outcome (World T)
  pay_out deposit w = claim_deposit w
  pay_out redeem w = claim_redeem w

  unfoldable pub claim : World T → Outcome (World T)
  claim w = do
    require (w.request.owner == owner) invalid_request
    require (w.request.vault == vault_key) invalid_request
    assert_unpaused_and_initialized w.vault
    require (signer == w.request.owner || is_operator w.request.operator signer) unauthorized_signer
    require (is_claimable w.request.request_state) request_not_claimable
    check_mints w.request asset_mint.key share_mint.key
    _ ← validate_request_share_mint addresses w.vault vault_key share_mint.key w.remaining
    pay_out w.request.request_type w
