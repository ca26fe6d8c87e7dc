-- ===== src/Requests/Backing/Queued.antt =====
-- The books under the instructions of requests that have a queue number.
use solana_vault_v.Base.{ℕ, ok, ◌≡◌, none, some, arith}
use solana_vault_v.State.{Pubkey}
use solana_vault_v.Runtime.{Addresses}
use solana_vault_v.Runtime.Token.{TokenProgram}
use solana_vault_v.Requests.Backing.Claims.{check_pending_vault-eq_ok}
use solana_vault_v.Requests.World.{check_pending_vault, World, RequestAccounts}
use solana_vault_v.Requests.Queued.{
  cancel_queued_deposit_request, cancel_queued_redemption_request, skip_canceled_queue_request,
}
use solana_vault_v.Requests.Backing.{KeepsBooks, DistinctEscrow, transfer-covers, mint_to-covers}
use solana_vault_v.Requests.Backing.Refunds.{
  release_pending_deposit-eq_ok, close_pending_request-eq_ok, check_mints-eq_ok,
}

module _ (addresses : Addresses) (T : TokenProgram) (accounts : RequestAccounts) where
  open accounts use {asset_mint}

  -- A queued deposit that its owner cancels leaves the books balanced: the assets leave escrow at
  -- once, and the tombstone owes and counts nothing.
  pub cancel_queued_deposit_request-KeepsBooks :
      (w : World T) {w' : World T}
      → cancel_queued_deposit_request addresses T accounts w ≡ ok w'
      → DistinctEscrow T w
      → KeepsBooks T w w' (some w.request) (some w'.request)
  unfolding cancel_queued_deposit_request
  cancel_queued_deposit_request-KeepsBooks w {w'} h distinct = record {
    same_escrow = grind (arith, release_pending_deposit-eq_ok, close_pending_request-eq_ok);
    same_asset = grind (arith, release_pending_deposit-eq_ok, close_pending_request-eq_ok);
    backed = grind (
      arith,
      check_mints-eq_ok,
      λ (e : Pubkey) (u : Unit {0})
            (g : check_pending_vault w.vault w.vault_asset accounts.vault_key asset_mint.key e
              ≡ ok u).
          check_pending_vault-eq_ok w.vault w.vault_asset accounts.vault_key asset_mint.key e g
            distinct,
      release_pending_deposit-eq_ok,
      close_pending_request-eq_ok,
      λ (x y : T.Tokens) (from to : Pubkey) (n : ℕ).
          transfer-covers T x y from to w.vault.pending_vault n,
    );
    reserves =
        grind
          (arith, check_mints-eq_ok, release_pending_deposit-eq_ok, close_pending_request-eq_ok);
    counts = grind (arith, release_pending_deposit-eq_ok, close_pending_request-eq_ok);
  }

  -- A queued redemption that its owner cancels leaves the books balanced, and stays as a tombstone.
  pub cancel_queued_redemption_request-KeepsBooks :
      (w : World T) {w' : World T}
      → cancel_queued_redemption_request addresses T accounts w ≡ ok w'
      → KeepsBooks T w w' (some w.request) (some w'.request)
  unfolding cancel_queued_redemption_request
  cancel_queued_redemption_request-KeepsBooks w {w'} h = record {
    same_escrow = grind (arith, close_pending_request-eq_ok);
    same_asset = grind (arith, close_pending_request-eq_ok);
    backed = grind (
      arith,
      close_pending_request-eq_ok,
      λ (x y : T.Tokens) (m to : Pubkey) (n : ℕ). mint_to-covers T x y m to w.vault.pending_vault n,
    );
    reserves = grind (arith, close_pending_request-eq_ok);
    counts = grind (arith, close_pending_request-eq_ok);
  }

  -- Skipping a tombstone changes no sum.
  pub skip_canceled_queue_request-KeepsBooks :
      (w : World T) {w' : World T}
      → skip_canceled_queue_request addresses T accounts w ≡ ok w'
      → KeepsBooks T w w' (some w.request) none
  unfolding skip_canceled_queue_request
  skip_canceled_queue_request-KeepsBooks w {w'} h = record {
    same_escrow = ground arith;
    same_asset = ground arith;
    backed = ground arith;
    reserves = ground arith;
    counts = ground arith;
  }
