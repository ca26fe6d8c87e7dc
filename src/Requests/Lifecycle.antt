-- ===== src/Requests/Lifecycle.antt =====
-- In which states the instructions accept a request.
use solana_vault_v.Base.{ℕ, ◌≡◌, ◌≢◌, some, ok, arith, >>=-eq-ok}
use solana_vault_v.State.{pending, claimable, redeem}
use solana_vault_v.Runtime.{Addresses, Clock}
use solana_vault_v.Runtime.Token.{TokenProgram}
use solana_vault_v.Requests.World.{World, RequestAccounts, required}
use solana_vault_v.Requests.Refund.{
  ExpectedRequest, cancel_request, reject_request, validate_queue_extension_constraints,
}
use solana_vault_v.Requests.Queued.{
  cancel_queued_deposit_request, cancel_queued_redemption_request, skip_canceled_queue_request,
}
use solana_vault_v.Requests.Approve.{approve_request, check_approval}
use solana_vault_v.Requests.Backing.Approval.{check_approval-eq_ok}

module _ (addresses : Addresses) (T : TokenProgram) (clock : Clock)
    (accounts : RequestAccounts) where
  approve_request-pending :
      (args : ExpectedRequest) (w : World T) {w' : World T}
      → approve_request addresses T clock accounts args w ≡ ok w'
      → (w.request.request_state ≡ pending) × (w.request.asset_mint_address ≡ w.vault.asset_mint)
  unfolding approve_request
  approve_request-pending args w h =
      let (escrow, _, h1) = >>=-eq-ok (required accounts.pending_vault) _ h in
      let (context, checked, _) =
        >>=-eq-ok (check_approval addresses T clock accounts args escrow w) _ h1 in
      let (_, _, state, mint) =
        check_approval-eq_ok addresses T clock accounts args escrow w checked in
      (state, mint)

  -- An approved request cannot be approved again, cancelled by any of the three instructions for
  -- that, rejected or skipped.
  pub approved_request-final :
      (args : ExpectedRequest) (w w' : World T)
      → w.request.request_state ≡ claimable
      → (approve_request addresses T clock accounts args w ≢ ok w')
        × (cancel_request addresses T accounts w ≢ ok w')
        × (reject_request addresses T accounts args w ≢ ok w')
        × (cancel_queued_deposit_request addresses T accounts w ≢ ok w')
        × (cancel_queued_redemption_request addresses T accounts w ≢ ok w')
        × (skip_canceled_queue_request addresses T accounts w ≢ ok w')
  unfolding cancel_request reject_request cancel_queued_deposit_request
      cancel_queued_redemption_request skip_canceled_queue_request
  approved_request-final args w w' approved = (
    λ h. (let (state, _) = approve_request-pending args w h in ground arith),
    λ h. ground arith,
    λ h. ground arith,
    λ h. ground arith,
    λ h. ground arith,
    λ h. ground arith,
  )

  -- A redemption in a secondary asset that has a queue number is neither approved nor cancelled
  -- by any of the three instructions for that, whichever accounts the call names.
  pub queued_secondary_redemption-stuck :
      (args : ExpectedRequest) (w w' : World T) (id : ℕ)
      → w.request.request_type ≡ redeem
      → w.request.asset_mint_address ≢ w.vault.asset_mint
      → w.ids.redemption ≡ some id
      → (approve_request addresses T clock accounts args w ≢ ok w')
        × (cancel_request addresses T accounts w ≢ ok w')
        × (cancel_queued_redemption_request addresses T accounts w ≢ ok w')
  unfolding cancel_request cancel_queued_redemption_request validate_queue_extension_constraints
  queued_secondary_redemption-stuck args w w' id is_redeem other queued =
      (λ h. other (approve_request-pending args w h).1, λ h. ground arith, λ h. ground arith)
