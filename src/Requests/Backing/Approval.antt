-- ===== src/Requests/Backing/Approval.antt =====
-- The books under `approve_request`.
use solana_vault_v.Base.{
  ℕ, List, ok, refl, >>=-eq-ok, ◌+◌, ◌≤◌, ◌≡◌, ◌≢◌, some, arith, ltb, if◌then◌else◌,
}
use solana_vault_v.State.{Pubkey, Vault, RequestType, deposit, redeem, pending}
use solana_vault_v.Fee.{get_fee_and_net}
use solana_vault_v.Fee.Bounds.{get_fee_and_net-conserves}
use solana_vault_v.Error.{require, insufficient_deposit_amount}
use solana_vault_v.Pricing.{calculate_shares}
use solana_vault_v.Limits.{consume_redemption_rolling_limit}
use solana_vault_v.Requests.Backing.Refunds.{close_pending_request-eq_ok}
use solana_vault_v.Runtime.{Addresses, Clock, AccountInfo}
use solana_vault_v.Runtime.Token.{TokenProgram}
use solana_vault_v.Requests.World.{close_pending_request, required, World, RequestAccounts}
use solana_vault_v.Requests.Approve.{
  pay_out_net, check_approval, check_settled_asset, account_settlement, settle_deposit,
  settle_redeem, settle, account_deposit, account_redeem, finish_approval, approve_request,
  Settlement,
}
use solana_vault_v.Tranche.{is_deposit, request_nav, skip_accounts, RequestShareMintContext}
use solana_vault_v.Requests.JuniorFloor.{
  maybe_enforce_junior_ratio_floor, update_tranche_supply_cache,
}
use solana_vault_v.Requests.Ordering.{check_fifo_ordering}
use solana_vault_v.Requests.Refund.{ExpectedRequest}
use solana_vault_v.Requests.Backing.{KeepsBooks}
use solana_vault_v.Requests.Backing.Payments.{pay_out_net-covers, pay_out_net-credits}

consume_redemption_rolling_limit-eq_ok :
    (v : Vault) (amount slot : ℕ) {v' : Vault}
    → consume_redemption_rolling_limit v amount slot ≡ ok v'
    → (v'.pending_vault ≡ v.pending_vault)
      × (v'.asset_mint ≡ v.asset_mint)
      × (v'.pending_async_requests ≡ v.pending_async_requests)
      × (v'.pending_deposit_amount ≡ v.pending_deposit_amount)
unfolding consume_redemption_rolling_limit
consume_redemption_rolling_limit-eq_ok v amount slot h = ground arith

account_settlement-eq_ok :
    (t : RequestType) (v : Vault) (delta amount : ℕ) {v' : Vault}
    → account_settlement t v delta amount ≡ ok v'
    → (v'.pending_vault ≡ v.pending_vault)
      × (v'.asset_mint ≡ v.asset_mint)
      × (v'.pending_async_requests ≡ v.pending_async_requests)
      × (v'.pending_deposit_amount + (if is_deposit t then amount else 0)
          ≡ v.pending_deposit_amount)
unfolding account_deposit account_redeem
account_settlement-eq_ok deposit v delta amount h = ground arith
account_settlement-eq_ok redeem v delta amount h = ground arith

module _ (addresses : Addresses) (T : TokenProgram) (clock : Clock)
    (accounts : RequestAccounts) where
  open T use {Tokens, balance}

  -- What a settlement changes of the books.
  settle-eq_ok :
      (t : RequestType) (context : RequestShareMintContext) (escrow : Pubkey) (w : World T)
      {s : Settlement T}
      → settle addresses T clock accounts t context escrow w ≡ ok s
      → accounts.vault_token_account ≢ escrow
      → ((s.settled).vault.pending_vault ≡ w.vault.pending_vault)
        × ((s.settled).vault.asset_mint ≡ w.vault.asset_mint)
        × ((s.settled).vault.pending_async_requests ≡ w.vault.pending_async_requests)
        × ((s.settled).vault.pending_deposit_amount ≡ w.vault.pending_deposit_amount)
        × (balance w.tokens escrow + (if is_deposit t then 0 else s.claimable_amount)
            ≤ balance (s.settled).tokens escrow + (if is_deposit t then w.request.amount else 0))
  unfolding settle_deposit settle_redeem
  settle-eq_ok deposit context escrow w {s} h other =
      let ((fee, net), fees, h1) =
        >>=-eq-ok (get_fee_and_net w.extensions.deposit_fee w.request.amount) _ h in
      let (_, _, h2) = >>=-eq-ok (require (ltb 0 net) insufficient_deposit_amount) _ h1 in
      let (shares, _, h3) =
        >>=-eq-ok (calculate_shares (request_nav context w.vault) accounts.share_mint.decimals net)
          _ h2 in
      let (_, _, h4) = >>=-eq-ok (require (ltb 0 shares) insufficient_deposit_amount) _ h3 in
      let (left, _, h5) =
        >>=-eq-ok
          (maybe_enforce_junior_ratio_floor addresses w.vault accounts.share_mint.key deposit shares
            context.tranche_info (skip_accounts context.consumed_accounts w.remaining))
          _ h4 in
      let (remaining', _, h6) =
        >>=-eq-ok
          (update_tranche_supply_cache accounts.share_mint.key deposit shares
            accounts.share_mint.supply context.tranche_info w.remaining)
          _ h5 in
      let (tokens', paid, h7) =
        >>=-eq-ok
          (pay_out_net addresses T clock accounts w.vault fee net escrow
            accounts.vault_token_account left w.tokens)
          _ h6 in
      ground (
        arith,
        get_fee_and_net-conserves w.extensions.deposit_fee w.request.amount fees,
        pay_out_net-covers addresses T clock accounts w.vault fee net escrow
            accounts.vault_token_account left w.tokens escrow paid,
      )
  settle-eq_ok redeem context escrow w {s} h other = grind (
    arith,
    consume_redemption_rolling_limit-eq_ok,
    λ (v : Vault) (fee net : ℕ) (l : List AccountInfo) (x y : Tokens)
          (e : pay_out_net addresses T clock accounts v fee net accounts.vault_token_account escrow
              l x
            ≡ ok y).
        pay_out_net-credits addresses T clock accounts v fee net accounts.vault_token_account escrow
          l x e,
  )

  pub check_approval-eq_ok :
      (args : ExpectedRequest) (escrow : Pubkey) (w : World T) {c : RequestShareMintContext}
      → check_approval addresses T clock accounts args escrow w ≡ ok c
      → (escrow ≡ w.vault.pending_vault)
        × (accounts.vault_token_account ≡ w.vault.vault_token_account)
        × (w.request.request_state ≡ pending)
        × (w.request.asset_mint_address ≡ w.vault.asset_mint)
  unfolding check_approval check_settled_asset
  check_approval-eq_ok args escrow w h = ground arith

  -- The last step, from the world that the settlement left.
  finish_approval-KeepsBooks :
      (t : RequestType) (context : RequestShareMintContext) (nav : ℕ) (escrow : Pubkey)
      (w w0 : World T) {s : Settlement T} {w' : World T}
      → settle addresses T clock accounts t context escrow w0 ≡ ok s
      → finish_approval addresses T clock accounts nav w.request s ≡ ok w'
      → (w0.vault ≡ w.vault) × (w0.request ≡ w.request) × (w0.tokens ≡ w.tokens)
      → w.request.request_type ≡ t
      → (escrow ≡ w.vault.pending_vault)
        × (accounts.vault_token_account ≡ w.vault.vault_token_account)
        × (w.request.request_state ≡ pending)
        × (w.request.asset_mint_address ≡ w.vault.asset_mint)
      → w.vault.vault_token_account ≢ w.vault.pending_vault
      → KeepsBooks T w w' (some w.request) (some w'.request)
  unfolding finish_approval
  finish_approval-KeepsBooks deposit context nav escrow w w0 {s} {w'} settled h same is checked
        other =
      let step = settle-eq_ok deposit context escrow w0 settled (ground arith) in
      let (v, accounted, h1) =
        >>=-eq-ok
          (account_settlement w.request.request_type (s.settled).vault s.balance_delta
            w.request.amount)
          _ h in
      let (counted, closed, h2) = >>=-eq-ok (close_pending_request v) _ h1 in
      let moved =
        account_settlement-eq_ok w.request.request_type (s.settled).vault s.balance_delta
          w.request.amount accounted in
      let left = close_pending_request-eq_ok v closed in
      record {
        same_escrow = ground arith;
        same_asset = ground arith;
        backed = ground arith;
        reserves = ground arith;
        counts = ground arith;
      }
  finish_approval-KeepsBooks redeem context nav escrow w w0 {s} {w'} settled h same is checked
        other =
      let step = settle-eq_ok redeem context escrow w0 settled (ground arith) in
      let (v, accounted, h1) =
        >>=-eq-ok
          (account_settlement w.request.request_type (s.settled).vault s.balance_delta
            w.request.amount)
          _ h in
      let (counted, closed, h2) = >>=-eq-ok (close_pending_request v) _ h1 in
      let moved =
        account_settlement-eq_ok w.request.request_type (s.settled).vault s.balance_delta
          w.request.amount accounted in
      let left = close_pending_request-eq_ok v closed in
      record {
        same_escrow = ground arith;
        same_asset = ground arith;
        backed = ground arith;
        reserves = ground arith;
        counts = ground arith;
      }

  -- An approval leaves the books balanced, when the vault's own account is not its escrow account:
  -- the assets of an approved deposit leave escrow together with the debt and the reservation, and
  -- the net assets of an approved redemption are in escrow before they are owed.
  pub approve_request-KeepsBooks :
      (args : ExpectedRequest) (w : World T) {w' : World T}
      → approve_request addresses T clock accounts args w ≡ ok w'
      → w.vault.vault_token_account ≢ w.vault.pending_vault
      → KeepsBooks T w w' (some w.request) (some w'.request)
  unfolding approve_request
  approve_request-KeepsBooks args w {w'} h other =
      let (escrow, _, h1) = >>=-eq-ok (required accounts.pending_vault) _ h in
      let (context, checked, h2) =
        >>=-eq-ok (check_approval addresses T clock accounts args escrow w) _ h1 in
      let ((e, l), _, h3) =
        >>=-eq-ok
          (check_fifo_ordering context accounts.share_mint.key w.request.request_type w.ids
            w.extensions w.remaining)
          _ h2 in
      let (s, settled, h4) =
        >>=-eq-ok
          (settle addresses T clock accounts w.request.request_type context escrow
            (record w { extensions = e; remaining = l }))
          _ h3 in
      finish_approval-KeepsBooks w.request.request_type context (request_nav context w.vault) escrow
        w (record w { extensions = e; remaining = l }) settled h4 (refl, refl, refl) refl
        (check_approval-eq_ok args escrow w checked) other
