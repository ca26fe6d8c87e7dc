-- ===== src/Requests/Payout.antt =====
-- What an approval pays, and what it changes of the vault's balance.
use solana_vault_v.Base.{ℕ, ◌+◌, ◌*◌, ◌/◌, ◌^◌, ◌≤◌, ◌<◌, ◌≡◌, ◌⊎◌, sym, ok, arith, ltb, >>=-eq-ok}
use solana_vault_v.State.{redeem, Pubkey, deposit, claimable}
use solana_vault_v.Error.{require, insufficient_deposit_amount}
use solana_vault_v.Fee.{get_fee_and_net}
use solana_vault_v.Fee.Bounds.{get_fee_and_net-conserves}
use solana_vault_v.Fee.Charge.{IsExtensionFee, get_fee_and_net-IsExtensionFee}
use solana_vault_v.Limits.{consume_redemption_rolling_limit}
use solana_vault_v.Requests.JuniorFloor.{
  maybe_enforce_junior_ratio_floor, update_tranche_supply_cache,
}
use solana_vault_v.Pricing.{calculate_shares, calculate_assets}
use solana_vault_v.Pricing.RoundTrip.{calculate_shares-eq_div, calculate_assets-eq_div}
use solana_vault_v.Runtime.{Addresses, Clock}
use solana_vault_v.Runtime.Token.{TokenProgram}
use solana_vault_v.Tranche.{RequestShareMintContext, request_nav, skip_accounts}
use solana_vault_v.Requests.World.{World, RequestAccounts, close_pending_request}
use solana_vault_v.Requests.Approve.{
  Settlement, settle_deposit, settle_redeem, account_deposit, account_redeem, finish_approval,
}

module _ (addresses : Addresses) (T : TokenProgram) (clock : Clock)
    (accounts : RequestAccounts) where
  -- An approved deposit: the fee is what the vault's deposit fee extension sets for the requested
  -- amount, and a positive net amount is left of it; the request becomes claimable for the shares of
  -- that net amount at the NAV of the approval, rounded down and at least one; the net amount and no
  -- more joins the vault's balance, which stays under the cap if there is one.
  pub finish_approval-settle_deposit :
      (context : RequestShareMintContext) (escrow : Pubkey) (w : World T) {s : Settlement T}
      {w' : World T}
      → settle_deposit addresses T clock accounts context escrow w ≡ ok s
      → finish_approval addresses T clock accounts (request_nav context w.vault) w.request s ≡ ok w'
      → w.request.request_type ≡ deposit
      → let nav = request_nav context w.vault in
        (fee net : ℕ) × IsExtensionFee w.extensions.deposit_fee w.request.amount fee
        × (fee + net ≡ w.request.amount)
        × (0 < net)
        × (0 < w'.request.amount)
        × (w'.request.amount ≡ net * 10 ^ accounts.share_mint.decimals / nav)
        × (w'.request.price ≡ nav)
        × (w'.request.request_state ≡ claimable)
        × (w'.vault.total_asset_balance ≡ w.vault.total_asset_balance + net)
        × ((w.vault.deposit_cap ≡ 0) ⊎ (w'.vault.total_asset_balance ≤ w.vault.deposit_cap))
  unfolding settle_deposit finish_approval account_deposit close_pending_request
  finish_approval-settle_deposit context escrow w {s} {w'} h k is_deposit =
      let ((fee, net), fees, h1) =
        >>=-eq-ok (get_fee_and_net w.extensions.deposit_fee w.request.amount) _ h in
      let (_, net_pos, h2) = >>=-eq-ok (require (ltb 0 net) insufficient_deposit_amount) _ h1 in
      let (shares, priced, h3) =
        >>=-eq-ok (calculate_shares (request_nav context w.vault) accounts.share_mint.decimals net)
          _ h2 in
      let (_, shares_pos, h4) =
        >>=-eq-ok (require (ltb 0 shares) insufficient_deposit_amount) _ h3 in
      let (nav_pos, quotient) =
        calculate_shares-eq_div (request_nav context w.vault) accounts.share_mint.decimals net
          priced in
      (
        fee,
        net,
        get_fee_and_net-IsExtensionFee w.extensions.deposit_fee w.request.amount fees,
        get_fee_and_net-conserves w.extensions.deposit_fee w.request.amount fees,
        ground arith,
        ground arith,
        ground arith,
        ground arith,
        ground arith,
        ground arith,
        ground arith,
      )

  -- An approved redemption: the assets of the burnt shares at the NAV of the approval, rounded down
  -- and at least one, leave the vault's balance; the fee is what the vault's withdrawal fee extension
  -- sets for those assets, and the request becomes claimable for what is left of them.
  pub finish_approval-settle_redeem :
      (context : RequestShareMintContext) (escrow : Pubkey) (w : World T) {s : Settlement T}
      {w' : World T}
      → settle_redeem addresses T clock accounts context escrow w ≡ ok s
      → finish_approval addresses T clock accounts (request_nav context w.vault) w.request s ≡ ok w'
      → w.request.request_type ≡ redeem
      → let nav = request_nav context w.vault in
        let assets = w.request.amount * nav / 10 ^ accounts.share_mint.decimals in
        (fee net : ℕ) × IsExtensionFee w.extensions.withdrawal_fee assets fee
        × (fee + net ≡ assets)
        × (0 < fee + net)
        × (w'.request.amount ≡ net)
        × (w'.request.price ≡ nav)
        × (w'.request.request_state ≡ claimable)
        × (w'.vault.total_asset_balance + fee + net ≡ w.vault.total_asset_balance)
  unfolding settle_redeem finish_approval account_redeem close_pending_request
      consume_redemption_rolling_limit
  finish_approval-settle_redeem context escrow w {s} {w'} h k is_redeem =
      let (assets, priced, h1) =
        >>=-eq-ok
          (calculate_assets (request_nav context w.vault) accounts.share_mint.decimals
            w.request.amount)
          _ h in
      let (pos, quotient) =
        calculate_assets-eq_div (request_nav context w.vault) accounts.share_mint.decimals
          w.request.amount priced in
      let (left, _, h2) =
        >>=-eq-ok
          (maybe_enforce_junior_ratio_floor addresses w.vault accounts.share_mint.key redeem
            w.request.amount context.tranche_info
            (skip_accounts context.consumed_accounts w.remaining))
          _ h1 in
      let (remaining', _, h3) =
        >>=-eq-ok
          (update_tranche_supply_cache accounts.share_mint.key redeem w.request.amount
            accounts.share_mint.supply context.tranche_info w.remaining)
          _ h2 in
      let ((fee, net), fees, h4) =
        >>=-eq-ok (get_fee_and_net w.extensions.withdrawal_fee assets) _ h3 in
      let sum = get_fee_and_net-conserves w.extensions.withdrawal_fee assets fees in
      let charged = get_fee_and_net-IsExtensionFee w.extensions.withdrawal_fee assets fees in
      (
        fee,
        net,
        rw (sym quotient) charged,
        ground arith,
        ground arith,
        ground arith,
        ground arith,
        ground arith,
        ground arith,
      )
