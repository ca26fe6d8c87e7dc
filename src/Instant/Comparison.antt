-- ===== src/Instant/Comparison.antt =====
-- Instant settlement beside itself and beside the settlement of a request.
use solana_vault_v.Base.{ℕ, ok, ◌+◌, ◌-◌, ◌≤◌, ◌≡◌, ◌≢◌, ap, sym, ◌∙◌, arith, ltb, >>=-eq-ok}
use solana_vault_v.Error.{Outcome, require, insufficient_deposit_amount}
use solana_vault_v.State.{Pubkey, RequestType, deposit, redeem}
use solana_vault_v.Fee.{get_fee_and_net}
use solana_vault_v.Pricing.{calculate_shares, calculate_assets}
use solana_vault_v.Pricing.RoundTrip.{calculate_assets-calculate_shares}
use solana_vault_v.Runtime.{Addresses, Clock}
use solana_vault_v.Runtime.Token.{TokenProgram}
use solana_vault_v.Tranche.{RequestShareMintContext, request_nav}
use solana_vault_v.Requests.{
  Settlement, settle_deposit, finish_approval, account_deposit, close_pending_request,
}
use solana_vault_v.Requests.World.{World, RequestAccounts}
use solana_vault_v.Instant.Fees.{InstantWorld, InstantAccounts}
use solana_vault_v.Instant.Deposit.{instant_deposit}
use solana_vault_v.Instant.Redeem.{instant_redeem}
use solana_vault_v.Instant.Steps.{
  instant_deposit-steps, instant_redeem-steps, price_deposit-eq_ok,
  consume_redemption_rolling_limit-keeps,
}
use solana_vault_v.Instant.Tokens.{move_deposit-keeps, move_redeem-keeps}

module _ (addresses : Addresses) (T : TokenProgram) (accounts : InstantAccounts) where
  open T use {Tokens, balance, supply}
  open accounts use {share_mint, vault_token_account, user_asset_account, user_share_account}

  -- Shares that an instant deposit minted, redeemed at once at a later time with the same NAV, leave
  -- as many shares as before and the vault's balance no smaller: the round trip takes nothing from
  -- the other holders.
  pub instant_redeem-instant_deposit :
      (clock clock' : Clock) (amount shares : ℕ) (w : InstantWorld T) {w1 w2 : InstantWorld T}
      → instant_deposit addresses T clock accounts amount w ≡ ok w1
      → supply w1.tokens share_mint.key ≡ supply w.tokens share_mint.key + shares
      → instant_redeem addresses T clock' accounts shares w1 ≡ ok w2
      → (supply w2.tokens share_mint.key ≡ supply w.tokens share_mint.key)
        × (w.vault.total_asset_balance ≤ w2.vault.total_asset_balance)
  instant_redeem-instant_deposit clock clock' amount shares w {w1} {w2} h minted k =
      let (fee, net, shares', priced, paid, vault', _) =
        instant_deposit-steps addresses T clock accounts amount w h in
      let (_, _, _, _, to_shares) =
        price_deposit-eq_ok addresses T clock accounts w.vault w.extensions amount priced in
      let (_, more) =
        move_deposit-keeps addresses T clock accounts w.vault fee net shares' user_share_account
          w.tokens paid in
      let (gross, fee', net', v, to_assets, _, _, consumed, paid', vault'', enough) =
        instant_redeem-steps addresses T clock' accounts shares w1 k in
      let (same_total, _, _, _) =
        consume_redemption_rolling_limit-keeps w1.vault gross clock'.slot consumed in
      let (_, fewer) =
        move_redeem-keeps addresses T clock' accounts v shares fee' net' user_share_account
          w1.tokens paid' in
      let total : w2.vault.total_asset_balance ≡ v.total_asset_balance - gross =
        ap (λ u. u.total_asset_balance) vault'' in
      let all : shares' ≡ shares = omega arith in
      let nav : w1.vault.nav ≡ w.vault.nav = ap (λ u. u.nav) vault' in
      let grown : w1.vault.total_asset_balance ≡ w.vault.total_asset_balance + net =
        ap (λ u. u.total_asset_balance) vault' in
      let back : calculate_assets w.vault.nav share_mint.decimals shares' ≡ ok gross =
        rw (all, sym nav) to_assets in
      let (bounded, _) =
        calculate_assets-calculate_shares w.vault.nav share_mint.decimals net to_shares back in
      (omega arith, omega arith)

  -- Either instant settlement of an amount.
  abbrev pub instant : Clock → RequestType → ℕ → InstantWorld T → Outcome (InstantWorld T)
  instant clock deposit amount w = instant_deposit addresses T clock accounts amount w
  instant clock redeem shares w = instant_redeem addresses T clock accounts shares w

  -- An instant settlement takes nothing from any token account but the user's two and the vault's
  -- own (the escrow account of pending requests among them), and changes neither the reserved
  -- deposits nor the number of pending requests.
  pub instant-others :
      (clock : Clock) (t : RequestType) (amount : ℕ) (w : InstantWorld T) (k : Pubkey)
      {w' : InstantWorld T}
      → instant clock t amount w ≡ ok w'
      → k ≢ user_asset_account
      → k ≢ user_share_account
      → k ≢ vault_token_account
      → (balance w.tokens k ≤ balance w'.tokens k)
        × (w'.vault.pending_vault ≡ w.vault.pending_vault)
        × (w'.vault.pending_deposit_amount ≡ w.vault.pending_deposit_amount)
        × (w'.vault.pending_async_requests ≡ w.vault.pending_async_requests)
  instant-others clock deposit amount w k h not_asset not_share not_vault =
      let (fee, net, shares, _, paid, vault', _) =
        instant_deposit-steps addresses T clock accounts amount w h in
      let (kept, _) =
        move_deposit-keeps addresses T clock accounts w.vault fee net shares k w.tokens paid in
      (
        ground arith,
        ap (λ u. u.pending_vault) vault',
        ap (λ u. u.pending_deposit_amount) vault',
        ap (λ u. u.pending_async_requests) vault',
      )
  instant-others clock redeem shares w k h not_asset not_share not_vault =
      let (gross, fee, net, v, _, _, _, consumed, paid, vault', _) =
        instant_redeem-steps addresses T clock accounts shares w h in
      let (_, same_vault, same_amount, same_count) =
        consume_redemption_rolling_limit-keeps w.vault gross clock.slot consumed in
      let (kept, _) =
        move_redeem-keeps addresses T clock accounts v shares fee net k w.tokens paid in
      (
        ground arith,
        ap (λ u. u.pending_vault) vault' ∙ same_vault,
        ap (λ u. u.pending_deposit_amount) vault' ∙ same_amount,
        ap (λ u. u.pending_async_requests) vault' ∙ same_count,
      )

module _ (addresses : Addresses) (T : TokenProgram) (accounts : InstantAccounts)
    (others : RequestAccounts) where
  open T use {supply}

  -- The price that the approval of a deposit settles at.
  settle_deposit-priced :
      (clock : Clock) (context : RequestShareMintContext) (escrow : Pubkey) (w : World T)
      {s : Settlement T}
      → settle_deposit addresses T clock others context escrow w ≡ ok s
      → (fee : ℕ) × (get_fee_and_net w.extensions.deposit_fee w.request.amount
          ≡ ok (fee, s.balance_delta))
        × (calculate_shares (request_nav context w.vault) others.share_mint.decimals s.balance_delta
            ≡ ok s.claimable_amount)
        × ((s.settled).vault ≡ w.vault)
  unfolding settle_deposit
  settle_deposit-priced clock context escrow w {s} h =
      let ((fee, net), fees, h1) =
        >>=-eq-ok (get_fee_and_net w.extensions.deposit_fee w.request.amount) _ h in
      let (_, _, h2) = >>=-eq-ok (require (ltb 0 net) insufficient_deposit_amount) _ h1 in
      let (shares, priced, h3) =
        >>=-eq-ok (calculate_shares (request_nav context w.vault) others.share_mint.decimals net) _
          h2 in
      let (delta, amount, same) : (s.balance_delta ≡ net)
          × (s.claimable_amount ≡ shares)
          × ((s.settled).vault ≡ w.vault) =
        (ground arith, ground arith, ground arith) in
      (fee, rw delta fees, rw (delta, amount) priced, same)

  finish_approval-deposit :
      (clock : Clock) (w : World T) (nav : ℕ) (s : Settlement T) {w' : World T}
      → finish_approval addresses T clock others nav w.request s ≡ ok w'
      → w.request.request_type ≡ deposit
      → (w'.request.amount ≡ s.claimable_amount)
        × (w'.vault.total_asset_balance ≡ (s.settled).vault.total_asset_balance + s.balance_delta)
  unfolding finish_approval account_deposit close_pending_request
  finish_approval-deposit clock w nav s h is_deposit = (ground arith, ground arith)

  -- An instant deposit gives what the approval of a requested deposit gives: when the approved request
  -- is a deposit of the same amount, under the same deposit fee, share decimals and vault balance, and
  -- is settled at the same NAV, the shares that the instant deposit mints are as many as the approval
  -- makes claimable, and both leave the same vault balance.
  pub instant_deposit-finish_approval :
      (clock clock' : Clock) (amount : ℕ) (w : InstantWorld T) {w' : InstantWorld T}
      (context : RequestShareMintContext) (escrow : Pubkey) (r : World T) {s : Settlement T}
      {r' : World T}
      → instant_deposit addresses T clock accounts amount w ≡ ok w'
      → settle_deposit addresses T clock' others context escrow r ≡ ok s
      → finish_approval addresses T clock' others (request_nav context r.vault) r.request s ≡ ok r'
      → r.request.request_type ≡ deposit
      → r.request.amount ≡ amount
      → r.extensions.deposit_fee ≡ w.extensions.deposit_fee
      → others.share_mint.decimals ≡ accounts.share_mint.decimals
      → r.vault.total_asset_balance ≡ w.vault.total_asset_balance
      → request_nav context r.vault ≡ w.vault.nav
      → (supply w'.tokens accounts.share_mint.key
          ≡ supply w.tokens accounts.share_mint.key + r'.request.amount)
        × (w'.vault.total_asset_balance ≡ r'.vault.total_asset_balance)
  instant_deposit-finish_approval clock clock' amount w {w'} context escrow r {s} {r'} h settled
        finished is_deposit same_amount same_fee same_decimals same_total same_nav =
      let (fee, net, shares, priced, paid, vault', _) =
        instant_deposit-steps addresses T clock accounts amount w h in
      let (_, _, _, fees, converted) =
        price_deposit-eq_ok addresses T clock accounts w.vault w.extensions amount priced in
      let (_, minted) =
        move_deposit-keeps addresses T clock accounts w.vault fee net shares
          accounts.user_share_account w.tokens paid in
      let (fee', fees', converted', kept) = settle_deposit-priced clock' context escrow r settled in
      let (claimed, total) =
        finish_approval-deposit clock' r (request_nav context r.vault) s finished is_deposit in
      let grown : w'.vault.total_asset_balance ≡ w.vault.total_asset_balance + net =
        ap (λ u. u.total_asset_balance) vault' in
      let kept_total : (s.settled).vault.total_asset_balance ≡ r.vault.total_asset_balance =
        ap (λ u. u.total_asset_balance) kept in
      let fees_agree : get_fee_and_net w.extensions.deposit_fee amount
          ≡ ok (fee', s.balance_delta) =
        rw (sym same_fee, sym same_amount) fees' in
      let same_net : net ≡ s.balance_delta = ground arith in
      let converts : calculate_shares w.vault.nav accounts.share_mint.decimals net
          ≡ ok s.claimable_amount =
        rw (same_net, sym same_nav, sym same_decimals) converted' in
      let same_shares : shares ≡ s.claimable_amount = ground arith in (omega arith, omega arith)
