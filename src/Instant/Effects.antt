-- ===== src/Instant/Effects.antt =====
-- What an instant settlement changes.
use solana_vault_v.Base.{ℕ, ok, ◌+◌, ◌*◌, ◌/◌, ◌^◌, ◌≤◌, ◌<◌, ◌≡◌, ◌≢◌, arith}
use solana_vault_v.Fee.Charge.{IsExtensionFee, get_fee_and_net-IsExtensionFee}
use solana_vault_v.Pricing.RoundTrip.{calculate_shares-eq_div}
use solana_vault_v.Runtime.{Addresses, Clock}
use solana_vault_v.Runtime.Token.{TokenProgram}
use solana_vault_v.Instant.Fees.{InstantWorld, InstantAccounts}
use solana_vault_v.Instant.Deposit.{instant_deposit}
use solana_vault_v.Instant.Tokens.{move_deposit-keeps, move_deposit-credits}
use solana_vault_v.Instant.Steps.{instant_deposit-steps, price_deposit-eq_ok}

module _ (addresses : Addresses) (T : TokenProgram) (clock : Clock)
    (accounts : InstantAccounts) where
  open T use {Tokens, balance, supply}
  open accounts use {share_mint, vault_token_account, user_asset_account, user_share_account}

  -- A successful instant deposit: the fee is what the vault's deposit fee extension sets for the
  -- amount, and a positive net amount is left of it; the shares minted are the net amount at the
  -- vault's NAV, rounded down and at least one; the vault's balance grows by the net amount, and so
  -- does its token account, at least, when the user pays from another one; and the user's asset
  -- account loses no more than the amount.
  pub instant_deposit-eq_ok :
      (amount : ℕ) (w : InstantWorld T) {w' : InstantWorld T}
      → instant_deposit addresses T clock accounts amount w ≡ ok w'
      → vault_token_account ≢ user_asset_account
      → (fee net : ℕ) × IsExtensionFee w.extensions.deposit_fee amount fee
        × (fee + net ≡ amount)
        × (0 < net)
        × (0 < net * 10 ^ share_mint.decimals / w.vault.nav)
        × (supply w'.tokens share_mint.key
            ≡ supply w.tokens share_mint.key + net * 10 ^ share_mint.decimals / w.vault.nav)
        × (w'.vault.total_asset_balance ≡ w.vault.total_asset_balance + net)
        × (balance w.tokens vault_token_account + net ≤ balance w'.tokens vault_token_account)
        × (balance w.tokens user_asset_account ≤ balance w'.tokens user_asset_account + amount)
  instant_deposit-eq_ok amount w {w'} h other =
      let (fee, net, shares, priced, paid, vault', _) =
        instant_deposit-steps addresses T clock accounts amount w h in
      let (sum, net_pos, shares_pos, fees, converted) =
        price_deposit-eq_ok addresses T clock accounts w.vault w.extensions amount priced in
      let (nav_pos, quotient) =
        calculate_shares-eq_div w.vault.nav share_mint.decimals net converted in
      let (spent, minted) =
        move_deposit-keeps addresses T clock accounts w.vault fee net shares user_asset_account
          w.tokens paid in
      let received =
        move_deposit-credits addresses T clock accounts w.vault fee net shares w.tokens paid
          other in
      (
        fee,
        net,
        get_fee_and_net-IsExtensionFee w.extensions.deposit_fee amount fees,
        sum,
        net_pos,
        ground arith,
        ground arith,
        ground arith,
        received,
        ground (arith, spent, sum),
      )
