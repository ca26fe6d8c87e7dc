-- ===== src/Instant/Steps.antt =====
-- The steps of a successful instant settlement: what it is priced at and what it pays.
use solana_vault_v.Base.{
  ℕ, ok, ◌+◌, ◌-◌, ◌≤◌, ◌<◌, ◌≡◌, ap, ◌∙◌, arith, ◌==◌, Bool-cases, inl, inr, ltb, leb, Option,
  ◌>>=◌, checked_sub, >>=-eq-ok,
}
use native.Mathlib.Nat.{mul-zero}
use solana_vault_v.Error.{
  AsyncVaultError, require, exact, insufficient_deposit_amount, insufficient_liquidity,
}
use solana_vault_v.State.{⊤, Vault, assert_deposit_cap_allows}
use solana_vault_v.Extensions.{Extensions, assert_deposit_amount, assert_redeem_shares}
use solana_vault_v.Fee.{get_extension_fee, get_fee_and_net}
use solana_vault_v.Fee.Bounds.{get_fee_and_net-conserves}
use solana_vault_v.Fee.Charge.{
  IsExtensionFee, IsPercentage, get_fee-IsPercentage, get_extension_fee-IsExtensionFee,
}
use solana_vault_v.Pricing.{calculate_shares, calculate_assets}
use solana_vault_v.Limits.{consume_redemption_rolling_limit}
use solana_vault_v.Runtime.{Addresses, Clock}
use solana_vault_v.Runtime.Token.{TokenProgram}
use solana_vault_v.Instant.Users.{UserAccount}
use solana_vault_v.Instant.Fees.{InstantWorld, InstantAccounts}
use solana_vault_v.Instant.Deposit.{
  check_instant, check_instant_nav, count_deposit, price_deposit, move_deposit, instant_deposit,
}
use solana_vault_v.Instant.Redeem.{
  count_redeem, instant_fee, price_redeem, move_redeem, instant_redeem,
}

pub consume_redemption_rolling_limit-keeps :
    (v : Vault) (amount slot : ℕ) {v' : Vault}
    → consume_redemption_rolling_limit v amount slot ≡ ok v'
    → (v'.total_asset_balance ≡ v.total_asset_balance)
      × (v'.pending_vault ≡ v.pending_vault)
      × (v'.pending_deposit_amount ≡ v.pending_deposit_amount)
      × (v'.pending_async_requests ≡ v.pending_async_requests)
unfolding consume_redemption_rolling_limit
consume_redemption_rolling_limit-keeps v amount slot h = ground arith

module _ (addresses : Addresses) (T : TokenProgram) (clock : Clock)
    (accounts : InstantAccounts) where
  open T use {Tokens, balance, supply}
  open accounts use {share_mint, vault_token_account, user_asset_account, user_share_account}

  -- The steps of a successful deposit that price and pay it.
  pub instant_deposit-steps :
      (amount : ℕ) (w : InstantWorld T) {w' : InstantWorld T}
      → instant_deposit addresses T clock accounts amount w ≡ ok w'
      → (fee net shares : ℕ) × (price_deposit addresses T clock accounts w.vault w.extensions amount
          ≡ ok (fee, net, shares))
        × (move_deposit addresses T clock accounts w.vault fee net shares w.tokens ≡ ok w'.tokens)
        × (w'.vault ≡ record (w.vault) { total_asset_balance = w.vault.total_asset_balance + net })
        × (w'.extensions ≡ w.extensions)
  unfolding instant_deposit
  instant_deposit-steps amount w {w'} h =
      let (s, _, h1) =
        >>=-eq-ok (check_instant addresses T clock accounts w.vault w.extensions) _ h in
      let (_, _, h2) = >>=-eq-ok (assert_deposit_amount s amount) _ h1 in
      let (_, _, h3) = >>=-eq-ok (check_instant_nav addresses T clock accounts w.vault) _ h2 in
      let (counted, _, h4) =
        >>=-eq-ok (count_deposit addresses T clock accounts s w.vault amount w.instant_user) _ h3 in
      let (_, _, h5) = >>=-eq-ok (assert_deposit_cap_allows w.vault amount) _ h4 in
      let ((fee, net, shares), priced, h6) =
        >>=-eq-ok (price_deposit addresses T clock accounts w.vault w.extensions amount) _ h5 in
      let (moved, paid, h7) =
        >>=-eq-ok (move_deposit addresses T clock accounts w.vault fee net shares w.tokens) _ h6 in
      (fee, net, shares, priced, ground arith, ground arith, ground arith)

  pub price_deposit-eq_ok :
      (v : Vault) (e : Extensions) (amount : ℕ) {p : ℕ × ℕ × ℕ}
      → price_deposit addresses T clock accounts v e amount ≡ ok p
      → let (fee, net, shares) = p in
        (fee + net ≡ amount)
        × (0 < net)
        × (0 < shares)
        × (get_fee_and_net e.deposit_fee amount ≡ ok (fee, net))
        × (calculate_shares v.nav share_mint.decimals net ≡ ok shares)
  unfolding price_deposit
  price_deposit-eq_ok v e amount h =
      let ((fee, net), fees, h1) = >>=-eq-ok (get_fee_and_net e.deposit_fee amount) _ h in
      let (_, net_pos, h2) = >>=-eq-ok (require (ltb 0 net) insufficient_deposit_amount) _ h1 in
      let (shares, priced, h3) = >>=-eq-ok (calculate_shares v.nav share_mint.decimals net) _ h2 in
      let (_, shares_pos, h4) =
        >>=-eq-ok (require (ltb 0 shares) insufficient_deposit_amount) _ h3 in
      let sum = get_fee_and_net-conserves e.deposit_fee amount fees in ground arith

  require-leb : (a b : ℕ) (e : AsyncVaultError) {u : ⊤} → require (leb a b) e ≡ ok u → a ≤ b
  require-leb a b e h = ground arith

  -- The last step of a redemption.
  redeem_total-eq_ok :
      (w : InstantWorld T) (v : Vault) (gross : ℕ) (counted : Option UserAccount) (moved : Tokens)
      {w' : InstantWorld T}
      → (exact (checked_sub v.total_asset_balance gross) >>= (λ total. ok (record w {
        vault = record v { total_asset_balance = total };
        instant_user = counted;
        tokens = moved;
      })))
        ≡ ok w'
      → (moved ≡ w'.tokens)
        × (w'.vault ≡ record v { total_asset_balance = v.total_asset_balance - gross })
        × (gross ≤ v.total_asset_balance)
  redeem_total-eq_ok w v gross counted moved h = ground arith

  -- The steps of a successful redemption that price and pay it.
  pub instant_redeem-steps :
      (shares : ℕ) (w : InstantWorld T) {w' : InstantWorld T}
      → instant_redeem addresses T clock accounts shares w ≡ ok w'
      → (gross fee net : ℕ) × (v : Vault) × (calculate_assets w.vault.nav share_mint.decimals shares
          ≡ ok gross)
        × (gross ≤ balance w.tokens vault_token_account)
        × (price_redeem addresses T clock accounts w.vault w.extensions gross ≡ ok (fee, net))
        × (consume_redemption_rolling_limit w.vault gross clock.slot ≡ ok v)
        × (move_redeem addresses T clock accounts v shares fee net w.tokens ≡ ok w'.tokens)
        × (w'.vault ≡ record v { total_asset_balance = v.total_asset_balance - gross })
        × (gross ≤ v.total_asset_balance)
  unfolding instant_redeem
  instant_redeem-steps shares w {w'} h =
      let (s, _, h1) =
        >>=-eq-ok (check_instant addresses T clock accounts w.vault w.extensions) _ h in
      let (_, _, h2) = >>=-eq-ok (assert_redeem_shares s shares) _ h1 in
      let (_, _, h3) = >>=-eq-ok (check_instant_nav addresses T clock accounts w.vault) _ h2 in
      let (counted, _, h4) =
        >>=-eq-ok (count_redeem addresses T clock accounts s w.vault shares w.instant_user) _ h3 in
      let (gross, converted, h5) =
        >>=-eq-ok (calculate_assets w.vault.nav share_mint.decimals shares) _ h4 in
      let (_, liquid, h6) =
        >>=-eq-ok
          (require (leb gross (balance w.tokens vault_token_account)) insufficient_liquidity) _
          h5 in
      let ((fee, net), priced, h7) =
        >>=-eq-ok (price_redeem addresses T clock accounts w.vault w.extensions gross) _ h6 in
      let (v, consumed, h8) =
        >>=-eq-ok (consume_redemption_rolling_limit w.vault gross clock.slot) _ h7 in
      let (moved, paid, h9) =
        >>=-eq-ok (move_redeem addresses T clock accounts v shares fee net w.tokens) _ h8 in
      let (moved_to, vault', enough) = redeem_total-eq_ok w v gross counted moved h9 in
      (
        gross,
        fee,
        net,
        v,
        converted,
        require-leb gross (balance w.tokens vault_token_account) insufficient_liquidity liquid,
        priced,
        consumed,
        paid ∙ ap ok moved_to,
        vault',
        enough,
      )

  instant_fee-IsPercentage :
      (v : Vault) (gross : ℕ) {fee : ℕ}
      → instant_fee addresses T clock accounts v gross ≡ ok fee
      → IsPercentage v.instant_redemption_fee_bps gross fee
  unfolding instant_fee
  instant_fee-IsPercentage v gross {fee} h = elim (Bool-cases (v.instant_redemption_fee_bps == 0)) [
    | inl none_set ↦ ground (arith, mul-zero gross)
    | inr set ↦ get_fee-IsPercentage v.instant_redemption_fee_bps gross (ground arith)
  ]

  -- The total fee of a redemption is the withdrawal fee and the fee for settling at once.
  pub price_redeem-eq_ok :
      (v : Vault) (e : Extensions) (gross : ℕ) {fee net : ℕ}
      → price_redeem addresses T clock accounts v e gross ≡ ok (fee, net)
      → (withdrawal early : ℕ) × IsExtensionFee e.withdrawal_fee gross withdrawal
        × IsPercentage v.instant_redemption_fee_bps gross early
        × (fee ≡ withdrawal + early)
        × (fee + net ≡ gross)
        × (0 < net)
  unfolding price_redeem
  price_redeem-eq_ok v e gross {fee} {net} h =
      let (withdrawal, stored, h1) = >>=-eq-ok (get_extension_fee e.withdrawal_fee gross) _ h in
      let (early, computed, h2) = >>=-eq-ok (instant_fee addresses T clock accounts v gross) _ h1 in
      (
        withdrawal,
        early,
        get_extension_fee-IsExtensionFee e.withdrawal_fee gross stored,
        instant_fee-IsPercentage v gross computed,
        ground arith,
        ground arith,
        ground arith,
      )
