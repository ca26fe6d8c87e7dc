-- ===== src/Instant/Redeem.antt =====
-- An instant redemption (the handler of programs/async_vault_v2/src/instructions/instant_redeem.rs).
use solana_vault_v.Base.{
  ℕ, Option, some, ok, ◌>>=◌, ◌>>◌, ltb, leb, ◌==◌, if◌then◌else◌, u64_max, checked_add,
  checked_sub,
}
use solana_vault_v.Error.{
  Outcome, require, or_fail, or_math, exact, insufficient_liquidity, insufficient_redeem_amount,
  missing_required_account,
}
use solana_vault_v.State.{Vault}
use solana_vault_v.Extensions.{Extensions, InstantSettlement, assert_redeem_shares}
use solana_vault_v.Fee.{percentage, get_fee, get_extension_fee, split_protocol_fee}
use solana_vault_v.Pricing.{calculate_assets}
use solana_vault_v.Limits.{consume_redeem_limit, consume_redemption_rolling_limit}
use solana_vault_v.Runtime.{Addresses, Clock}
use solana_vault_v.Runtime.Token.{TokenProgram}
use solana_vault_v.Requests.World.{transfer_checked, burn_shares}
use solana_vault_v.Instant.Users.{UserAccount, load_or_init_instant_settlement_user, written}
use solana_vault_v.Instant.Fees.{InstantWorld, InstantAccounts, pay_fee_recipient, pay_protocol}
use solana_vault_v.Instant.Deposit.{check_instant, check_instant_nav}

module _ (addresses : Addresses) (T : TokenProgram) (clock : Clock)
    (accounts : InstantAccounts) where
  open accounts use {
    user, share_mint, vault_key, instant_user_bump, vault_token_account, user_asset_account,
    user_share_account,
  }

  -- The user's own limit, where the vault has one.
  unfoldable pub count_redeem :
      InstantSettlement → Vault → ℕ → Option UserAccount → Outcome (Option UserAccount)
  count_redeem settlement v shares o = if settlement.max_user_redeem_shares == 0 then ok o else (do
    info ← or_fail o missing_required_account
    loaded ← load_or_init_instant_settlement_user addresses info vault_key user instant_user_bump
    counted ←
        consume_redeem_limit loaded shares clock.slot settlement.max_user_redeem_shares
          v.rolling_limit_window_slots
    ok (some (written addresses info counted)))

  -- The fee for settling at once.
  unfoldable pub instant_fee : Vault → ℕ → Outcome ℕ
  instant_fee v gross_assets =
      if v.instant_redemption_fee_bps == 0
      then ok 0
      else or_math (get_fee (percentage v.instant_redemption_fee_bps) gross_assets)

  -- Both fees together, and what is left of the assets.
  unfoldable pub price_redeem : Vault → Extensions → ℕ → Outcome (ℕ × ℕ)
  price_redeem v e gross_assets = do
    withdrawal_fee ← get_extension_fee e.withdrawal_fee gross_assets
    fee ← instant_fee v gross_assets
    total_fee ← exact (checked_add u64_max withdrawal_fee fee)
    net_assets ← exact (checked_sub gross_assets total_fee)
    require (ltb 0 net_assets) insufficient_redeem_amount
    ok (total_fee, net_assets)

  -- The shares are burnt, and the vault's assets go to the fee accounts and the user.
  unfoldable pub move_redeem : Vault → ℕ → ℕ → ℕ → T.Tokens → Outcome T.Tokens
  move_redeem v shares fee net t = do
    burnt ← burn_shares T t share_mint.key user_share_account shares
    (protocol_fee, fee_recipient_fee) ← split_protocol_fee fee v.protocol_fee_bps
    t1 ← pay_fee_recipient addresses T accounts fee_recipient_fee vault_token_account burnt
    t2 ← pay_protocol addresses T accounts v protocol_fee vault_token_account t1
    transfer_checked T t2 vault_token_account user_asset_account net

  unfoldable pub instant_redeem : ℕ → InstantWorld T → Outcome (InstantWorld T)
  instant_redeem shares w = do
    settlement ← check_instant addresses T clock accounts w.vault w.extensions
    assert_redeem_shares settlement shares
    check_instant_nav addresses T clock accounts w.vault
    counted ← count_redeem settlement w.vault shares w.instant_user
    gross_assets ← calculate_assets w.vault.nav share_mint.decimals shares
    require (leb gross_assets (T.balance w.tokens vault_token_account)) insufficient_liquidity
    (fee, net) ← price_redeem w.vault w.extensions gross_assets
    v ← consume_redemption_rolling_limit w.vault gross_assets clock.slot
    moved ← move_redeem v shares fee net w.tokens
    total ← exact (checked_sub v.total_asset_balance gross_assets)
    ok (record w {
      vault = record v { total_asset_balance = total };
      instant_user = counted;
      tokens = moved;
    })
