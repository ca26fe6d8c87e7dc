-- ===== src/Instant/Deposit.antt =====
-- An instant deposit (the handler of programs/async_vault_v2/src/instructions/instant_deposit.rs).
use solana_vault_v.Base.{
  ℕ, not, Option, some, ok, ◌>>=◌, ◌>>◌, ltb, ◌==◌, if◌then◌else◌, is_some, u64_max, checked_add,
}
use solana_vault_v.Error.{
  Outcome, require, or_fail, exact, unsupported_phase_config, nav_is_not_set,
  insufficient_deposit_amount, missing_required_account, invalid_asset_mint, invalid_share_mint,
  invalid_vault,
}
use solana_vault_v.State.{
  ⊤, Vault, require_keys_eq, assert_unpaused_and_initialized, assert_nav_not_stale,
  assert_deposit_cap_allows,
}
use solana_vault_v.Extensions.{
  Extensions, InstantSettlement, assert_instant_settlement_enabled,
  assert_instant_settlement_safety_guards, assert_deposit_amount,
}
use solana_vault_v.Fee.{get_fee_and_net, split_protocol_fee}
use solana_vault_v.Pricing.{calculate_shares}
use solana_vault_v.Limits.{consume_deposit_limit}
use solana_vault_v.Runtime.{Addresses, Clock, validate_asset_mint_extensions}
use solana_vault_v.Runtime.Token.{TokenProgram}
use solana_vault_v.Requests.World.{transfer_checked, mint_shares}
use solana_vault_v.Instant.Users.{UserAccount, load_or_init_instant_settlement_user, written}
use solana_vault_v.Instant.Fees.{InstantWorld, InstantAccounts, pay_fee_recipient, pay_protocol}

module _ (addresses : Addresses) (T : TokenProgram) (clock : Clock)
    (accounts : InstantAccounts) where
  open accounts use {
    user, asset_mint, share_mint, vault_key, instant_user_bump, vault_token_account,
    user_asset_account, user_share_account,
  }

  -- The accounts are the vault's (`has_one` and the constraint on its token account), the vault is
  -- open for instant settlement, and its NAV is set and not stale. The redemption starts alike.
  unfoldable pub check_instant : Vault → Extensions → Outcome InstantSettlement
  check_instant v e = do
    require_keys_eq v.asset_mint asset_mint.key invalid_asset_mint
    require_keys_eq v.share_mint share_mint.key invalid_share_mint
    require_keys_eq v.vault_token_account vault_token_account invalid_vault
    assert_unpaused_and_initialized v
    require (not (is_some v.tranche_config)) unsupported_phase_config
    settlement ← assert_instant_settlement_enabled e
    assert_instant_settlement_safety_guards v.instant_redemption_fee_bps v.max_nav_staleness_slots
    ok settlement

  unfoldable pub check_instant_nav : Vault → Outcome ⊤
  check_instant_nav v = do
    validate_asset_mint_extensions addresses asset_mint
    require (ltb 0 v.nav) nav_is_not_set
    assert_nav_not_stale v clock.slot

  -- The user's own limit, where the vault has one.
  unfoldable pub count_deposit :
      InstantSettlement → Vault → ℕ → Option UserAccount → Outcome (Option UserAccount)
  count_deposit settlement v amount o =
      if settlement.max_user_deposit_amount == 0 then ok o else (do
        info ← or_fail o missing_required_account
        loaded ←
            load_or_init_instant_settlement_user addresses info vault_key user instant_user_bump
        counted ←
            consume_deposit_limit loaded amount clock.slot settlement.max_user_deposit_amount
              v.rolling_limit_window_slots
        ok (some (written addresses info counted)))

  -- The fee, what is left of the amount, and the shares for that at the vault's NAV.
  unfoldable pub price_deposit : Vault → Extensions → ℕ → Outcome (ℕ × ℕ × ℕ)
  price_deposit v e amount = do
    (deposit_fee, net_deposit) ← get_fee_and_net e.deposit_fee amount
    require (ltb 0 net_deposit) insufficient_deposit_amount
    shares ← calculate_shares v.nav share_mint.decimals net_deposit
    require (ltb 0 shares) insufficient_deposit_amount
    ok (deposit_fee, net_deposit, shares)

  -- The user's assets go to the fee accounts and the vault, and shares are minted to the user.
  unfoldable pub move_deposit : Vault → ℕ → ℕ → ℕ → T.Tokens → Outcome T.Tokens
  move_deposit v fee net shares t = do
    (protocol_fee, fee_recipient_fee) ← split_protocol_fee fee v.protocol_fee_bps
    t1 ← pay_fee_recipient addresses T accounts fee_recipient_fee user_asset_account t
    t2 ← pay_protocol addresses T accounts v protocol_fee user_asset_account t1
    t3 ← transfer_checked T t2 user_asset_account vault_token_account net
    mint_shares T t3 share_mint.key user_share_account shares

  unfoldable pub instant_deposit : ℕ → InstantWorld T → Outcome (InstantWorld T)
  instant_deposit amount w = do
    settlement ← check_instant w.vault w.extensions
    assert_deposit_amount settlement amount
    check_instant_nav w.vault
    counted ← count_deposit settlement w.vault amount w.instant_user
    assert_deposit_cap_allows w.vault amount
    (fee, net, shares) ← price_deposit w.vault w.extensions amount
    moved ← move_deposit w.vault fee net shares w.tokens
    total ← exact (checked_add u64_max w.vault.total_asset_balance net)
    ok (record w {
      vault = record (w.vault) { total_asset_balance = total };
      instant_user = counted;
      tokens = moved;
    })
