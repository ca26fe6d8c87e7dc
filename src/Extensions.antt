-- ===== src/Extensions.antt =====
-- The optional extensions of a vault as they are read from its TLV region, and the guards that read
-- them (programs/async_vault_v2/src/extensions/*/processor.rs). An absent extension is `none`.
use solana_vault_v.Base.{ℕ, ◌||◌, ◌&&◌, Option, none, some, ok, err, ◌>>◌, leb, ltb, ◌==◌}
use solana_vault_v.Error.{
  Outcome, program, require, subscriptions_paused, redemptions_paused,
  subscription_amount_below_minimum, redemption_amount_below_minimum,
  externally_managed_withdrawals_disabled, instant_settlement_disabled,
  invalid_instant_settlement_threshold_config, instant_deposit_amount_below_minimum,
  instant_deposit_amount_above_maximum, instant_redeem_shares_below_minimum,
  instant_redeem_shares_above_maximum,
}
use solana_vault_v.Fee.{FeeData}
use solana_vault_v.State.{⊤}
use solana_vault_v.Queue.{FifoQueue}

pub record InstantSettlement : Type 0 where
  pub min_deposit_amount : ℕ  -- u64
  pub max_deposit_amount : ℕ  -- u64
  pub min_redeem_shares : ℕ  -- u64
  pub max_redeem_shares : ℕ  -- u64
  pub max_user_deposit_amount : ℕ  -- u64
  pub max_user_redeem_shares : ℕ  -- u64
  pub enabled : ℕ  -- u8

pub record Extensions : Type 0 where
  pub deposit_fee : Option FeeData
  pub withdrawal_fee : Option FeeData
  pub pausable_subscriptions : Option ℕ  -- its `paused` byte
  pub pausable_redemptions : Option ℕ  -- its `paused` byte
  pub subscription_queue : Option FifoQueue
  pub redemption_queue : Option FifoQueue
  pub min_subscription : Option ℕ  -- its threshold
  pub min_redemption : Option ℕ  -- its threshold
  pub externally_managed_withdrawals : Option ℕ  -- its `enabled` byte
  pub instant_settlement : Option InstantSettlement

unfoldable pub check_subscriptions_paused : Extensions → Outcome ⊤
check_subscriptions_paused e = elim e.pausable_subscriptions [
  | none ↦ ok tt
  | some paused ↦ require (paused == 0) subscriptions_paused
]

unfoldable pub check_redemptions_paused : Extensions → Outcome ⊤
check_redemptions_paused e = elim e.pausable_redemptions [
  | none ↦ ok tt
  | some paused ↦ require (paused == 0) redemptions_paused
]

unfoldable pub check_min_subscription_amount : Extensions → ℕ → Outcome ⊤
check_min_subscription_amount e amount = elim e.min_subscription [
  | none ↦ ok tt
  | some threshold ↦ require (leb threshold amount) subscription_amount_below_minimum
]

unfoldable pub check_min_redemption_amount : Extensions → ℕ → Outcome ⊤
check_min_redemption_amount e amount = elim e.min_redemption [
  | none ↦ ok tt
  | some threshold ↦ require (leb threshold amount) redemption_amount_below_minimum
]

unfoldable pub assert_externally_managed_withdrawals_enabled : Extensions → Outcome ⊤
assert_externally_managed_withdrawals_enabled e = elim e.externally_managed_withdrawals [
  | none ↦ err (program externally_managed_withdrawals_disabled)
  | some enabled ↦ require (enabled == 1) externally_managed_withdrawals_disabled
]

unfoldable pub assert_instant_settlement_enabled : Extensions → Outcome InstantSettlement
assert_instant_settlement_enabled e = elim e.instant_settlement [
  | none ↦ err (program instant_settlement_disabled)
  | some i ↦ (do require (i.enabled == 1) instant_settlement_disabled; ok i)
]

unfoldable pub assert_instant_settlement_safety_guards : ℕ → ℕ → Outcome ⊤
assert_instant_settlement_safety_guards instant_redemption_fee_bps max_nav_staleness_slots =
    require (ltb 0 instant_redemption_fee_bps && ltb 0 max_nav_staleness_slots)
      invalid_instant_settlement_threshold_config

unfoldable pub assert_deposit_amount : InstantSettlement → ℕ → Outcome ⊤
assert_deposit_amount i amount = do
  require (i.min_deposit_amount == 0 || leb i.min_deposit_amount amount)
      instant_deposit_amount_below_minimum
  require (i.max_deposit_amount == 0 || leb amount i.max_deposit_amount)
      instant_deposit_amount_above_maximum

unfoldable pub assert_redeem_shares : InstantSettlement → ℕ → Outcome ⊤
assert_redeem_shares i shares = do
  require (i.min_redeem_shares == 0 || leb i.min_redeem_shares shares)
      instant_redeem_shares_below_minimum
  require (i.max_redeem_shares == 0 || leb shares i.max_redeem_shares)
      instant_redeem_shares_above_maximum
