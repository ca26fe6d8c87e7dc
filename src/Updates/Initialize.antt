-- ===== src/Updates/Initialize.antt =====
-- Adding an extension to a vault that is not open yet
-- (programs/async_vault_v2/src/extensions/*/instructions/initialize_*.rs).
use solana_vault_v.Base.{ℕ, Bool, true, false, not, ◌++◌, ◌||◌, ok, ◌>>=◌, ◌>>◌, leb, ◌==◌, is_some}
use solana_vault_v.Bytes.{Bytes, zeros}
use solana_vault_v.Error.{
  Outcome, require, or_math, unauthorized_signer, fee_bps_exceeded, unsupported_phase_config,
  invalid_instant_settlement_threshold_config,
}
use solana_vault_v.Fee.{FeeType, max_bps, validate, from_fee_type}
use solana_vault_v.Queue.{FifoQueue}
use solana_vault_v.Extensions.{assert_instant_settlement_safety_guards}
use solana_vault_v.State.{⊤, Pubkey, Vault}
use solana_vault_v.Tlv.Types.{tlv_len}
use solana_vault_v.Tlv.Storage.{VaultExtension, init_vault_extension}
use solana_vault_v.Tlv.Instances.{
  pausable_subscriptions_extension, pausable_redemptions_extension, externally_managed_extension,
  min_subscription_extension, min_redemption_extension, subscription_queue_extension,
  redemption_queue_extension, deposit_fee_extension, withdrawal_fee_extension,
  instant_settlement_extension,
}

-- `paused as u8`
abbrev pub byte_of : Bool → ℕ
byte_of false = 0
byte_of true = 1

-- `SubscriptionQueue::zeroed()`
abbrev pub zeroed_queue : FifoQueue
zeroed_queue = record { total = 0; last_processed = 0 }

-- `fee.validate()` with its error turned into the program's.
abbrev pub validate_fee : FeeType → Outcome ⊤
validate_fee fee = or_math (validate fee)

unfoldable pub validate_instant_settlement_thresholds : ℕ → ℕ → ℕ → ℕ → Outcome ⊤
validate_instant_settlement_thresholds min_deposit max_deposit min_redeem max_redeem = do
  require (max_deposit == 0 || leb min_deposit max_deposit)
      invalid_instant_settlement_threshold_config
  require (max_redeem == 0 || leb min_redeem max_redeem) invalid_instant_settlement_threshold_config

pub record InitializeInstantSettlementArgs : Type 0 where
  pub instant_redemption_fee_bps : ℕ  -- u16
  pub min_deposit_amount : ℕ  -- u64
  pub max_deposit_amount : ℕ  -- u64
  pub min_redeem_shares : ℕ  -- u64
  pub max_redeem_shares : ℕ  -- u64
  pub max_user_deposit_amount : ℕ  -- u64
  pub max_user_redeem_shares : ℕ  -- u64

module _ (tlv_start : ℕ) (authority : Pubkey) (v : Vault) where
  -- The constraint on the accounts of every `initialize_*` call.
  unfoldable pub init_accounts : Outcome ⊤
  init_accounts = require (authority == v.curator) unauthorized_signer

  -- The vault's account grows by the extension's size, which the runtime fills with zeros, and the
  -- handler stores the extension.
  unfoldable pub init_extension : {E : Type 0} → VaultExtension E → Bytes → E → Outcome Bytes
  init_extension extension account_data value =
      init_vault_extension tlv_start extension
        (account_data ++ zeros (tlv_len extension.extension_type)) v value

  unfoldable pub initialize_deposit_fee : Bytes → FeeType → Outcome Bytes
  initialize_deposit_fee account_data fee =
      init_accounts
      >> validate_fee fee
      >> init_extension deposit_fee_extension account_data (from_fee_type fee)

  unfoldable pub initialize_withdrawal_fee : Bytes → FeeType → Outcome Bytes
  initialize_withdrawal_fee account_data fee =
      init_accounts
      >> validate_fee fee
      >> init_extension withdrawal_fee_extension account_data (from_fee_type fee)

  unfoldable pub initialize_min_subscription : Bytes → ℕ → Outcome Bytes
  initialize_min_subscription account_data threshold =
      init_accounts >> init_extension min_subscription_extension account_data threshold

  unfoldable pub initialize_min_redemption : Bytes → ℕ → Outcome Bytes
  initialize_min_redemption account_data threshold =
      init_accounts >> init_extension min_redemption_extension account_data threshold

  unfoldable pub initialize_pausable_subscriptions : Bytes → Bool → Outcome Bytes
  initialize_pausable_subscriptions account_data paused =
      init_accounts >> init_extension pausable_subscriptions_extension account_data (byte_of paused)

  unfoldable pub initialize_pausable_redemptions : Bytes → Bool → Outcome Bytes
  initialize_pausable_redemptions account_data paused =
      init_accounts >> init_extension pausable_redemptions_extension account_data (byte_of paused)

  unfoldable pub initialize_subscription_queue : Bytes → Outcome Bytes
  initialize_subscription_queue account_data =
      init_accounts >> init_extension subscription_queue_extension account_data zeroed_queue

  unfoldable pub initialize_redemption_queue : Bytes → Outcome Bytes
  initialize_redemption_queue account_data =
      init_accounts >> init_extension redemption_queue_extension account_data zeroed_queue

  unfoldable pub initialize_externally_managed_withdrawals : Bytes → Outcome Bytes
  initialize_externally_managed_withdrawals account_data =
      init_accounts >> init_extension externally_managed_extension account_data 1

  -- Besides the extension the vault keeps the redemption fee.
  unfoldable pub initialize_instant_settlement :
      Bytes → InitializeInstantSettlementArgs → Outcome (Vault × Bytes)
  initialize_instant_settlement account_data args = do
    init_accounts
    require (leb args.instant_redemption_fee_bps max_bps) fee_bps_exceeded
    assert_instant_settlement_safety_guards args.instant_redemption_fee_bps
        v.max_nav_staleness_slots
    validate_instant_settlement_thresholds args.min_deposit_amount args.max_deposit_amount
        args.min_redeem_shares args.max_redeem_shares
    require (not (is_some v.tranche_config)) unsupported_phase_config
    account_data' ← init_extension instant_settlement_extension account_data (record {
      min_deposit_amount = args.min_deposit_amount;
      max_deposit_amount = args.max_deposit_amount;
      min_redeem_shares = args.min_redeem_shares;
      max_redeem_shares = args.max_redeem_shares;
      max_user_deposit_amount = args.max_user_deposit_amount;
      max_user_redeem_shares = args.max_user_redeem_shares;
      enabled = 1;
    })
    ok (record v { instant_redemption_fee_bps = args.instant_redemption_fee_bps }, account_data')
