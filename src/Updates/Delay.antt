-- ===== src/Updates/Delay.antt =====
-- What the timelock promises for extensions and fees.
use solana_vault_v.Base.{
  ℕ, ◌+◌, ◌≤◌, ◌<◌, ◌≡◌, ◌≢◌, Bool, sym, ap, ◌∙◌, List, some, ok, arith, u64_max,
}
use solana_vault_v.Bytes.{Bytes, length}
use solana_vault_v.Fee.{FeeType, FitsFee, from_fee_type, fee_type, fee_type-from_fee_type}
use solana_vault_v.State.{Pubkey, Vault}
use solana_vault_v.Tlv.Types.{type_id}
use solana_vault_v.Tlv.Region.{Entry}
use solana_vault_v.Tlv.Typed.{IsTyped}
use solana_vault_v.Tlv.Storage.{VaultExtension, read_vault_extension}
use solana_vault_v.Tlv.Persistence.{account}
use solana_vault_v.Updates.Immediate.{
  basic_extension_accounts, update_deposit_fee, update_withdrawal_fee, update_min_subscription,
  update_min_redemption, update_pausable_subscriptions, update_pausable_redemptions,
}
use solana_vault_v.Updates.Extension.{
  ExtensionUpdateArgs, PendingExtensionUpdate, write_setting, queue_extension_update,
  execute_extension_update,
}
use solana_vault_v.Updates.Fees.{
  FeeUpdateArgs, PendingFeeUpdate, write_fee, queue_fee_update, execute_fee_update,
}
use solana_vault_v.Updates.Effects.{
  fee_extension_of, extension_of, value_of, reads-update, value_of-Fits, fee_Fits,
  write_fee-fee_extension_of, write_setting-extension_of, queue_fee_update-eq_ok,
  execute_fee_update-eq_ok, queue_extension_update-eq_ok, execute_extension_update-eq_ok,
}

module _ {F : Type 0} (other : VaultExtension F) (authority vault_key slot slot' : ℕ) (v v' : Vault)
    (head : Bytes) (es : List Entry) (n : ℕ) (typed : IsTyped es) where
  -- A fee that was queued for a vault at one slot and is executed at another, on an account whose
  -- region holds entries of known types followed by zeros: it has waited for the whole delay, above
  -- zero, that the vault had when it was queued; the curator is still the one who queued it; the
  -- fee of its kind that is then read is the queued one; and every other extension reads as before.
  pub execute_fee_update-queue_fee_update :
      (args : FeeUpdateArgs) {pending : PendingFeeUpdate} {account' : Bytes}
      → FitsFee args.fee
      → type_id other.extension_type ≢ type_id (fee_extension_of args.kind).extension_type
      → queue_fee_update authority vault_key slot v args ≡ ok pending
      → execute_fee_update (length head) vault_key slot' v' (account head es n) pending
        ≡ ok account'
      → (0 < v.timelock_delay_slots)
        × (slot + v.timelock_delay_slots ≤ slot')
        × (v'.curator ≡ v.curator)
        × (read_vault_extension (length head) (fee_extension_of args.kind) account'
            ≡ ok (some (from_fee_type args.fee)))
        × (fee_type (from_fee_type args.fee) ≡ ok args.fee)
        × (read_vault_extension (length head) other account'
            ≡ read_vault_extension (length head) other (account head es n))
  execute_fee_update-queue_fee_update args {pending} {account'} fits apart queued executed =
      let (set, same) = queue_fee_update-eq_ok authority vault_key slot v args queued in
      let (_, waited, curator, wrote) =
        execute_fee_update-eq_ok (length head) vault_key slot' v' (account head es n) pending
          executed in
      let written =
        sym (write_fee-fee_extension_of (length head) args.kind (account head es n) args.fee)
        ∙ ap (λ p. write_fee (length head) p.args.kind (account head es n) p.args.fee) (sym same)
        ∙ wrote in
      let (own, others) =
        reads-update (fee_extension_of args.kind) other apart head es n (from_fee_type args.fee)
          typed (fee_Fits args.kind args.fee) written in
      (
        set,
        ground (arith, waited, same),
        ground (arith, curator, same),
        own,
        fee_type-from_fee_type args.fee fits,
        others,
      )

  -- A setting that was queued for a vault at one slot and is executed at another, on such an
  -- account: it has waited for the whole delay, above zero, that the vault had when it was queued;
  -- the curator is still the one who queued it; the extension of its kind then reads as the queued
  -- threshold or pause; and every other extension reads as before.
  pub execute_extension_update-queue_extension_update :
      (args : ExtensionUpdateArgs) (account_data : Bytes) {pending : PendingExtensionUpdate}
      {account' : Bytes}
      → args.threshold ≤ u64_max
      → type_id other.extension_type ≢ type_id (extension_of args.kind).extension_type
      → queue_extension_update (length head) authority vault_key slot v account_data args
        ≡ ok pending
      → execute_extension_update (length head) vault_key slot' v' (account head es n) pending
        ≡ ok account'
      → (0 < v.timelock_delay_slots)
        × (slot + v.timelock_delay_slots ≤ slot')
        × (v'.curator ≡ v.curator)
        × (read_vault_extension (length head) (extension_of args.kind) account'
            ≡ ok (some (value_of args.kind args.threshold args.paused)))
        × (read_vault_extension (length head) other account'
            ≡ read_vault_extension (length head) other (account head es n))
  execute_extension_update-queue_extension_update args account_data {pending} {account'} fits apart
        queued executed =
      let (set, same) =
        queue_extension_update-eq_ok (length head) authority vault_key slot v account_data args
          queued in
      let (_, waited, curator, wrote) =
        execute_extension_update-eq_ok (length head) vault_key slot' v' (account head es n) pending
          executed in
      let written =
        sym (
          write_setting-extension_of (length head) args.kind (account head es n) args.threshold
            args.paused)
        ∙ ap
            (λ p.
              write_setting (length head) p.args.kind (account head es n) p.args.threshold
                p.args.paused)
            (sym same)
        ∙ wrote in
      let (own, others) =
        reads-update (extension_of args.kind) other apart head es n
          (value_of args.kind args.threshold args.paused) typed
          (value_of-Fits args.kind args.threshold args.paused fits) written in
      (set, ground (arith, waited, same), ground (arith, curator, same), own, others)

-- While a timelock is set, none of the six instructions that change a fee or a setting at once
-- succeeds, whoever signs.
pub update_extensions-timelocked :
    (tlv_start : ℕ) (authority : Pubkey) (v : Vault) (account_data account' : Bytes) (fee : FeeType)
    (threshold : ℕ) (paused : Bool)
    → 0 < v.timelock_delay_slots
    → (update_deposit_fee tlv_start authority v account_data fee ≢ ok account')
      × (update_withdrawal_fee tlv_start authority v account_data fee ≢ ok account')
      × (update_min_subscription tlv_start authority v account_data threshold ≢ ok account')
      × (update_min_redemption tlv_start authority v account_data threshold ≢ ok account')
      × (update_pausable_subscriptions tlv_start authority v account_data paused ≢ ok account')
      × (update_pausable_redemptions tlv_start authority v account_data paused ≢ ok account')
unfolding update_deposit_fee update_withdrawal_fee update_min_subscription update_min_redemption
    update_pausable_subscriptions update_pausable_redemptions basic_extension_accounts
update_extensions-timelocked tlv_start authority v account_data account' fee threshold paused h = (
  λ e. ground (arith, e),
  λ e. ground (arith, e),
  λ e. ground (arith, e),
  λ e. ground (arith, e),
  λ e. ground (arith, e),
  λ e. ground (arith, e),
)
