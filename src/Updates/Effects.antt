-- ===== src/Updates/Effects.antt =====
-- What the queued updates of extensions and fees do, for every kind at once.
use solana_vault_v.Base.{
  ℕ, ◌+◌, ◌≤◌, ◌<◌, ◌≡◌, ◌≢◌, Bool, sym, ◌∙◌, refl, List, some, ok, arith, Option-cases, inl, inr,
  u64_max,
}
use solana_vault_v.Bytes.{Bytes, length}
use solana_vault_v.Fee.{FeeType, FeeData, from_fee_type}
use solana_vault_v.State.{Pubkey, Vault, assert_curator}
use solana_vault_v.Tlv.Types.{type_id}
use solana_vault_v.Tlv.Region.{Entry, lookup}
use solana_vault_v.Tlv.Typed.{IsTyped, IsTyped-IsValid, lookup-IsTyped}
use solana_vault_v.Tlv.Storage.{VaultExtension, update_vault_extension, read_vault_extension}
use solana_vault_v.Tlv.Persistence.{account, update_vault_extension-update_entries}
use solana_vault_v.Tlv.RoundTrip.{read_vault_extension-update_vault_extension}
use solana_vault_v.Tlv.Instances.{
  pausable_subscriptions_extension, pausable_redemptions_extension, min_subscription_extension,
  min_redemption_extension, deposit_fee_extension, withdrawal_fee_extension,
}
use solana_vault_v.Updates.Initialize.{byte_of}
use solana_vault_v.Updates.Extension.{
  ExtensionUpdateKind, ExtensionUpdateArgs, PendingExtensionUpdate, min_subscription_update,
  min_redemption_update, pausable_subscriptions_update, pausable_redemptions_update, write_setting,
  apply_extension_update, queue_extension_update, execute_extension_update,
}
use solana_vault_v.Updates.Fees.{
  FeeUpdateKind, FeeUpdateArgs, PendingFeeUpdate, deposit_update, withdrawal_update, write_fee,
  apply_fee_update, queue_fee_update, execute_fee_update,
}

-- The extension that holds a fee, and the one that holds another setting.
abbrev pub fee_extension_of : FeeUpdateKind → VaultExtension FeeData
fee_extension_of deposit_update = deposit_fee_extension
fee_extension_of withdrawal_update = withdrawal_fee_extension

abbrev pub extension_of : ExtensionUpdateKind → VaultExtension ℕ
extension_of min_subscription_update = min_subscription_extension
extension_of min_redemption_update = min_redemption_extension
extension_of pausable_subscriptions_update = pausable_subscriptions_extension
extension_of pausable_redemptions_update = pausable_redemptions_extension

-- The value that an update gives it.
abbrev pub value_of : ExtensionUpdateKind → ℕ → Bool → ℕ
value_of min_subscription_update threshold paused = threshold
value_of min_redemption_update threshold paused = threshold
value_of pausable_subscriptions_update threshold paused = byte_of paused
value_of pausable_redemptions_update threshold paused = byte_of paused

-- An update that succeeds has found the extension.
update_vault_extension-found :
    {E : Type 0} (extension : VaultExtension E) (head : Bytes) (es : List Entry) (n : ℕ) (value : E)
    {account' : Bytes}
    → IsTyped es
    → update_vault_extension (length head) extension (account head es n) value ≡ ok account'
    → (old : Bytes) × (lookup es (type_id extension.extension_type) ≡ some old)
update_vault_extension-found extension head es n value typed h =
    let same =
      update_vault_extension-update_entries extension head es n value (IsTyped-IsValid es typed) in
    let did = sym same ∙ h in
    elim (Option-cases (lookup es (type_id extension.extension_type))) [
      | inl absent ↦ absurd (ground (arith, did, absent))
      | inr found ↦ found
    ]

module _ {E F : Type 0} (extension : VaultExtension E) (other : VaultExtension F)
    (apart : type_id other.extension_type ≢ type_id extension.extension_type) (head : Bytes)
    (es : List Entry) (n : ℕ) (value : E) (typed : IsTyped es) (fits : extension.Fits value) where
  -- What a successful update leaves to be read.
  pub reads-update :
      {account' : Bytes}
      → update_vault_extension (length head) extension (account head es n) value ≡ ok account'
      → (read_vault_extension (length head) extension account' ≡ ok (some value))
        × (read_vault_extension (length head) other account'
            ≡ read_vault_extension (length head) other (account head es n))
  reads-update h =
      let (old, found) = update_vault_extension-found extension head es n value typed h in
      read_vault_extension-update_vault_extension extension other apart head es n value
        (IsTyped-IsValid es typed) fits old found
        (lookup-IsTyped es extension.extension_type typed found) h

from_fee_type-Fits : (fee : FeeType) → (from_fee_type fee).discriminant < 256
unfolding from_fee_type
from_fee_type-Fits fee = ground arith

pub write_fee-fee_extension_of :
    (tlv_start : ℕ) (kind : FeeUpdateKind) (account_data : Bytes) (fee : FeeType)
    → write_fee tlv_start kind account_data fee
      ≡ update_vault_extension tlv_start (fee_extension_of kind) account_data (from_fee_type fee)
write_fee-fee_extension_of tlv_start deposit_update account_data fee = refl
write_fee-fee_extension_of tlv_start withdrawal_update account_data fee = refl

pub write_setting-extension_of :
    (tlv_start : ℕ) (kind : ExtensionUpdateKind) (account_data : Bytes) (threshold : ℕ)
    (paused : Bool)
    → write_setting tlv_start kind account_data threshold paused
      ≡ update_vault_extension tlv_start
          (extension_of kind)
          account_data
          (value_of kind threshold paused)
write_setting-extension_of tlv_start min_subscription_update account_data threshold paused = refl
write_setting-extension_of tlv_start min_redemption_update account_data threshold paused = refl
write_setting-extension_of tlv_start pausable_subscriptions_update account_data threshold paused =
    refl
write_setting-extension_of tlv_start pausable_redemptions_update account_data threshold paused =
    refl

pub value_of-Fits :
    (kind : ExtensionUpdateKind) (threshold : ℕ) (paused : Bool)
    → threshold ≤ u64_max
    → (extension_of kind).Fits (value_of kind threshold paused)
value_of-Fits min_subscription_update threshold paused h = h
value_of-Fits min_redemption_update threshold paused h = h
value_of-Fits pausable_subscriptions_update threshold paused h = ground arith
value_of-Fits pausable_redemptions_update threshold paused h = ground arith

pub fee_Fits :
    (kind : FeeUpdateKind) (fee : FeeType) → (fee_extension_of kind).Fits (from_fee_type fee)
fee_Fits deposit_update fee = from_fee_type-Fits fee
fee_Fits withdrawal_update fee = from_fee_type-Fits fee

pub queue_fee_update-eq_ok :
    (authority vault_key slot : ℕ) (v : Vault) (args : FeeUpdateArgs) {pending : PendingFeeUpdate}
    → queue_fee_update authority vault_key slot v args ≡ ok pending
    → (0 < v.timelock_delay_slots)
      × (pending ≡ record {
        vault = vault_key;
        queued_by = v.curator;
        created_slot = slot;
        eta_slot = slot + v.timelock_delay_slots;
        args = args;
      })
unfolding queue_fee_update assert_curator
queue_fee_update-eq_ok authority vault_key slot v args h = (ground arith, ground arith)

pub execute_fee_update-eq_ok :
    (tlv_start : ℕ) (vault_key : Pubkey) (slot : ℕ) (v : Vault) (account_data : Bytes)
    (pending : PendingFeeUpdate) {account' : Bytes}
    → execute_fee_update tlv_start vault_key slot v account_data pending ≡ ok account'
    → (pending.vault ≡ vault_key)
      × (pending.eta_slot ≤ slot)
      × (pending.queued_by ≡ v.curator)
      × (write_fee tlv_start pending.args.kind account_data pending.args.fee ≡ ok account')
unfolding execute_fee_update apply_fee_update
execute_fee_update-eq_ok tlv_start vault_key slot v account_data pending h =
    (ground arith, ground arith, ground arith, ground arith)

pub queue_extension_update-eq_ok :
    (tlv_start authority vault_key slot : ℕ) (v : Vault) (account_data : Bytes)
    (args : ExtensionUpdateArgs) {pending : PendingExtensionUpdate}
    → queue_extension_update tlv_start authority vault_key slot v account_data args ≡ ok pending
    → (0 < v.timelock_delay_slots)
      × (pending ≡ record {
        vault = vault_key;
        queued_by = v.curator;
        created_slot = slot;
        eta_slot = slot + v.timelock_delay_slots;
        args = args;
      })
unfolding queue_extension_update assert_curator
queue_extension_update-eq_ok tlv_start authority vault_key slot v account_data args h =
    (ground arith, ground arith)

pub execute_extension_update-eq_ok :
    (tlv_start : ℕ) (vault_key : Pubkey) (slot : ℕ) (v : Vault) (account_data : Bytes)
    (pending : PendingExtensionUpdate) {account' : Bytes}
    → execute_extension_update tlv_start vault_key slot v account_data pending ≡ ok account'
    → (pending.vault ≡ vault_key)
      × (pending.eta_slot ≤ slot)
      × (pending.queued_by ≡ v.curator)
      × (write_setting tlv_start pending.args.kind account_data pending.args.threshold
            pending.args.paused
          ≡ ok account')
unfolding execute_extension_update apply_extension_update
execute_extension_update-eq_ok tlv_start vault_key slot v account_data pending h =
    (ground arith, ground arith, ground arith, ground arith)
