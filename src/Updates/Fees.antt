-- ===== src/Updates/Fees.antt =====
-- Changing a fee after the timelock (programs/async_vault_v2/src/instructions/*_fee_update.rs).
-- Anchor closes the pending update after `execute` and `cancel`.
use solana_vault_v.Base.{ℕ, ok, ◌>>=◌, ◌>>◌, leb, ltb, ◌==◌, u64_max, checked_add}
use solana_vault_v.Bytes.{Bytes}
use solana_vault_v.Error.{
  Outcome, require, exact, timelock_not_configured, timelock_not_ready, stale_timelock_authority,
  invalid_timelock_change,
}
use solana_vault_v.Fee.{FeeType, from_fee_type}
use solana_vault_v.State.{⊤, Pubkey, Vault, assert_curator, require_keys_eq}
use solana_vault_v.Tlv.Storage.{update_vault_extension}
use solana_vault_v.Tlv.Instances.{deposit_fee_extension, withdrawal_fee_extension}
use solana_vault_v.Updates.Initialize.{validate_fee}

pub data FeeUpdateKind : Type 0 where
  deposit_update withdrawal_update : FeeUpdateKind

pub record FeeUpdateArgs : Type 0 where
  pub kind : FeeUpdateKind
  pub fee : FeeType

pub record PendingFeeUpdate : Type 0 where
  pub vault : Pubkey
  pub queued_by : Pubkey
  pub created_slot : ℕ  -- u64
  pub eta_slot : ℕ  -- u64
  pub args : FeeUpdateArgs

abbrev pub validate_fee_update : FeeUpdateArgs → Outcome ⊤
validate_fee_update args = validate_fee args.fee

-- Each handler takes the address of the vault and the current slot.
unfoldable pub queue_fee_update :
    Pubkey → Pubkey → ℕ → Vault → FeeUpdateArgs → Outcome PendingFeeUpdate
queue_fee_update authority vault_key current_slot v args = do
  assert_curator v authority
  require (ltb 0 v.timelock_delay_slots) timelock_not_configured
  validate_fee_update args
  eta_slot ← exact (checked_add u64_max current_slot v.timelock_delay_slots)
  ok (record {
    vault = vault_key;
    queued_by = authority;
    created_slot = current_slot;
    eta_slot = eta_slot;
    args = args;
  })

module _ (tlv_start : ℕ) where
  -- The `match` on the kind.
  abbrev pub write_fee : FeeUpdateKind → Bytes → FeeType → Outcome Bytes
  write_fee deposit_update account_data fee =
      update_vault_extension tlv_start deposit_fee_extension account_data (from_fee_type fee)
  write_fee withdrawal_update account_data fee =
      update_vault_extension tlv_start withdrawal_fee_extension account_data (from_fee_type fee)

  unfoldable pub apply_fee_update : Bytes → FeeUpdateArgs → Outcome Bytes
  apply_fee_update account_data args =
      validate_fee_update args >> write_fee args.kind account_data args.fee

  unfoldable pub execute_fee_update : Pubkey → ℕ → Vault → Bytes → PendingFeeUpdate → Outcome Bytes
  execute_fee_update vault_key current_slot v account_data pending_update = do
    require (pending_update.vault == vault_key) invalid_timelock_change
    require (leb pending_update.eta_slot current_slot) timelock_not_ready
    require_keys_eq pending_update.queued_by v.curator stale_timelock_authority
    apply_fee_update account_data pending_update.args

unfoldable pub cancel_fee_update : Pubkey → Pubkey → Vault → PendingFeeUpdate → Outcome ⊤
cancel_fee_update authority vault_key v pending_update = do
  require (pending_update.vault == vault_key) invalid_timelock_change
  assert_curator v authority
