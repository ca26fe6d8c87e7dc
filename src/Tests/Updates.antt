-- ===== src/Tests/Updates.antt =====
-- A threshold and a fee that wait for the timelock, and a numbered request.
use solana_vault_v.Base.{
  ◌+◌, ◌≤◌, ◌<◌, ◌≡◌, ◌≢◌, false, true, List, [], ◌∷◌, ◌++◌, some, ok, refl, arith,
}
use solana_vault_v.Bytes.{Bytes, u64_bytes, zeros}
use solana_vault_v.Fee.{percentage, validate, from_fee_type, fee_type}
use solana_vault_v.State.{Vault, assert_curator, assert_uninitialized}
use solana_vault_v.Tlv.Raw.{
  get_loop, get_extension_bytes_raw, has_extension_raw, tlv_used_len, used_loop,
  write_extension_raw, update_loop, update_region, overwrite,
}
use solana_vault_v.Tlv.Types.{min_subscription, deposit_fee, subscription_queue_request}
use solana_vault_v.Tlv.Region.{Entry}
use solana_vault_v.Tlv.Typed.{IsTyped}
use solana_vault_v.Tlv.Storage.{
  has_extension, init_vault_extension, write_extension, update_vault_extension, update_extension,
  read_vault_extension,
}
use solana_vault_v.Tlv.Persistence.{account}
use solana_vault_v.Tlv.Instances.{deposit_fee_extension, min_subscription_extension}
use solana_vault_v.Tlv.Requests.{
  init_request_extension, read_request_extension, has_request_extension,
  compute_request_extension_space, init_request_extension-compute_request_extension_space,
}
use solana_vault_v.Updates.Initialize.{init_extension}
use solana_vault_v.Updates.Reachable.{
  IsWellFormed, initialized, updated, done, then_step, ExtensionSteps-IsWellFormed,
}
use solana_vault_v.Updates.Immediate.{
  update_deposit_fee, update_withdrawal_fee, update_min_subscription, update_min_redemption,
  update_pausable_subscriptions, update_pausable_redemptions,
}
use solana_vault_v.Updates.Extension.{
  ExtensionUpdateArgs, PendingExtensionUpdate, min_subscription_update, validate_extension_update,
  require_extension_exists, apply_extension_update, queue_extension_update,
  execute_extension_update,
}
use solana_vault_v.Updates.Fees.{
  FeeUpdateArgs, PendingFeeUpdate, deposit_update, apply_fee_update, queue_fee_update,
  execute_fee_update,
}
use solana_vault_v.Updates.Delay.{
  execute_fee_update-queue_fee_update, execute_extension_update-queue_extension_update,
  update_extensions-timelocked,
}
use solana_vault_v.Tests.Data.{vault, value_or}
use solana_vault_v.Tests.Tlv.{head}

-- A deposit fee of ten basis points, a threshold of 500 and a queue.
abbrev entries : List Entry
entries =
    record { id = 1; value = 1 ∷ 10 ∷ 0 ∷ 0 ∷ 0 ∷ 0 ∷ 0 ∷ 0 ∷ 0 ∷ [] }
    ∷ record { id = 7; value = u64_bytes 500 }
    ∷ []

entries-IsTyped : IsTyped entries
entries-IsTyped = ((deposit_fee, refl, refl), ((min_subscription, refl, refl), tt))

-- The vault's timelock is fifty slots.
abbrev fee_args : FeeUpdateArgs
fee_args = record { kind = deposit_update; fee = percentage 30 }

abbrev pending_fee : PendingFeeUpdate
pending_fee = record {
  vault = 9;
  queued_by = 5;
  created_slot = 100;
  eta_slot = 150;
  args = fee_args;
}

queue_fee_run : queue_fee_update 5 9 100 vault fee_args ≡ ok pending_fee
unfolding queue_fee_update assert_curator validate
queue_fee_run = refl

abbrev after_fee : Bytes
after_fee = value_or [] (execute_fee_update 5 9 160 vault (account head entries 4) pending_fee)

execute_fee_run :
    execute_fee_update 5 9 160 vault (account head entries 4) pending_fee ≡ ok after_fee
unfolding execute_fee_update apply_fee_update validate from_fee_type update_vault_extension
    update_extension update_region update_loop overwrite
execute_fee_run = refl

execute_fee_update-queue_fee_update_example :
    (0 < 50)
    × (100 + 50 ≤ 160)
    × (vault.curator ≡ vault.curator)
    × (read_vault_extension 5 deposit_fee_extension after_fee
        ≡ ok (some (from_fee_type (percentage 30))))
    × (fee_type (from_fee_type (percentage 30)) ≡ ok (percentage 30))
    × (read_vault_extension 5 min_subscription_extension after_fee
        ≡ read_vault_extension 5 min_subscription_extension (account head entries 4))
execute_fee_update-queue_fee_update_example =
    execute_fee_update-queue_fee_update min_subscription_extension 5 9 100 160 vault vault head
      entries 4 entries-IsTyped fee_args (omega arith) (omega arith) queue_fee_run execute_fee_run

abbrev setting_args : ExtensionUpdateArgs
setting_args = record { kind = min_subscription_update; threshold = 700; paused = false }

abbrev pending_setting : PendingExtensionUpdate
pending_setting = record {
  vault = 9;
  queued_by = 5;
  created_slot = 100;
  eta_slot = 150;
  args = setting_args;
}

queue_setting_run :
    queue_extension_update 5 5 9 100 vault (account head entries 4) setting_args
    ≡ ok pending_setting
unfolding queue_extension_update assert_curator validate_extension_update require_extension_exists
    has_extension has_extension_raw get_extension_bytes_raw get_loop
queue_setting_run = refl

abbrev after_setting : Bytes
after_setting =
    value_or [] (execute_extension_update 5 9 160 vault (account head entries 4) pending_setting)

execute_setting_run :
    execute_extension_update 5 9 160 vault (account head entries 4) pending_setting
    ≡ ok after_setting
unfolding execute_extension_update apply_extension_update validate_extension_update
    update_vault_extension update_extension update_region update_loop overwrite
execute_setting_run = refl

execute_extension_update-queue_extension_update_example :
    (0 < 50)
    × (100 + 50 ≤ 160)
    × (vault.curator ≡ vault.curator)
    × (read_vault_extension 5 min_subscription_extension after_setting ≡ ok (some 700))
    × (read_vault_extension 5 deposit_fee_extension after_setting
        ≡ read_vault_extension 5 deposit_fee_extension (account head entries 4))
execute_extension_update-queue_extension_update_example =
    execute_extension_update-queue_extension_update deposit_fee_extension 5 9 100 160 vault vault
      head entries 4 entries-IsTyped setting_args (account head entries 4) (omega arith)
      (omega arith) queue_setting_run execute_setting_run

update_extensions-timelocked_example :
    (update_deposit_fee 5 5 vault [] (percentage 30) ≢ ok [])
    × (update_withdrawal_fee 5 5 vault [] (percentage 30) ≢ ok [])
    × (update_min_subscription 5 5 vault [] 700 ≢ ok [])
    × (update_min_redemption 5 5 vault [] 700 ≢ ok [])
    × (update_pausable_subscriptions 5 5 vault [] true ≢ ok [])
    × (update_pausable_redemptions 5 5 vault [] true ≢ ok [])
update_extensions-timelocked_example =
    update_extensions-timelocked 5 5 vault [] [] (percentage 30) 700 true (omega arith)

-- A vault with a subscription queue.
abbrev queued_vault : Bytes
queued_vault = account head (record { id = 5; value = zeros 16 } ∷ []) 0

has_queue : has_extension_raw (5 ∷ 0 ∷ 16 ∷ 0 ∷ zeros 16) 5 ≡ true
unfolding has_extension_raw get_extension_bytes_raw get_loop
has_queue = refl

init_request_extension-compute_request_extension_space_example :
    let space = compute_request_extension_space 5 queued_vault in
    (account' : Bytes) × (init_request_extension 5 subscription_queue_request
        (head ++ zeros space)
        12
      ≡ ok account')
    × (read_request_extension 5 subscription_queue_request account' ≡ ok (some 12))
    × (has_request_extension 5 subscription_queue_request account' ≡ true)
init_request_extension-compute_request_extension_space_example =
    init_request_extension-compute_request_extension_space 5 queued_vault head
      subscription_queue_request 12 has_queue (omega arith) (omega arith)

-- A vault that is not open yet gets a threshold, which is then raised.
abbrev closed_vault : Vault
closed_vault = record vault { initialized = false }

abbrev with_threshold : Bytes
with_threshold = value_or [] (init_extension 5 5 closed_vault min_subscription_extension head 500)

initialize_run :
    init_extension 5 5 closed_vault min_subscription_extension head 500 ≡ ok with_threshold
unfolding init_extension init_vault_extension assert_uninitialized has_extension has_extension_raw
    get_extension_bytes_raw get_loop tlv_used_len used_loop write_extension write_extension_raw
initialize_run = refl

abbrev raised : Bytes
raised = value_or [] (update_vault_extension 5 min_subscription_extension with_threshold 700)

raise_run : update_vault_extension 5 min_subscription_extension with_threshold 700 ≡ ok raised
unfolding init_extension init_vault_extension assert_uninitialized has_extension has_extension_raw
    get_extension_bytes_raw get_loop tlv_used_len used_loop write_extension write_extension_raw
    update_vault_extension update_extension update_region update_loop overwrite
raise_run = refl

ExtensionSteps-IsWellFormed_example : IsWellFormed 5 raised
ExtensionSteps-IsWellFormed_example = ExtensionSteps-IsWellFormed 5 head refl (
    then_step
      (then_step done (
        initialized min_subscription_extension 5 closed_vault 500 head with_threshold
          initialize_run))
      (updated min_subscription_extension 700 with_threshold raised raise_run))
