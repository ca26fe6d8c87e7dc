-- ===== src/Tests/Tlv.antt =====
-- A vault's extension region that holds one entry, with room for more.
use solana_vault_v.Base.{◌≡◌, List, [], ◌∷◌, some, ok, false, ◌>>=◌, refl, arith}
use solana_vault_v.Bytes.{Bytes, u64_bytes}
use solana_vault_v.State.{Vault, assert_uninitialized}
use solana_vault_v.Fee.{FeeData}
use solana_vault_v.Tlv.Raw.{
  get_loop, get_extension_bytes_raw, has_extension_raw, write_extension_raw, update_loop,
  update_region, overwrite, used_loop, tlv_used_len,
}
use solana_vault_v.Tlv.Region.{Entry, IsValid, update_entries}
use solana_vault_v.Tlv.Storage.{
  init_vault_extension, update_vault_extension, read_vault_extension, has_extension,
  write_extension,
}
use solana_vault_v.Tlv.Persistence.{
  account, stored, init_entries, read_entries, vault_extensions-refine,
}
use solana_vault_v.Tlv.Instances.{deposit_fee_extension, min_subscription_extension, fee_bytes}
use solana_vault_v.Tlv.RoundTrip.{read_vault_extension-init_vault_extension}
use solana_vault_v.Tlv.Runs.{GetRun, UpdateRun, UsedRun}
use solana_vault_v.Tlv.Termination.{region_loops-end}
use solana_vault_v.Tests.Data.{vault, value_or}

abbrev closed_vault : Vault
closed_vault = record vault { initialized = false }

-- The bytes before the region.
abbrev pub head : Bytes
head = 1 ∷ 2 ∷ 3 ∷ 4 ∷ 5 ∷ []

-- A threshold of 500 for subscriptions.
abbrev pub entries : List Entry
entries = record { id = 7; value = u64_bytes 500 } ∷ []

entries-IsValid : IsValid entries
entries-IsValid = (omega arith, omega arith, omega arith, tt)

-- Thirty basis points.
abbrev fee : FeeData
fee = record {
  discriminant = 1;
  payload = record { b0 = 30; b1 = 0; b2 = 0; b3 = 0; b4 = 0; b5 = 0; b6 = 0; b7 = 0 };
}

vault_extensions-refine_example :
    (init_vault_extension 5 deposit_fee_extension (account head entries 40) closed_vault fee
      ≡ stored deposit_fee_extension head
          (init_entries deposit_fee_extension closed_vault (entries, 40) fee))
    × (update_vault_extension 5 deposit_fee_extension (account head entries 40) fee
        ≡ (update_entries entries 1 (fee_bytes fee) >>= (λ es. ok (account head es 40))))
    × (read_vault_extension 5 deposit_fee_extension (account head entries 40)
        ≡ read_entries deposit_fee_extension entries)
vault_extensions-refine_example =
    vault_extensions-refine deposit_fee_extension head entries 40 closed_vault fee entries-IsValid

abbrev with_fee : Bytes
with_fee =
    value_or []
      (init_vault_extension 5 deposit_fee_extension (account head entries 40) closed_vault fee)

init_run :
    init_vault_extension 5 deposit_fee_extension (account head entries 40) closed_vault fee
    ≡ ok with_fee
unfolding init_vault_extension assert_uninitialized has_extension has_extension_raw
    get_extension_bytes_raw get_loop tlv_used_len used_loop write_extension write_extension_raw
init_run = refl

read_vault_extension-init_vault_extension_example :
    (read_vault_extension 5 deposit_fee_extension with_fee ≡ ok (some fee))
    × (read_vault_extension 5 min_subscription_extension with_fee
        ≡ read_vault_extension 5 min_subscription_extension (account head entries 40))
read_vault_extension-init_vault_extension_example =
    read_vault_extension-init_vault_extension deposit_fee_extension min_subscription_extension
      (omega arith) head entries 40 fee entries-IsValid (omega arith) closed_vault init_run

-- Entries of two and one bytes, and one that is cut off.
abbrev cut : Bytes
cut = 1 ∷ 0 ∷ 2 ∷ 0 ∷ 5 ∷ 6 ∷ 2 ∷ 0 ∷ 1 ∷ 0 ∷ 9 ∷ 3 ∷ 0 ∷ 9 ∷ 0 ∷ 1 ∷ []

region_loops-end_example :
    GetRun cut 2 0 (some (9 ∷ []))
    × UpdateRun cut 2
        (7 ∷ [])
        0
        (ok (1 ∷ 0 ∷ 2 ∷ 0 ∷ 5 ∷ 6 ∷ 2 ∷ 0 ∷ 1 ∷ 0 ∷ 7 ∷ 3 ∷ 0 ∷ 9 ∷ 0 ∷ 1 ∷ []))
    × UsedRun cut 0 11
unfolding get_extension_bytes_raw get_loop update_region update_loop overwrite tlv_used_len
    used_loop
region_loops-end_example = region_loops-end cut 2 (7 ∷ [])
