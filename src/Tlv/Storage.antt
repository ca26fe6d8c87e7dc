-- ===== src/Tlv/Storage.antt =====
-- A vault's extensions in its account (programs/async_vault_v2/src/extensions/vault_extensions.rs):
-- what a type stored as an extension gives, and the routines that store, overwrite and read one.
use solana_vault_v.Base.{
  ℕ, ◌≡◌, Bool, not, ◌++◌, Option, none, some, ok, err, ◌>>=◌, ◌>>◌, leb, if◌then◌else◌, ok_or,
}
use solana_vault_v.Bytes.{Bytes, length, take, drop}
use solana_vault_v.Error.{
  Outcome, program, panicked, require, invalid_extension_data, extension_already_initialized,
}
use solana_vault_v.State.{Vault, assert_uninitialized}
use solana_vault_v.Tlv.Raw.{
  get_extension_bytes_raw, has_extension_raw, write_extension_raw, update_region, tlv_used_len,
}
use solana_vault_v.Tlv.Types.{ExtensionType, type_id, data_len}

-- `trait VaultExtension`, a plain-data type: `to_bytes` is `bytemuck::bytes_of` and `from_bytes` is
-- `bytemuck::try_pod_read_unaligned`.
pub record VaultExtension (E : Type 0) : Type 1 where
  pub extension_type : ExtensionType
  pub to_bytes : E → Bytes
  pub from_bytes : Bytes → Option E
  pub Fits : E → Type 0  -- the values of the fields fit their machine types
  pub length-to_bytes : (value : E) → length (to_bytes value) ≡ data_len extension_type
  pub from_bytes-to_bytes : (value : E) → Fits value → from_bytes (to_bytes value) ≡ some value

unfoldable pub get_extension_bytes : Bytes → ExtensionType → Option Bytes
get_extension_bytes tlv_data ext_type = get_extension_bytes_raw tlv_data (type_id ext_type)

unfoldable pub has_extension : Bytes → ExtensionType → Bool
has_extension tlv_data ext_type = has_extension_raw tlv_data (type_id ext_type)

unfoldable pub write_extension : Bytes → ℕ → ExtensionType → Bytes → Outcome Bytes
write_extension tlv_data write_offset ext_type value =
    write_extension_raw tlv_data write_offset (type_id ext_type) (data_len ext_type) value

unfoldable pub update_extension : Bytes → ExtensionType → Bytes → Outcome Bytes
update_extension tlv_data ext_type new_value =
    require (leb (length new_value) (data_len ext_type)) invalid_extension_data
    >> update_region tlv_data (type_id ext_type) new_value

-- `&mut data[TLV_START..]` panics on a shorter account; the bytes before it stay.
abbrev pub with_region : ℕ → Bytes → (Bytes → Outcome Bytes) → Outcome Bytes
with_region tlv_start account_data change =
    if leb tlv_start (length account_data)
    then change (drop tlv_start account_data)
      >>= (λ tlv_data. ok (take tlv_start account_data ++ tlv_data))
    else err panicked

module _ (tlv_start : ℕ) {E : Type 0} (extension : VaultExtension E) where
  unfoldable pub init_vault_extension : Bytes → Vault → E → Outcome Bytes
  init_vault_extension account_data vault value =
      assert_uninitialized vault
      >> with_region tlv_start account_data (λ tlv_data.
        require (not (has_extension tlv_data extension.extension_type))
          extension_already_initialized
        >> write_extension tlv_data (tlv_used_len tlv_data) extension.extension_type
            (extension.to_bytes value))

  unfoldable pub update_vault_extension : Bytes → E → Outcome Bytes
  update_vault_extension account_data value =
      with_region tlv_start account_data
        (λ tlv_data. update_extension tlv_data extension.extension_type (extension.to_bytes value))

  unfoldable pub read_vault_extension : Bytes → Outcome (Option E)
  read_vault_extension account_data =
      if leb (length account_data) tlv_start
      then ok none
      else elim (get_extension_bytes (drop tlv_start account_data) extension.extension_type) [
        | none ↦ ok none
        | some bytes ↦
            ok_or (extension.from_bytes bytes) (program invalid_extension_data)
            >>= (λ value. ok (some value))
      ]
