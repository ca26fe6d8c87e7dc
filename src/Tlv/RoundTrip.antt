-- ===== src/Tlv/RoundTrip.antt =====
-- Reading back an extension that was stored or overwritten.
use solana_vault_v.Base.{ℕ, ◌<◌, ◌-◌, ◌≡◌, ◌≢◌, sym, ◌∙◌, List, none, some, ok, arith, Option-cases}
use solana_vault_v.Bytes.{Bytes, length}
use solana_vault_v.State.{Vault}
use solana_vault_v.Tlv.Types.{ExtensionType, type_id, data_len, tlv_len}
use solana_vault_v.Tlv.Region.{
  Entry, IsValid, lookup, append_entry, padded, padded-full, lookup-append_entry,
  append_entry-IsValid, replace, lookup-replace, replace-IsValid,
}
use solana_vault_v.Tlv.Storage.{
  VaultExtension, init_vault_extension, update_vault_extension, read_vault_extension,
}
use solana_vault_v.Tlv.Persistence.{
  account, type_id-pos, init_entries, stored, init_vault_extension-init_entries,
  read_vault_extension-read_entries, update_vault_extension-update_entries,
}

pub init_entries-eq_ok :
    {E : Type 0} (extension : VaultExtension E) (head : Bytes) (es : List Entry) (n : ℕ)
    (vault : Vault) (value : E) {account' : Bytes}
    → stored extension head (init_entries extension vault (es, n) value) ≡ ok account'
    → let id = type_id extension.extension_type in
      (lookup es id ≡ none)
      × (account'
          ≡ account head
              (append_entry es id (data_len extension.extension_type) (extension.to_bytes value))
              (n - tlv_len extension.extension_type))
init_entries-eq_ok extension head es n vault value h =
    ground (arith, Option-cases (lookup es (type_id extension.extension_type)))

type_id-lt : (t : ExtensionType) → type_id t < 65_536
type_id-lt t = ground arith

data_len-lt : (t : ExtensionType) → data_len t < 65_536
data_len-lt t = ground arith

padded-to_bytes :
    {E : Type 0} (extension : VaultExtension E) (value : E)
    → padded (data_len extension.extension_type) (extension.to_bytes value)
      ≡ extension.to_bytes value
padded-to_bytes extension value =
    rw (sym (extension.length-to_bytes value)) (padded-full (extension.to_bytes value))

module _ {E F : Type 0} (extension : VaultExtension E) (other : VaultExtension F)
    (apart : type_id other.extension_type ≢ type_id extension.extension_type) (head : Bytes)
    (es : List Entry) (n : ℕ) (value : E) (valid : IsValid es) (fits : extension.Fits value) where
  -- After an extension has been stored in an account whose region holds entries followed by zeros,
  -- reading it gives the stored value, and an extension of another type reads as before (for a value
  -- whose fields fit their machine types).
  pub read_vault_extension-init_vault_extension :
      (vault : Vault) {account' : Bytes}
      → init_vault_extension (length head) extension (account head es n) vault value ≡ ok account'
      → (read_vault_extension (length head) extension account' ≡ ok (some value))
        × (read_vault_extension (length head) other account'
            ≡ read_vault_extension (length head) other (account head es n))
  read_vault_extension-init_vault_extension vault {account'} h =
      let id = type_id extension.extension_type in
      let len = data_len extension.extension_type in
      let bytes = extension.to_bytes value in
      let size = extension.length-to_bytes value in
      let back = extension.from_bytes-to_bytes value fits in
      let same = init_vault_extension-init_entries extension head es n vault value valid in
      let (absent, stands) = init_entries-eq_ok extension head es n vault value (sym same ∙ h) in
      let es' = append_entry es id len bytes in
      let valid' =
        append_entry-IsValid es id len bytes valid (type_id-pos _) (type_id-lt _) (data_len-lt _)
          (omega arith) in
      let n' = n - tlv_len extension.extension_type in
      let full = padded-to_bytes extension value in
      let own = lookup-append_entry es id len bytes id absent in
      let its = lookup-append_entry es id len bytes (type_id other.extension_type) absent in
      let read = read_vault_extension-read_entries extension head es' n' valid' in
      let reads = read_vault_extension-read_entries other head es' n' valid' in
      let before = read_vault_extension-read_entries other head es n valid in
      rw stands (ground arith)

  -- After an extension that a region of entries followed by zeros holds at its full length has been
  -- overwritten, reading it gives the new value, and an extension of another type reads as before
  -- (for a value whose fields fit their machine types).
  pub read_vault_extension-update_vault_extension :
      (old : Bytes) {account' : Bytes}
      → lookup es (type_id extension.extension_type) ≡ some old
      → length old ≡ data_len extension.extension_type
      → update_vault_extension (length head) extension (account head es n) value ≡ ok account'
      → (read_vault_extension (length head) extension account' ≡ ok (some value))
        × (read_vault_extension (length head) other account'
            ≡ read_vault_extension (length head) other (account head es n))
  read_vault_extension-update_vault_extension old {account'} found whole h =
      let id = type_id extension.extension_type in
      let bytes = extension.to_bytes value in
      let size = extension.length-to_bytes value in
      let back = extension.from_bytes-to_bytes value fits in
      let same = update_vault_extension-update_entries extension head es n value valid in
      let es' = replace es id bytes in
      let stands : account' ≡ account head es' n = ground (arith, sym same ∙ h) in
      let valid' = replace-IsValid es id bytes old valid found (omega arith) in
      let full : padded (length old) bytes ≡ bytes = rw (whole) (padded-to_bytes extension value) in
      let own = lookup-replace es id id bytes old found in
      let its = lookup-replace es id (type_id other.extension_type) bytes old found in
      let read = read_vault_extension-read_entries extension head es' n valid' in
      let reads = read_vault_extension-read_entries other head es' n valid' in
      let before = read_vault_extension-read_entries other head es n valid in
      rw stands (ground arith)
