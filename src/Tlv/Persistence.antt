-- ===== src/Tlv/Persistence.antt =====
-- What storing, overwriting and reading an extension do to an account whose region holds entries
-- followed by zeros.
use solana_vault_v.Base.{
  ℕ, ◌-◌, ◌<◌, ◌≡◌, not, List, [], ◌∷◌, ◌++◌, Option, none, some, ok, err, is_some, ◌>>=◌, ◌>>◌,
  leb, ok_or, arith,
}
use solana_vault_v.Bytes.{Bytes, length, zeros, length-append, take-append, drop-append}
use solana_vault_v.Error.{
  Outcome, program, require, invalid_extension_data, extension_already_initialized,
  vault_already_initialized,
}
use solana_vault_v.State.{Vault, assert_uninitialized}
use solana_vault_v.Tlv.Raw.{has_extension_raw}
use solana_vault_v.Tlv.Types.{ExtensionType, type_id, data_len, tlv_len}
use solana_vault_v.Tlv.Region.{
  Entry, encode, IsValid, lookup, append_entry, update_entries, get_extension_bytes_raw-encode,
  tlv_used_len-encode, update_region-encode, write-encode, write-no_room,
}
use solana_vault_v.Tlv.Storage.{
  VaultExtension, get_extension_bytes, has_extension, write_extension, update_extension,
  init_vault_extension, update_vault_extension, read_vault_extension,
}

pub type_id-pos : (t : ExtensionType) → 0 < type_id t
type_id-pos t = ground arith

-- An account: what stands before the region, the entries and so many zeros.
abbrev pub account : Bytes → List Entry → ℕ → Bytes
account head es n = head ++ encode es (zeros n)

-- The entries, and how many zeros follow them.
abbrev pub Stored : Type 0
Stored = List Entry × ℕ

module _ {E : Type 0} (extension : VaultExtension E) where
  -- Storing a value, on entries.
  abbrev pub init_entries : Vault → Stored → E → Outcome Stored
  init_entries vault (es, n) value =
      require (not vault.initialized) vault_already_initialized
      >> require (not (is_some (lookup es (type_id extension.extension_type))))
          extension_already_initialized
      >> require (leb (tlv_len extension.extension_type) n) invalid_extension_data
      >> ok (
        append_entry es (type_id extension.extension_type) (data_len extension.extension_type)
            (extension.to_bytes value),
        n - tlv_len extension.extension_type,
      )

  -- Reading a value, on entries.
  abbrev pub read_entries : List Entry → Outcome (Option E)
  read_entries es = elim (lookup es (type_id extension.extension_type)) [
    | none ↦ ok none
    | some bytes ↦
        ok_or (extension.from_bytes bytes) (program invalid_extension_data)
        >>= (λ value. ok (some value))
  ]

  -- The bytes of an account from an outcome's entries.
  abbrev pub stored : Bytes → Outcome Stored → Outcome Bytes
  stored head (ok (es, n)) = ok (account head es n)
  stored head (err e) = err e

  pub init_vault_extension-init_entries :
      (head : Bytes) (es : List Entry) (n : ℕ) (vault : Vault) (value : E)
      → IsValid es
      → init_vault_extension (length head) extension (account head es n) vault value
        ≡ stored head (init_entries vault (es, n) value)
  unfolding init_vault_extension assert_uninitialized has_extension has_extension_raw
      write_extension
  init_vault_extension-init_entries head es n vault value valid =
      let id = type_id extension.extension_type in
      let region = encode es (zeros n) in
      let all = length-append head region in
      let own = extension.length-to_bytes value in
      rw (drop-append head region) (
        rw (take-append head region) (
          rw (get_extension_bytes_raw-encode es n id valid (type_id-pos _)) (
            rw (tlv_used_len-encode es n valid) (
              ground (
                arith,
                write-encode es n id (data_len extension.extension_type) (extension.to_bytes value),
                write-no_room es n id (data_len extension.extension_type)
                    (extension.to_bytes value),
              )))))

  pub read_vault_extension-read_entries :
      (head : Bytes) (es : List Entry) (n : ℕ)
      → IsValid es
      → read_vault_extension (length head) extension (account head es n) ≡ read_entries es
  unfolding read_vault_extension get_extension_bytes
  read_vault_extension-read_entries head [] n valid =
      let region = zeros n in
      let same =
        get_extension_bytes_raw-encode [] n (type_id extension.extension_type) valid
          (type_id-pos _) in
      rw (drop-append head region) (ground arith)
  read_vault_extension-read_entries head (e ∷ es) n valid =
      let region = encode (e ∷ es) (zeros n) in
      let all = length-append head region in
      let same =
        get_extension_bytes_raw-encode (e ∷ es) n (type_id extension.extension_type) valid
          (type_id-pos _) in
      rw (drop-append head region) (rw same (ground arith))

  pub update_vault_extension-update_entries :
      (head : Bytes) (es : List Entry) (n : ℕ) (value : E)
      → IsValid es
      → update_vault_extension (length head) extension (account head es n) value ≡ (
          update_entries es (type_id extension.extension_type) (extension.to_bytes value)
          >>= (λ es'. ok (account head es' n)))
  unfolding update_vault_extension update_extension
  update_vault_extension-update_entries head es n value valid =
      let region = encode es (zeros n) in
      let all = length-append head region in
      let own = extension.length-to_bytes value in
      let same =
        update_region-encode es n (type_id extension.extension_type) (extension.to_bytes value)
          valid (type_id-pos _) in
      rw (drop-append head region) (rw (take-append head region) (rw same (ground arith)))

  -- What the three routines do to an account whose region holds valid entries followed by zeros is what
  -- they do to an association list of values: storing adds a value at the end if the vault is not
  -- initialised, the type is new and there is room, and fails with the error of the first of these
  -- that does not hold; overwriting replaces the value of its type, which must be there; reading
  -- looks it up. The bytes before the region stay.
  pub vault_extensions-refine :
      (head : Bytes) (es : List Entry) (n : ℕ) (vault : Vault) (value : E)
      → IsValid es
      → (init_vault_extension (length head) extension (account head es n) vault value
          ≡ stored head (init_entries vault (es, n) value))
        × (update_vault_extension (length head) extension (account head es n) value ≡ (
            update_entries es (type_id extension.extension_type) (extension.to_bytes value)
            >>= (λ es'. ok (account head es' n))))
        × (read_vault_extension (length head) extension (account head es n) ≡ read_entries es)
  vault_extensions-refine head es n vault value valid = (
    init_vault_extension-init_entries head es n vault value valid,
    update_vault_extension-update_entries head es n value valid,
    read_vault_extension-read_entries head es n valid,
  )
