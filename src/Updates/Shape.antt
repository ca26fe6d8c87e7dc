-- ===== src/Updates/Shape.antt =====
-- The shape of a vault's account that every instruction on extensions keeps.
use solana_vault_v.Base.{
  ℕ, ◌-◌, ◌≡◌, refl, sym, ap, ◌∙◌, List, [], ◌∷◌, ◌++◌, none, ok, ◌==◌, Bool-cases, Option-cases,
  inl, inr, arith,
}
use solana_vault_v.Bytes.{Bytes, length, zeros, append_assoc}
use solana_vault_v.State.{Pubkey, Vault}
use solana_vault_v.Tlv.Types.{ExtensionType, type_id, data_len, tlv_len}
use solana_vault_v.Tlv.Region.{
  Entry, encode, encode-append, lookup, append_entry, replace, length-padded, lookup-append_entry,
}
use solana_vault_v.Tlv.Typed.{IsTyped, IsTyped-IsValid, type_id-inj}
use solana_vault_v.Tlv.Storage.{VaultExtension, init_vault_extension, update_vault_extension}
use solana_vault_v.Tlv.Persistence.{
  account, init_vault_extension-init_entries, update_vault_extension-update_entries,
}
use solana_vault_v.Tlv.RoundTrip.{init_entries-eq_ok}
use solana_vault_v.Updates.Initialize.{init_extension}

-- No type is stored twice.
abbrev pub IsDistinct : List Entry → Type 0
IsDistinct [] = Unit {0}
IsDistinct (e ∷ es) = (lookup es e.id ≡ none) × IsDistinct es

append-IsTyped :
    (es : List Entry) (t : ExtensionType) (value : Bytes)
    → IsTyped es
    → length value ≡ data_len t
    → IsTyped (append_entry es (type_id t) (data_len t) value)
append-IsTyped [] t value typed size =
    ((t, refl, length-padded (data_len t) value (omega (arith, size))), tt)
append-IsTyped (e ∷ es) t value (first, typed) size = (first, append-IsTyped es t value typed size)

append-IsDistinct :
    (es : List Entry) (id len : ℕ) (value : Bytes)
    → IsDistinct es
    → lookup es id ≡ none
    → IsDistinct (append_entry es id len value)
append-IsDistinct [] id len value distinct absent = (refl, tt)
append-IsDistinct (e ∷ es) id len value (new, distinct) absent =
    let rest : lookup es id ≡ none = ground (arith, absent) in
    (
      ground (arith, lookup-append_entry es id len value e.id rest, new, absent),
      append-IsDistinct es id len value distinct rest,
    )

replace-IsTyped :
    (es : List Entry) (t : ExtensionType) (value : Bytes)
    → IsTyped es
    → length value ≡ data_len t
    → IsTyped (replace es (type_id t) value)
replace-IsTyped [] t value typed size = tt
replace-IsTyped (e ∷ es) t value ((u, id, len), typed) size =
    elim (Bool-cases (e.id == type_id t)) [
      | inl same ↦
          let type : u ≡ t = type_id-inj u t (ground (arith, id, same)) in
          let lengths : data_len u ≡ data_len t = ap data_len type in
          let keeps = length-padded (length e.value) value (omega (arith, len, lengths, size)) in
          rw same ((u, id, keeps ∙ len), typed)
      | inr other ↦ rw other ((u, id, len), replace-IsTyped es t value typed size)
    ]

lookup-replace-none :
    (es : List Entry) (id k : ℕ) (value : Bytes)
    → lookup es k ≡ none
    → lookup (replace es id value) k ≡ none
lookup-replace-none [] id k value absent = refl
lookup-replace-none (e ∷ es) id k value absent =
    ground (arith, lookup-replace-none es id k value, absent)

replace-IsDistinct :
    (es : List Entry) (id : ℕ) (value : Bytes) → IsDistinct es → IsDistinct (replace es id value)
replace-IsDistinct [] id value distinct = tt
replace-IsDistinct (e ∷ es) id value (new, distinct) = elim (Bool-cases (e.id == id)) [
  | inl same ↦ rw same (new, distinct)
  | inr other ↦
      rw other (lookup-replace-none es id e.id value new, replace-IsDistinct es id value distinct)
]

grown : (head : Bytes) (es : List Entry) (n : ℕ) → account head es 0 ++ zeros n ≡ account head es n
grown head es n =
    append_assoc head (encode es []) (zeros n)
    ∙ ap (λ r. head ++ r) (sym (encode-append es (zeros n)))

-- What a successful call leaves of entries of known types, no type twice.
abbrev pub Keeps : Bytes → Bytes → Type 0
Keeps head account' =
    (es' : List Entry) × (account' ≡ account head es' 0) × IsTyped es' × IsDistinct es'

module _ {E : Type 0} (extension : VaultExtension E) (head : Bytes) (es : List Entry) (value : E)
    (typed : IsTyped es) (distinct : IsDistinct es) {account' : Bytes} where
  pub init_extension-Keeps :
      (authority : Pubkey) (v : Vault)
      → init_extension (length head) authority v extension (account head es 0) value ≡ ok account'
      → Keeps head account'
  unfolding init_extension
  init_extension-Keeps authority v h =
      let t = extension.extension_type in
      let n = tlv_len t in
      let valid = IsTyped-IsValid es typed in
      let grows =
        ap (λ d. init_vault_extension (length head) extension d v value) (sym (grown head es n)) in
      let same = init_vault_extension-init_entries extension head es n v value valid in
      let (absent, stands) =
        init_entries-eq_ok extension head es n v value (sym same ∙ grows ∙ h) in
      let bytes = extension.to_bytes value in
      let full : n - n ≡ 0 = omega arith in
      (
        append_entry es (type_id t) (data_len t) bytes,
        stands ∙ ap (account head (append_entry es (type_id t) (data_len t) bytes)) full,
        append-IsTyped es t bytes typed (extension.length-to_bytes value),
        append-IsDistinct es (type_id t) (data_len t) bytes distinct absent,
      )

  pub update_vault_extension-Keeps :
      update_vault_extension (length head) extension (account head es 0) value ≡ ok account'
      → Keeps head account'
  update_vault_extension-Keeps h =
      let t = extension.extension_type in
      let bytes = extension.to_bytes value in
      let same =
        update_vault_extension-update_entries extension head es 0 value
          (IsTyped-IsValid es typed) in
      let did = sym same ∙ h in
      elim (Option-cases (lookup es (type_id t))) [
        | inl absent ↦ absurd (ground (arith, did, absent))
        | inr (old, found) ↦ (
          replace es (type_id t) bytes,
          ground (arith, did, found),
          replace-IsTyped es t bytes typed (extension.length-to_bytes value),
          replace-IsDistinct es (type_id t) bytes distinct,
        )
      ]
