-- ===== src/Tlv/Region/Entries.antt =====
-- The association list that a region stands for, and its bytes.
use solana_vault_v.Base.{
  ℕ, ◌-◌, ◌≤◌, ◌<◌, ◌≡◌, refl, ap, sym, ◌∙◌, List, [], ◌∷◌, ◌++◌, Option, none, some, ok, err, leb,
  ◌==◌, if◌then◌else◌, arith,
}
use solana_vault_v.Bytes.{
  Bytes, length, zeros, low, high, length-append, length-zeros, append_assoc, append_nil,
}
use solana_vault_v.Error.{Outcome, program, uninitialized_extension, panicked}

pub record Entry : Type 0 where
  pub id : ℕ
  pub value : Bytes

-- The bytes of entries, before others.
abbrev pub encode : List Entry → Bytes → Bytes
encode [] after = after
encode (e ∷ es) after =
    low e.id
    ∷ high e.id
    ∷ low (length e.value)
    ∷ high (length e.value)
    ∷ (e.value ++ encode es after)

-- Type numbers and lengths fit a `u16`, and no type number is 0.
abbrev pub IsValid : List Entry → Type 0
IsValid [] = Unit {0}
IsValid (e ∷ es) = (0 < e.id) × (e.id < 65_536) × (length e.value < 65_536) × IsValid es

-- The first value under a type number.
abbrev pub lookup : List Entry → ℕ → Option Bytes
lookup [] id = none
lookup (e ∷ es) id = if e.id == id then some e.value else lookup es id

-- The value of an entry of a fixed length, padded with zeros.
abbrev pub padded : ℕ → Bytes → Bytes
padded len value = value ++ zeros (len - length value)

-- The first value under a type number, replaced; it keeps its length.
abbrev pub replace : List Entry → ℕ → Bytes → List Entry
replace [] id value = []
replace (e ∷ es) id value =
    if e.id == id
    then record e { value = padded (length e.value) value } ∷ es
    else e ∷ replace es id value

-- What `update_extension` does to the entries.
abbrev pub update_entries : List Entry → ℕ → Bytes → Outcome (List Entry)
update_entries es id value = elim (lookup es id) [
  | none ↦ err (program uninitialized_extension)
  | some old ↦ if leb (length value) (length old) then ok (replace es id value) else err panicked
]

-- The bytes of an outcome's entries, with so many zeros after them.
abbrev pub encoded : ℕ → Outcome (List Entry) → Outcome Bytes
encoded n (ok es) = ok (encode es (zeros n))
encoded n (err e) = err e

pub length-padded : (len : ℕ) (value : Bytes) → length value ≤ len → length (padded len value) ≡ len
length-padded len value h =
    let split = length-append value (zeros (len - length value)) in
    let rest = length-zeros (len - length value) in omega arith

pub encode-padded :
    (id len : ℕ) (value : Bytes) (es : List Entry) (after : Bytes)
    → length value ≤ len
    → encode (record { id = id; value = padded len value } ∷ es) after
      ≡ low id
        ∷ high id
        ∷ low len
        ∷ high len
        ∷ (value ++ (zeros (len - length value) ++ encode es after))
encode-padded id len value es after h = rw (length-padded len value h) (
    ap (λ r. low id ∷ high id ∷ low len ∷ high len ∷ r)
      (append_assoc value (zeros (len - length value)) (encode es after)))

pub encode-append : (es : List Entry) (after : Bytes) → encode es after ≡ encode es [] ++ after
encode-append [] after = refl
encode-append (e ∷ es) after =
    let rest = encode-append es after in
    ap (λ r. low e.id ∷ high e.id ∷ low (length e.value) ∷ high (length e.value) ∷ r)
      (ap (λ r. e.value ++ r) rest ∙ sym (append_assoc e.value (encode es []) after))

-- The entries and a new one after them.
abbrev pub append_entry : List Entry → ℕ → ℕ → Bytes → List Entry
append_entry es id len value = es ++ (record { id = id; value = padded len value } ∷ [])

pub lookup-append_entry :
    (es : List Entry) (id len : ℕ) (value : Bytes) (k : ℕ)
    → lookup es id ≡ none
    → lookup (append_entry es id len value) k
      ≡ (if k == id then some (padded len value) else lookup es k)
lookup-append_entry [] id len value k h = ground arith
lookup-append_entry (e ∷ es) id len value k h =
    ground (arith, lookup-append_entry es id len value k)

pub lookup-replace :
    (es : List Entry) (id k : ℕ) (value old : Bytes)
    → lookup es id ≡ some old
    → lookup (replace es id value) k
      ≡ (if k == id then some (padded (length old) value) else lookup es k)
lookup-replace [] id k value old h = cc
lookup-replace (e ∷ es) id k value old h = ground (arith, lookup-replace es id k value old)

pub padded-full : (value : Bytes) → padded (length value) value ≡ value
padded-full value =
    let none_left : length value - length value ≡ 0 = omega arith in rw none_left (append_nil value)

pub append_entry-IsValid :
    (es : List Entry) (id len : ℕ) (value : Bytes)
    → IsValid es
    → 0 < id
    → id < 65_536
    → len < 65_536
    → length value ≤ len
    → IsValid (append_entry es id len value)
append_entry-IsValid [] id len value valid pos small short fits =
    let size = length-padded len value fits in (pos, small, omega arith, tt)
append_entry-IsValid (e ∷ es) id len value (p, s, l, valid) pos small short fits =
    (p, s, l, append_entry-IsValid es id len value valid pos small short fits)

pub replace-IsValid :
    (es : List Entry) (id : ℕ) (value old : Bytes)
    → IsValid es
    → lookup es id ≡ some old
    → length value ≤ length old
    → IsValid (replace es id value)
replace-IsValid [] id value old valid found fits = tt
replace-IsValid (e ∷ es) id value old (p, s, l, valid) found fits =
    ground (arith, length-padded (length e.value) value, replace-IsValid es id value old valid)
