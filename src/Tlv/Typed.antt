-- ===== src/Tlv/Typed.antt =====
-- Regions whose entries all have a known type and the length of that type, as the program stores them.
use solana_vault_v.Base.{◌≡◌, ap, sym, ◌∙◌, List, [], ◌∷◌, some, ◌==◌, Bool-cases, inl, inr, arith}
use solana_vault_v.Bytes.{Bytes, length}
use solana_vault_v.Tlv.Types.{ExtensionType, type_id, data_len, try_from_u16}
use solana_vault_v.Tlv.Region.{Entry, IsValid, lookup}

abbrev pub IsTyped : List Entry → Type 0
IsTyped [] = Unit {0}
IsTyped (e ∷ es) =
    ((t : ExtensionType) × (e.id ≡ type_id t) × (length e.value ≡ data_len t)) × IsTyped es

try_from_u16-type_id : (t : ExtensionType) → try_from_u16 (type_id t) ≡ some t
unfolding try_from_u16
try_from_u16-type_id t = ground arith

-- A number belongs to one type.
pub type_id-inj : (t u : ExtensionType) → type_id t ≡ type_id u → t ≡ u
type_id-inj t u h = cc (try_from_u16-type_id t, try_from_u16-type_id u, h)

pub IsTyped-IsValid : (es : List Entry) → IsTyped es → IsValid es
IsTyped-IsValid [] typed = tt
IsTyped-IsValid (e ∷ es) ((t, id, size), typed) =
    (ground arith, ground arith, ground arith, IsTyped-IsValid es typed)

-- What is found under a type has the type's length.
pub lookup-IsTyped :
    (es : List Entry) (t : ExtensionType) {old : Bytes}
    → IsTyped es
    → lookup es (type_id t) ≡ some old
    → length old ≡ data_len t
lookup-IsTyped [] t typed found = cc
lookup-IsTyped (e ∷ es) t {old} ((u, id, size), typed) found =
    elim (Bool-cases (e.id == type_id t)) [
      | inl same ↦
          let here : e.value ≡ old = ground (arith, same, found) in
          let type : u ≡ t = type_id-inj u t (ground (arith, same, id)) in
          ap length (sym here) ∙ size ∙ ap data_len type
      | inr other ↦ lookup-IsTyped es t typed (ground (arith, other, found))
    ]
