-- ===== src/Tlv/Runs.antt =====
-- The loops of the region (programs/async_vault_v2/src/extensions/tlv.rs) without fuel: the runs of
-- each `while` loop, in the source's offsets, as an inductive relation. A derivation is a run that
-- ends, so a loop that stands still has none.
use solana_vault_v.Base.{
  ℕ, ◌+◌, ◌-◌, ◌≤◌, ◌<◌, ◌≡◌, ◌≢◌, refl, ap, sym, ◌∙◌, Option, none, some, [], ◌∷◌, ◌++◌, arith, ok,
  err,
}
use solana_vault_v.Bytes.{Bytes, length, take, drop, slice, zeros, length-drop, from_le, drop-drop}
use solana_vault_v.Error.{Outcome, program, panicked, uninitialized_extension}

-- A whole header at an offset, with the entry's type and length.
abbrev pub HeaderAt : Bytes → ℕ → ℕ → ℕ → Type 0
HeaderAt tlv offset entry_type entry_len =
    (t0 t1 l0 l1 : ℕ) × (slice offset 4 tlv ≡ t0 ∷ t1 ∷ l0 ∷ l1 ∷ [])
    × (entry_type ≡ from_le t0 t1)
    × (entry_len ≡ from_le l0 l1)

-- The runs of the loop of `get_extension_bytes_raw` from an offset on, with what they return.
pub data GetRun (tlv : Bytes) (id : ℕ) : ℕ → Option Bytes → Type 0 where
  get_short : {offset : ℕ} → length tlv < offset + 4 → GetRun tlv id offset none
  get_cut :
      {offset t len : ℕ}
      → HeaderAt tlv offset t len
      → length tlv < offset + 4 + len
      → GetRun tlv id offset none
  get_found :
      {offset t len : ℕ}
      → HeaderAt tlv offset t len
      → offset + 4 + len ≤ length tlv
      → t ≡ id
      → GetRun tlv id offset (some (slice (offset + 4) len tlv))
  get_next :
      {offset t len : ℕ} {result : Option Bytes}
      → HeaderAt tlv offset t len
      → offset + 4 + len ≤ length tlv
      → t ≢ id
      → GetRun tlv id (offset + 4 + len) result
      → GetRun tlv id offset result

-- The runs of the loop of `tlv_used_len`.
pub data UsedRun (tlv : Bytes) : ℕ → ℕ → Type 0 where
  used_short : {offset : ℕ} → length tlv < offset + 4 → UsedRun tlv offset offset
  used_empty : {offset len : ℕ} → HeaderAt tlv offset 0 len → UsedRun tlv offset offset
  used_cut :
      {offset t len : ℕ}
      → HeaderAt tlv offset t len
      → length tlv < offset + 4 + len
      → UsedRun tlv offset offset
  used_next :
      {offset t len result : ℕ}
      → HeaderAt tlv offset t len
      → t ≢ 0
      → offset + 4 + len ≤ length tlv
      → UsedRun tlv (offset + 4 + len) result
      → UsedRun tlv offset result

-- The runs of the loop of `update_extension`, with the region that it leaves.
pub data UpdateRun (tlv : Bytes) (id : ℕ) (value : Bytes) : ℕ → Outcome Bytes → Type 0 where
  update_short :
      {offset : ℕ}
      → length tlv < offset + 4
      → UpdateRun tlv id value offset (err (program uninitialized_extension))
  update_cut :
      {offset t len : ℕ}
      → HeaderAt tlv offset t len
      → length tlv < offset + 4 + len
      → UpdateRun tlv id value offset (err (program uninitialized_extension))
  update_backwards :
      {offset t len : ℕ}
      → HeaderAt tlv offset t len
      → offset + 4 + len ≤ length tlv
      → t ≡ id
      → len < length value
      → UpdateRun tlv id value offset (err panicked)
  update_found :
      {offset t len : ℕ}
      → HeaderAt tlv offset t len
      → offset + 4 + len ≤ length tlv
      → t ≡ id
      → length value ≤ len
      → UpdateRun tlv id value offset (
          ok (
            take (offset + 4) tlv
            ++ (value ++ (zeros (len - length value) ++ drop (offset + 4 + len) tlv))))
  update_next :
      {offset t len : ℕ} {result : Outcome Bytes}
      → HeaderAt tlv offset t len
      → offset + 4 + len ≤ length tlv
      → t ≢ id
      → UpdateRun tlv id value (offset + 4 + len) result
      → UpdateRun tlv id value offset result

pub used_at : {tlv : Bytes} {offset a b : ℕ} → a ≡ b → UsedRun tlv offset a → UsedRun tlv offset b
used_at {tlv} {offset} e run = rw (sym e) run

-- What the bytes from an offset on show of the whole region.
pub record Seen (tlv : Bytes) (offset t len : ℕ) (rest : Bytes) : Type 0 where
  pub header : HeaderAt tlv offset t len
  pub behind : drop (offset + 4) tlv ≡ rest
  pub size : length tlv ≡ offset + 4 + length rest
  pub after : drop (offset + 4 + len) tlv ≡ drop len rest

pub seen :
    (tlv : Bytes) (offset t0 t1 l0 l1 : ℕ) (rest : Bytes)
    → drop offset tlv ≡ t0 ∷ t1 ∷ l0 ∷ l1 ∷ rest
    → Seen tlv offset (from_le t0 t1) (from_le l0 l1) rest
seen tlv offset t0 t1 l0 l1 rest h =
    let behind : drop (offset + 4) tlv ≡ rest =
      sym (drop-drop offset 4 tlv) ∙ ap (λ r. drop 4 r) h in
    let left = ap length h in
    let size = length-drop offset tlv in
    record {
      header = (t0, t1, l0, l1, ap (λ r. take 4 r) h, refl, refl);
      behind = behind;
      size = omega arith;
      after =
          sym (drop-drop (offset + 4) (from_le l0 l1) tlv)
          ∙ ap (λ r. drop (from_le l0 l1) r) behind;
    }

-- Too few bytes are left for a header.
pub ends :
    (tlv : Bytes) (offset : ℕ) (rest : Bytes)
    → drop offset tlv ≡ rest
    → length rest < 4
    → length tlv < offset + 4
ends tlv offset rest h few =
    let left = ap length h in let size = length-drop offset tlv in omega arith
