-- ===== src/Tlv/Termination.antt =====
-- The loops on the region end (programs/async_vault_v2/src/extensions/tlv.rs).
use solana_vault_v.Base.{
  ℕ, zero, suc, ◌+◌, ◌≤◌, ◌<◌, ◌≡◌, refl, ap, sym, [], ◌∷◌, arith, Bool-cases, inl, inr, ◌==◌, ltb,
}
use solana_vault_v.Bytes.{Bytes, length, take, drop, length-drop, from_le}
use solana_vault_v.Tlv.Raw.{
  get_loop, get_extension_bytes_raw, update_loop, update_region, used_loop, tlv_used_len,
}
use solana_vault_v.Tlv.Overwriting.{whole-zero, update_loop-UpdateRun}
use solana_vault_v.Tlv.Runs.{
  GetRun, get_short, get_cut, get_found, get_next, UpdateRun, UsedRun, used_short, used_empty,
  used_cut, used_next, used_at, seen, ends,
}

get_loop-GetRun :
    (fuel : ℕ) (tlv : Bytes) (id offset : ℕ) (rest : Bytes)
    → drop offset tlv ≡ rest
    → length rest ≤ fuel
    → GetRun tlv id offset (get_loop fuel rest id)
unfolding get_loop
get_loop-GetRun zero tlv id offset [] h enough = get_short (ends tlv offset [] h (omega arith))
get_loop-GetRun zero tlv id offset (_ ∷ _) h enough = absurd (omega arith)
get_loop-GetRun (suc fuel) tlv id offset [] h enough = get_short (ends tlv offset _ h (omega arith))
get_loop-GetRun (suc fuel) tlv id offset (_ ∷ []) h enough =
    get_short (ends tlv offset _ h (omega arith))
get_loop-GetRun (suc fuel) tlv id offset (_ ∷ _ ∷ []) h enough =
    get_short (ends tlv offset _ h (omega arith))
get_loop-GetRun (suc fuel) tlv id offset (_ ∷ _ ∷ _ ∷ []) h enough =
    get_short (ends tlv offset _ h (omega arith))
get_loop-GetRun (suc fuel) tlv id offset (t0 ∷ t1 ∷ l0 ∷ l1 ∷ rest) h enough =
    let see = seen tlv offset t0 t1 l0 l1 rest h in
    let len = from_le l0 l1 in
    let size = see.size in
    let shorter = length-drop len rest in
    elim (Bool-cases (ltb (length rest) len)) [
      | inl cut ↦
          let past : length rest < len = ground (arith, cut) in
          rw cut (get_cut see.header (omega (arith, size, past)))
      | inr fits ↦
          let within : len ≤ length rest = ground (arith, fits) in
          elim (Bool-cases (from_le t0 t1 == id)) [
            | inl same ↦
                let here = ap (λ r. take len r) see.behind in
                rw fits (
                  rw same (
                    rw (sym here)
                      (get_found see.header (omega (arith, size, within)) (ground (arith, same)))))
            | inr other ↦
                let next =
                  get_loop-GetRun fuel tlv id (offset + 4 + len) (drop len rest) see.after
                    (omega arith) in
                rw fits (
                  rw other (
                    get_next see.header (omega (arith, size, within)) (ground (arith, other)) next))
          ]
    ]

used_loop-UsedRun :
    (fuel : ℕ) (tlv : Bytes) (offset : ℕ) (rest : Bytes)
    → drop offset tlv ≡ rest
    → length rest ≤ fuel
    → UsedRun tlv offset (offset + used_loop fuel rest)
unfolding used_loop
used_loop-UsedRun zero tlv offset [] h enough =
    used_at (omega arith) (used_short (ends tlv offset [] h (omega arith)))
used_loop-UsedRun zero tlv offset (_ ∷ _) h enough = absurd (omega arith)
used_loop-UsedRun (suc fuel) tlv offset [] h enough =
    used_at (omega arith) (used_short (ends tlv offset _ h (omega arith)))
used_loop-UsedRun (suc fuel) tlv offset (_ ∷ []) h enough =
    used_at (omega arith) (used_short (ends tlv offset _ h (omega arith)))
used_loop-UsedRun (suc fuel) tlv offset (_ ∷ _ ∷ []) h enough =
    used_at (omega arith) (used_short (ends tlv offset _ h (omega arith)))
used_loop-UsedRun (suc fuel) tlv offset (_ ∷ _ ∷ _ ∷ []) h enough =
    used_at (omega arith) (used_short (ends tlv offset _ h (omega arith)))
used_loop-UsedRun (suc fuel) tlv offset (t0 ∷ t1 ∷ l0 ∷ l1 ∷ rest) h enough =
    let see = seen tlv offset t0 t1 l0 l1 rest h in
    let len = from_le l0 l1 in
    let size = see.size in
    let shorter = length-drop len rest in
    elim (Bool-cases (from_le t0 t1 == 0)) [
      | inl empty ↦
          let kind : from_le t0 t1 ≡ 0 = ground (arith, empty) in
          rw empty (used_at (omega arith) (used_empty (rw kind at see.header)))
      | inr typed ↦ elim (Bool-cases (ltb (length rest) len)) [
        | inl cut ↦
            let past : length rest < len = ground (arith, cut) in
            rw typed
              (rw cut (used_at (omega arith) (used_cut see.header (omega (arith, size, past)))))
        | inr fits ↦
            let within : len ≤ length rest = ground (arith, fits) in
            let next =
              used_loop-UsedRun fuel tlv (offset + 4 + len) (drop len rest) see.after
                (omega arith) in
            rw typed (
              rw fits (
                used_next see.header (ground (arith, typed)) (omega (arith, size, within))
                  (used_at (omega arith) next)))
      ]
    ]

-- The search, the overwriting and the measuring of the used bytes end on a region of any bytes, and
-- return, errors included, what the runs of the source's loops from offset zero return: the runs pass
-- one entry at a time, and each stops where the condition of the loop fails, at an entry that is cut
-- off, or at the entry that it looks for (the first of type zero in the measuring).
pub region_loops-end :
    (tlv : Bytes) (id : ℕ) (value : Bytes)
    → GetRun tlv id 0 (get_extension_bytes_raw tlv id)
      × UpdateRun tlv id value 0 (update_region tlv id value)
      × UsedRun tlv 0 (tlv_used_len tlv)
unfolding get_extension_bytes_raw update_region tlv_used_len
region_loops-end tlv id value = (
  get_loop-GetRun (length tlv) tlv id 0 tlv refl (omega arith),
  rw (whole-zero tlv (update_loop (length tlv) tlv id value)) at
      (update_loop-UpdateRun (length tlv) tlv id value 0 tlv refl (omega arith)),
  used_at (omega arith) (used_loop-UsedRun (length tlv) tlv 0 tlv refl (omega arith)),
)
