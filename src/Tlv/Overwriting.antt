-- ===== src/Tlv/Overwriting.antt =====
-- The loop of `update_extension` ends (programs/async_vault_v2/src/extensions/tlv.rs).
use solana_vault_v.Base.{
  ℕ, zero, suc, ◌+◌, ◌-◌, ◌≤◌, ◌<◌, ◌≡◌, refl, ap, sym, [], ◌∷◌, arith, Bool-cases, inl, inr, ◌==◌,
  ltb, leb, ◌++◌, ok, err, ◌>>=◌, ◌∙◌,
}
use solana_vault_v.Bytes.{Bytes, length, take, drop, zeros, length-drop, from_le, append_assoc}
use solana_vault_v.Error.{Outcome}
use solana_vault_v.Tlv.Raw.{update_loop, overwrite}
use solana_vault_v.Tlv.Runs.{
  UpdateRun, update_short, update_cut, update_backwards, update_found, update_next, seen, ends,
}

take-add : (n m : ℕ) (xs : Bytes) → take (n + m) xs ≡ take n xs ++ take m (drop n xs)
take-add zero m xs = ap (λ k. take k xs) (omega arith)
take-add (suc n) zero [] = let e : suc n + zero ≡ suc n = omega arith in rw e refl
take-add (suc n) (suc m) [] = let e : suc n + suc m ≡ suc (n + suc m) = omega arith in rw e refl
take-add (suc n) m (x ∷ xs) =
    let e : suc n + m ≡ suc (n + m) = omega arith in rw e (ap (λ r. x ∷ r) (take-add n m xs))

-- A result for the bytes from an offset on, with the bytes before it.
abbrev pub whole : Bytes → ℕ → Outcome Bytes → Outcome Bytes
whole tlv offset result = result >>= (λ r. ok (take offset tlv ++ r))

pub whole-zero : (tlv : Bytes) (result : Outcome Bytes) → whole tlv 0 result ≡ result
whole-zero tlv (ok r) = refl
whole-zero tlv (err e) = refl

-- A header and some bytes behind it join the bytes before.
joined :
    (tlv : Bytes) (offset t0 t1 l0 l1 len : ℕ) (rest r : Bytes)
    → drop offset tlv ≡ t0 ∷ t1 ∷ l0 ∷ l1 ∷ rest
    → take offset tlv ++ (t0 ∷ t1 ∷ l0 ∷ l1 ∷ (take len rest ++ r))
      ≡ take (offset + 4 + len) tlv ++ r
joined tlv offset t0 t1 l0 l1 len rest r h =
    let e : 4 + len ≡ suc (suc (suc (suc len))) = omega arith in
    let e' : offset + 4 + len ≡ offset + (4 + len) = omega arith in
    let head : take (4 + len) (drop offset tlv) ≡ t0 ∷ t1 ∷ l0 ∷ l1 ∷ take len rest =
      rw h (rw e refl) in
    let front : take (offset + 4 + len) tlv
        ≡ take offset tlv ++ (t0 ∷ t1 ∷ l0 ∷ l1 ∷ take len rest) =
      rw e' (take-add offset (4 + len) tlv ∙ ap (λ x. take offset tlv ++ x) head) in
    rw front (sym (append_assoc (take offset tlv) (t0 ∷ t1 ∷ l0 ∷ l1 ∷ take len rest) r))

whole-next :
    (tlv : Bytes) (offset t0 t1 l0 l1 len : ℕ) (rest : Bytes) (result : Outcome Bytes)
    → drop offset tlv ≡ t0 ∷ t1 ∷ l0 ∷ l1 ∷ rest
    → whole tlv (offset + 4 + len) result
      ≡ whole tlv offset (result >>= (λ r. ok (t0 ∷ t1 ∷ l0 ∷ l1 ∷ (take len rest ++ r))))
whole-next tlv offset t0 t1 l0 l1 len rest (ok r) h =
    ap ok (sym (joined tlv offset t0 t1 l0 l1 len rest r h))
whole-next tlv offset t0 t1 l0 l1 len rest (err e) h = refl

pub update_loop-UpdateRun :
    (fuel : ℕ) (tlv : Bytes) (id : ℕ) (value : Bytes) (offset : ℕ) (rest : Bytes)
    → drop offset tlv ≡ rest
    → length rest ≤ fuel
    → UpdateRun tlv id value offset (whole tlv offset (update_loop fuel rest id value))
unfolding update_loop overwrite
update_loop-UpdateRun zero tlv id value offset [] h enough =
    update_short (ends tlv offset [] h (omega arith))
update_loop-UpdateRun zero tlv id value offset (_ ∷ _) h enough = absurd (omega arith)
update_loop-UpdateRun (suc fuel) tlv id value offset [] h enough =
    update_short (ends tlv offset _ h (omega arith))
update_loop-UpdateRun (suc fuel) tlv id value offset (_ ∷ []) h enough =
    update_short (ends tlv offset _ h (omega arith))
update_loop-UpdateRun (suc fuel) tlv id value offset (_ ∷ _ ∷ []) h enough =
    update_short (ends tlv offset _ h (omega arith))
update_loop-UpdateRun (suc fuel) tlv id value offset (_ ∷ _ ∷ _ ∷ []) h enough =
    update_short (ends tlv offset _ h (omega arith))
update_loop-UpdateRun (suc fuel) tlv id value offset (t0 ∷ t1 ∷ l0 ∷ l1 ∷ rest) h enough =
    let see = seen tlv offset t0 t1 l0 l1 rest h in
    let len = from_le l0 l1 in
    let size = see.size in
    let shorter = length-drop len rest in
    elim (Bool-cases (ltb (length rest) len)) [
      | inl cut ↦
          let past : length rest < len = ground (arith, cut) in
          rw cut (update_cut see.header (omega (arith, size, past)))
      | inr fits ↦
          let within : len ≤ length rest = ground (arith, fits) in
          elim (Bool-cases (from_le t0 t1 == id)) [
            | inl same ↦ elim (Bool-cases (leb (length value) len)) [
              | inl small ↦
                  let filled =
                    joined tlv offset t0 t1 l0 l1 0 rest
                      (value ++ (zeros (len - length value) ++ drop len rest)) h in
                  let e : offset + 4 + 0 ≡ offset + 4 = omega arith in
                  rw fits (
                    rw same (
                      rw small (
                        rw (rw e at filled) (
                          rw (sym see.after) (
                            update_found see.header (omega (arith, size, within))
                              (ground (arith, same)) (ground (arith, small)))))))
              | inr large ↦ rw fits (
                  rw same (
                    rw large (
                      update_backwards see.header (omega (arith, size, within))
                        (ground (arith, same)) (ground (arith, large)))))
            ]
            | inr other ↦
                let next =
                  update_loop-UpdateRun fuel tlv id value (offset + 4 + len) (drop len rest)
                    see.after (omega arith) in
                let rejoined =
                  whole-next tlv offset t0 t1 l0 l1 len rest
                    (update_loop fuel (drop len rest) id value) h in
                rw fits (
                  rw other (
                    update_next see.header (omega (arith, size, within)) (ground (arith, other))
                      (rw rejoined at next)))
          ]
    ]
