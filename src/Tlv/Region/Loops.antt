-- ===== src/Tlv/Region/Loops.antt =====
-- What the loops over the bytes of a region do to the list.
use solana_vault_v.Base.{
  ℕ, zero, suc, ◌≤◌, ◌<◌, ◌≡◌, refl, List, [], ◌∷◌, none, err, arith, Option-cases,
}
use solana_vault_v.Bytes.{
  Bytes, length, zeros, from_le-low, length-append, take-append, drop-append,
}
use solana_vault_v.Error.{program, uninitialized_extension}
use solana_vault_v.Tlv.Raw.{
  get_loop, get_extension_bytes_raw, tlv_used_len, update_region, update_loop, overwrite, used_loop,
}
use solana_vault_v.Tlv.Region.Entries.{
  Entry, encode, IsValid, lookup, update_entries, encoded, encode-padded,
}

get_loop-zeros : (fuel n id : ℕ) → 0 < id → get_loop fuel (zeros n) id ≡ none
unfolding get_loop
get_loop-zeros zero n id h = refl
get_loop-zeros (suc fuel) zero id h = refl
get_loop-zeros (suc fuel) (suc zero) id h = refl
get_loop-zeros (suc fuel) (suc (suc zero)) id h = refl
get_loop-zeros (suc fuel) (suc (suc (suc zero))) id h = refl
get_loop-zeros (suc fuel) (suc (suc (suc (suc n)))) id h =
    let next = get_loop-zeros fuel n id h in ground arith

get_loop-encode :
    (fuel : ℕ) (es : List Entry) (n id : ℕ)
    → length (encode es (zeros n)) ≤ fuel
    → IsValid es
    → 0 < id
    → get_loop fuel (encode es (zeros n)) id ≡ lookup es id
unfolding get_loop
get_loop-encode fuel [] n id enough valid h = get_loop-zeros fuel n id h
get_loop-encode zero (e ∷ es) n id enough valid h = absurd (omega arith)
get_loop-encode (suc fuel) (e ∷ es) n id enough (pos, small, short, valid) h =
    let all = length-append e.value (encode es (zeros n)) in
    let next = get_loop-encode fuel es n id (omega arith) valid h in
    rw (from_le-low e.id small) (
      rw (from_le-low (length e.value) short) (
        rw (take-append e.value (encode es (zeros n)))
          (rw (drop-append e.value (encode es (zeros n))) (rw next (ground arith)))))

used_loop-zeros : (fuel n : ℕ) → used_loop fuel (zeros n) ≡ 0
unfolding used_loop
used_loop-zeros zero n = refl
used_loop-zeros (suc fuel) zero = refl
used_loop-zeros (suc fuel) (suc zero) = refl
used_loop-zeros (suc fuel) (suc (suc zero)) = refl
used_loop-zeros (suc fuel) (suc (suc (suc zero))) = refl
used_loop-zeros (suc fuel) (suc (suc (suc (suc n)))) = refl

used_loop-encode :
    (fuel : ℕ) (es : List Entry) (n : ℕ)
    → length (encode es (zeros n)) ≤ fuel
    → IsValid es
    → used_loop fuel (encode es (zeros n)) ≡ length (encode es [])
unfolding used_loop
used_loop-encode fuel [] n enough valid = used_loop-zeros fuel n
used_loop-encode zero (e ∷ es) n enough valid = absurd (omega arith)
used_loop-encode (suc fuel) (e ∷ es) n enough (pos, small, short, valid) =
    let all = length-append e.value (encode es (zeros n)) in
    let own = length-append e.value (encode es []) in
    let next = used_loop-encode fuel es n (omega arith) valid in
    rw (from_le-low e.id small) (
      rw (from_le-low (length e.value) short)
        (rw (drop-append e.value (encode es (zeros n))) (rw next (ground arith))))

update_loop-zeros :
    (fuel n id : ℕ) (value : Bytes)
    → 0 < id
    → update_loop fuel (zeros n) id value ≡ err (program uninitialized_extension)
unfolding update_loop
update_loop-zeros zero n id value h = refl
update_loop-zeros (suc fuel) zero id value h = refl
update_loop-zeros (suc fuel) (suc zero) id value h = refl
update_loop-zeros (suc fuel) (suc (suc zero)) id value h = refl
update_loop-zeros (suc fuel) (suc (suc (suc zero))) id value h = refl
update_loop-zeros (suc fuel) (suc (suc (suc (suc n)))) id value h =
    let next = update_loop-zeros fuel n id value h in ground arith

update_loop-encode :
    (fuel : ℕ) (es : List Entry) (n id : ℕ) (value : Bytes)
    → length (encode es (zeros n)) ≤ fuel
    → IsValid es
    → 0 < id
    → update_loop fuel (encode es (zeros n)) id value ≡ encoded n (update_entries es id value)
unfolding update_loop overwrite
update_loop-encode fuel [] n id value enough valid h = update_loop-zeros fuel n id value h
update_loop-encode zero (e ∷ es) n id value enough valid h = absurd (omega arith)
update_loop-encode (suc fuel) (e ∷ es) n id value enough (pos, small, short, valid) h =
    let all = length-append e.value (encode es (zeros n)) in
    let next = update_loop-encode fuel es n id value (omega arith) valid h in
    rw (from_le-low e.id small) (
      rw (from_le-low (length e.value) short) (
        rw (take-append e.value (encode es (zeros n))) (
          rw (drop-append e.value (encode es (zeros n))) (
            rw next (
              ground (
                arith,
                encode-padded e.id (length e.value) value es (zeros n),
                Option-cases (lookup es id),
              ))))))

pub get_extension_bytes_raw-encode :
    (es : List Entry) (n id : ℕ)
    → IsValid es
    → 0 < id
    → get_extension_bytes_raw (encode es (zeros n)) id ≡ lookup es id
unfolding get_extension_bytes_raw
get_extension_bytes_raw-encode es n id valid h =
    get_loop-encode (length (encode es (zeros n))) es n id (omega arith) valid h

pub tlv_used_len-encode :
    (es : List Entry) (n : ℕ)
    → IsValid es
    → tlv_used_len (encode es (zeros n)) ≡ length (encode es [])
unfolding tlv_used_len
tlv_used_len-encode es n valid =
    used_loop-encode (length (encode es (zeros n))) es n (omega arith) valid

pub update_region-encode :
    (es : List Entry) (n id : ℕ) (value : Bytes)
    → IsValid es
    → 0 < id
    → update_region (encode es (zeros n)) id value ≡ encoded n (update_entries es id value)
unfolding update_region
update_region-encode es n id value valid h =
    update_loop-encode (length (encode es (zeros n))) es n id value (omega arith) valid h
