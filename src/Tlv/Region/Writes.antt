-- ===== src/Tlv/Region/Writes.antt =====
-- Writing a new entry behind the others.
use solana_vault_v.Base.{ℕ, ◌+◌, ◌-◌, ◌≤◌, ◌<◌, ◌≡◌, refl, ap, List, [], ◌∷◌, ◌++◌, ok, err, arith}
use solana_vault_v.Bytes.{
  Bytes, length, zeros, low, high, length-append, length-zeros, take-append, drop-add, drop-zeros,
}
use solana_vault_v.Error.{program, invalid_extension_data}
use solana_vault_v.Tlv.Raw.{write_extension_raw, tlv_header_size}
use solana_vault_v.Tlv.Region.Entries.{
  Entry, encode, padded, append_entry, encode-padded, encode-append,
}

encode-snoc :
    (es : List Entry) (e : Entry) (after : Bytes)
    → encode (es ++ (e ∷ [])) after ≡ encode es (encode (e ∷ []) after)
encode-snoc [] e after = refl
encode-snoc (d ∷ es) e after =
    ap (λ r. low d.id ∷ high d.id ∷ low (length d.value) ∷ high (length d.value) ∷ (d.value ++ r))
      (encode-snoc es e after)

pub write-encode :
    (es : List Entry) (n id len : ℕ) (value : Bytes)
    → length value ≤ len
    → tlv_header_size + len ≤ n
    → write_extension_raw (encode es (zeros n)) (length (encode es [])) id len value
      ≡ ok (encode (append_entry es id len value) (zeros (n - (tlv_header_size + len))))
unfolding write_extension_raw
write-encode es n id len value fits room =
    let p = encode es [] in
    let stop : length p + tlv_header_size + len ≡ length p + (tlv_header_size + len) =
      omega arith in
    let all = length-append p (zeros n) in
    let size = length-zeros n in
    let e : Entry = record { id = id; value = padded len value } in
    let z = zeros (n - (tlv_header_size + len)) in
    rw (encode-append es (zeros n)) (
      rw stop (
        rw (take-append p (zeros n)) (
          rw (drop-add (tlv_header_size + len) p (zeros n)) (
            rw (drop-zeros (tlv_header_size + len) n room) (
              rw (encode-snoc es e z) (
                rw (encode-append es (encode (e ∷ []) z))
                  (rw (encode-padded id len value [] z fits) (ground arith))))))))

pub write-no_room :
    (es : List Entry) (n id len : ℕ) (value : Bytes)
    → length value ≤ len
    → n < tlv_header_size + len
    → write_extension_raw (encode es (zeros n)) (length (encode es [])) id len value
      ≡ err (program invalid_extension_data)
unfolding write_extension_raw
write-no_room es n id len value fits full =
    let all = length-append (encode es []) (zeros n) in
    let size = length-zeros n in rw (encode-append es (zeros n)) (ground arith)
