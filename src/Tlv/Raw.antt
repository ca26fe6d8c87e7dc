-- ===== src/Tlv/Raw.antt =====
-- The loops and the writes on the raw region (programs/async_vault_v2/src/extensions/tlv.rs). The
-- source walks the region with an offset; here a loop holds the bytes from the offset on. Fuel counts
-- the rounds: a loop starts with the number of bytes, and each round passes the four of a header.
use solana_vault_v.Base.{
  ℕ, suc, ◌+◌, ◌-◌, Bool, ◌∷◌, ◌++◌, Option, none, some, is_some, ok, err, ◌>>=◌, ◌>>◌, ltb, leb,
  ◌==◌, if◌then◌else◌,
}
use solana_vault_v.Bytes.{Bytes, length, take, drop, zeros, low, high, from_le}
use solana_vault_v.Error.{
  Outcome, program, panicked, require, invalid_extension_data, uninitialized_extension,
}

abbrev pub tlv_header_size : ℕ
tlv_header_size = 4

-- The body of the loop of `get_extension_bytes_raw`, from a header on.
unfoldable pub get_loop : ℕ → Bytes → ℕ → Option Bytes
get_loop (suc fuel) (t0 ∷ t1 ∷ l0 ∷ l1 ∷ rest) ext_type_id =
    let entry_len = from_le l0 l1 in
    let next = get_loop fuel (drop entry_len rest) ext_type_id in
    if ltb (length rest) entry_len
    then none
    else if from_le t0 t1 == ext_type_id
    then some (take entry_len rest)
    else next
get_loop _ _ _ = none

unfoldable pub get_extension_bytes_raw : Bytes → ℕ → Option Bytes
get_extension_bytes_raw tlv_data ext_type_id = get_loop (length tlv_data) tlv_data ext_type_id

unfoldable pub has_extension_raw : Bytes → ℕ → Bool
has_extension_raw tlv_data ext_type_id = is_some (get_extension_bytes_raw tlv_data ext_type_id)

-- An entry that pads its value with zeros to its length.
abbrev pub entry_bytes : ℕ → ℕ → Bytes → Bytes → Bytes
entry_bytes type_id data_len value after =
    low type_id
    ∷ high type_id
    ∷ low data_len
    ∷ high data_len
    ∷ (value ++ (zeros (data_len - length value) ++ after))

unfoldable pub write_extension_raw : Bytes → ℕ → ℕ → ℕ → Bytes → Outcome Bytes
write_extension_raw tlv_data write_offset ext_type_id data_len value =
    let stop = write_offset + tlv_header_size + data_len in
    require (leb (length value) data_len) invalid_extension_data
    >> require (leb stop (length tlv_data)) invalid_extension_data
    >> ok
        (take write_offset tlv_data ++ entry_bytes ext_type_id data_len value (drop stop tlv_data))

-- The new value in place of an entry's, the rest of the entry zeroed. A value longer than the entry
-- makes an index run backwards, which panics.
unfoldable pub overwrite : ℕ → Bytes → Bytes → Outcome Bytes
overwrite entry_len new_value rest =
    if leb (length new_value) entry_len
    then ok (new_value ++ (zeros (entry_len - length new_value) ++ drop entry_len rest))
    else err panicked

unfoldable pub update_loop : ℕ → Bytes → ℕ → Bytes → Outcome Bytes
update_loop (suc fuel) (t0 ∷ t1 ∷ l0 ∷ l1 ∷ rest) ext_type_id new_value =
    let entry_len = from_le l0 l1 in
    let next = update_loop fuel (drop entry_len rest) ext_type_id new_value in
    if ltb (length rest) entry_len
    then err (program uninitialized_extension)
    else if from_le t0 t1 == ext_type_id
    then overwrite entry_len new_value rest >>= (λ r. ok (t0 ∷ t1 ∷ l0 ∷ l1 ∷ r))
    else next >>= (λ r. ok (t0 ∷ t1 ∷ l0 ∷ l1 ∷ (take entry_len rest ++ r)))
update_loop _ _ _ _ = err (program uninitialized_extension)

-- The loop of `update_extension`, started at the head of the region.
unfoldable pub update_region : Bytes → ℕ → Bytes → Outcome Bytes
update_region tlv_data ext_type_id new_value =
    update_loop (length tlv_data) tlv_data ext_type_id new_value

unfoldable pub used_loop : ℕ → Bytes → ℕ
used_loop (suc fuel) (t0 ∷ t1 ∷ l0 ∷ l1 ∷ rest) =
    let entry_len = from_le l0 l1 in
    let next = used_loop fuel (drop entry_len rest) in
    if from_le t0 t1 == 0
    then 0
    else if ltb (length rest) entry_len
    then 0
    else tlv_header_size + entry_len + next
used_loop _ _ = 0

unfoldable pub tlv_used_len : Bytes → ℕ
tlv_used_len tlv_data = used_loop (length tlv_data) tlv_data
