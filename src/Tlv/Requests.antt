-- ===== src/Tlv/Requests.antt =====
-- The queue number in a request's account
-- (programs/async_vault_v2/src/extensions/request_extensions.rs).
use solana_vault_v.Base.{
  ℕ, ◌+◌, ◌-◌, ◌≤◌, ◌<◌, ◌≡◌, Bool, true, false, [], ◌++◌, List, Option, none, some, ok, ◌>>=◌, leb,
  ◌==◌, if◌then◌else◌, ok_or, u64_max, arith,
}
use solana_vault_v.Bytes.{
  Bytes, length, drop, zeros, u64_bytes, length-append, take-append, drop-append,
}
use solana_vault_v.Error.{Outcome, program, invalid_extension_data}
use solana_vault_v.Tlv.Raw.{
  tlv_header_size, get_extension_bytes_raw, has_extension_raw, write_extension_raw, tlv_used_len,
}
use solana_vault_v.Tlv.Types.{
  RequestExtensionType, subscription_queue_request, redemption_queue_request, request_type_id,
  request_data_len, type_id, subscription_queue, redemption_queue,
}
use solana_vault_v.Tlv.Region.{
  Entry, IsValid, append_entry, get_extension_bytes_raw-encode, tlv_used_len-encode, write-encode,
  encode,
}
use solana_vault_v.Tlv.Storage.{with_region}
use solana_vault_v.Tlv.Instances.{read_u64, read_u64-u64_bytes}

-- `RequestExtensionType::try_from_u16`
unfoldable pub request_try_from_u16 : ℕ → Option RequestExtensionType
request_try_from_u16 value =
    if value == 1
    then some subscription_queue_request
    else if value == 2
    then some redemption_queue_request
    else none

-- `SubscriptionQueueRequest` and `RedemptionQueueRequest` hold one `u64`, the number.
module _ (request_tlv_start : ℕ) (type : RequestExtensionType) where
  unfoldable pub init_request_extension : Bytes → ℕ → Outcome Bytes
  init_request_extension account_data id = with_region request_tlv_start account_data (λ tlv_data.
      write_extension_raw tlv_data (tlv_used_len tlv_data) (request_type_id type)
        (request_data_len type) (u64_bytes id))

  unfoldable pub has_request_extension : Bytes → Bool
  has_request_extension account_data =
      if leb (length account_data) request_tlv_start
      then false
      else has_extension_raw (drop request_tlv_start account_data) (request_type_id type)

  unfoldable pub read_request_extension : Bytes → Outcome (Option ℕ)
  read_request_extension account_data =
      if leb (length account_data) request_tlv_start
      then ok none
      else elim (get_extension_bytes_raw (drop request_tlv_start account_data)
          (request_type_id type)) [
            | none ↦ ok none
            | some bytes ↦
                ok_or (read_u64 bytes) (program invalid_extension_data) >>= (λ id. ok (some id))
          ]

-- The room that one queue of the vault takes in a request.
abbrev pub queue_space : Bytes → ℕ → RequestExtensionType → ℕ
queue_space tlv id type =
    if has_extension_raw tlv id then tlv_header_size + request_data_len type else 0

unfoldable pub compute_request_extension_space : ℕ → Bytes → ℕ
compute_request_extension_space tlv_start vault_data =
    let tlv = drop tlv_start vault_data in
    if leb (length vault_data) tlv_start
    then 0
    else queue_space tlv (type_id subscription_queue) subscription_queue_request
      + queue_space tlv (type_id redemption_queue) redemption_queue_request

-- The vault's queue that a request extension belongs to.
abbrev pub queue_type : RequestExtensionType → ℕ
queue_type subscription_queue_request = type_id subscription_queue
queue_type redemption_queue_request = type_id redemption_queue

request_type_id-bounds :
    (type : RequestExtensionType) → (0 < request_type_id type) × (request_type_id type < 65_536)
request_type_id-bounds type = ground arith

-- A vault that has the queue leaves room for the number.
space-room :
    (tlv_start : ℕ) (vault_data : Bytes) (type : RequestExtensionType)
    → has_extension_raw (drop tlv_start vault_data) (queue_type type) ≡ true
    → tlv_start < length vault_data
    → 12 ≤ compute_request_extension_space tlv_start vault_data
unfolding compute_request_extension_space
space-room tlv_start vault_data subscription_queue_request h room = ground arith
space-room tlv_start vault_data redemption_queue_request h room = ground arith

module _ (head : Bytes) (type : RequestExtensionType) (n id : ℕ) (room : 12 ≤ n) where
  -- The one entry of a new request.
  abbrev numbered : List Entry
  numbered = append_entry [] (request_type_id type) 8 (u64_bytes id)

  abbrev request_account : Bytes
  request_account = head ++ encode numbered (zeros (n - 12))

  numbered-IsValid : IsValid numbered
  numbered-IsValid = ground (arith, request_type_id-bounds type)

  init_request_extension-zeros :
      init_request_extension (length head) type (head ++ zeros n) id ≡ ok request_account
  unfolding init_request_extension
  init_request_extension-zeros =
      let all = length-append head (zeros n) in
      rw (drop-append head (zeros n)) (
        rw (take-append head (zeros n)) (
          ground (
            arith,
            tlv_used_len-encode [] n tt,
            write-encode [] n (request_type_id type) 8 (u64_bytes id) (omega arith)
                (omega (arith, room)),
          )))

  request_account-lookup :
      id ≤ u64_max
      → (read_request_extension (length head) type request_account ≡ ok (some id))
        × (has_request_extension (length head) type request_account ≡ true)
  unfolding read_request_extension has_request_extension has_extension_raw
  request_account-lookup fits =
      let region = encode numbered (zeros (n - 12)) in
      let all = length-append head region in
      let (pos, _) = request_type_id-bounds type in
      let found =
        get_extension_bytes_raw-encode numbered (n - 12) (request_type_id type) numbered-IsValid
          pos in
      let back = read_u64-u64_bytes id fits in
      rw (drop-append head region) (rw found (ground (arith, back), ground arith))

-- In a vault that has the queue, storing the number of a new request succeeds in the room that
-- the vault's extensions make for it, and the number is read back.
pub init_request_extension-compute_request_extension_space :
    (tlv_start : ℕ) (vault_data head : Bytes) (type : RequestExtensionType) (id : ℕ)
    → has_extension_raw (drop tlv_start vault_data) (queue_type type) ≡ true
    → tlv_start < length vault_data
    → id ≤ u64_max
    → let space = compute_request_extension_space tlv_start vault_data in
      (account' : Bytes) × (init_request_extension (length head) type (head ++ zeros space) id
        ≡ ok account')
      × (read_request_extension (length head) type account' ≡ ok (some id))
      × (has_request_extension (length head) type account' ≡ true)
init_request_extension-compute_request_extension_space tlv_start vault_data head type id has within
      fits =
    let space = compute_request_extension_space tlv_start vault_data in
    let room = space-room tlv_start vault_data type has within in
    let (read, present) = request_account-lookup head type space id room fits in
    (
      request_account head type space id room,
      init_request_extension-zeros head type space id room,
      read,
      present,
    )
