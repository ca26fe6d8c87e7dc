-- ===== src/Tlv/Types.antt =====
-- The types of extension of a vault and of a request, their discriminants and lengths
-- (programs/async_vault_v2/src/extensions/vault_extensions.rs and request_extensions.rs).
use solana_vault_v.Base.{ℕ, ◌+◌, Option, none, some, ◌==◌, if◌then◌else◌}
use solana_vault_v.Tlv.Raw.{tlv_header_size}

pub data ExtensionType : Type 0 where
  deposit_fee withdrawal_fee pausable_subscriptions pausable_redemptions : ExtensionType
  subscription_queue redemption_queue min_subscription min_redemption : ExtensionType
  externally_managed_withdrawals instant_settlement : ExtensionType

-- `ext_type as u16`
abbrev pub type_id : ExtensionType → ℕ
type_id deposit_fee = 1
type_id withdrawal_fee = 2
type_id pausable_subscriptions = 3
type_id pausable_redemptions = 4
type_id subscription_queue = 5
type_id redemption_queue = 6
type_id min_subscription = 7
type_id min_redemption = 8
type_id externally_managed_withdrawals = 9
type_id instant_settlement = 10

unfoldable pub try_from_u16 : ℕ → Option ExtensionType
try_from_u16 value =
    if value == 1
    then some deposit_fee
    else if value == 2
    then some withdrawal_fee
    else if value == 3
    then some pausable_subscriptions
    else if value == 4
    then some pausable_redemptions
    else if value == 5
    then some subscription_queue
    else if value == 6
    then some redemption_queue
    else if value == 7
    then some min_subscription
    else if value == 8
    then some min_redemption
    else if value == 9
    then some externally_managed_withdrawals
    else if value == 10
    then some instant_settlement
    else none

abbrev pub data_len : ExtensionType → ℕ
data_len deposit_fee = 9
data_len withdrawal_fee = 9
data_len pausable_subscriptions = 1
data_len pausable_redemptions = 1
data_len subscription_queue = 16
data_len redemption_queue = 16
data_len min_subscription = 8
data_len min_redemption = 8
data_len externally_managed_withdrawals = 1
data_len instant_settlement = 56

abbrev pub tlv_len : ExtensionType → ℕ
tlv_len t = tlv_header_size + data_len t

pub data RequestExtensionType : Type 0 where
  subscription_queue_request redemption_queue_request : RequestExtensionType

-- `ext_type as u16`
abbrev pub request_type_id : RequestExtensionType → ℕ
request_type_id subscription_queue_request = 1
request_type_id redemption_queue_request = 2

abbrev pub request_data_len : RequestExtensionType → ℕ
request_data_len _ = 8
