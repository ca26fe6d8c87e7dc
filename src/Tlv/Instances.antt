-- ===== src/Tlv/Instances.antt =====
-- The plain-data types that a vault stores as extensions, with their bytes
-- (programs/async_vault_v2/src/extensions/*/processor.rs).
use solana_vault_v.Base.{
  ℕ, ◌+◌, ◌*◌, ◌≤◌, ◌<◌, ◌≡◌, refl, ap, [], ◌∷◌, ◌++◌, Option, none, some, ◌==◌, if◌then◌else◌,
  u64_max, arith,
}
use solana_vault_v.Bytes.{
  Bytes, length, take, drop, slice, zeros, u64_bytes, u64_bytes-read, from_le_bytes,
}
use solana_vault_v.Fee.{FeeData}
use solana_vault_v.Queue.{FifoQueue}
use solana_vault_v.Extensions.{InstantSettlement}
use solana_vault_v.Tlv.Types.{
  ExtensionType, data_len, deposit_fee, withdrawal_fee, pausable_subscriptions,
  pausable_redemptions, subscription_queue, redemption_queue, min_subscription, min_redemption,
  externally_managed_withdrawals, instant_settlement,
}
use solana_vault_v.Tlv.Storage.{VaultExtension}

-- A structure of one `u8` (`PausableSubscription`, `PausableRedemption`,
-- `ExternallyManagedWithdrawals`).
abbrev pub read_byte : Bytes → Option ℕ
read_byte (b ∷ []) = some b
read_byte _ = none

abbrev pub byte_extension : (t : ExtensionType) → 1 ≡ data_len t → VaultExtension ℕ
byte_extension t size = record {
  extension_type = t;
  to_bytes = λ b. b ∷ [];
  from_bytes = read_byte;
  Fits = λ b. b < 256;
  length-to_bytes = λ b. size;
  from_bytes-to_bytes = λ b h. refl;
}

abbrev pub pausable_subscriptions_extension : VaultExtension ℕ
pausable_subscriptions_extension = byte_extension pausable_subscriptions refl

abbrev pub pausable_redemptions_extension : VaultExtension ℕ
pausable_redemptions_extension = byte_extension pausable_redemptions refl

abbrev pub externally_managed_extension : VaultExtension ℕ
externally_managed_extension = byte_extension externally_managed_withdrawals refl

-- A structure of one `u64` (`MinSubscription`, `MinRedemption`).
abbrev pub read_u64 : Bytes → Option ℕ
read_u64 bytes = if length bytes == 8 then some (from_le_bytes bytes) else none

pub read_u64-u64_bytes : (n : ℕ) → n ≤ u64_max → read_u64 (u64_bytes n) ≡ some n
read_u64-u64_bytes n h = ap some (u64_bytes-read n h)

abbrev pub threshold_extension : (t : ExtensionType) → 8 ≡ data_len t → VaultExtension ℕ
threshold_extension t size = record {
  extension_type = t;
  to_bytes = u64_bytes;
  from_bytes = read_u64;
  Fits = λ n. n ≤ u64_max;
  length-to_bytes = λ n. size;
  from_bytes-to_bytes = read_u64-u64_bytes;
}

abbrev pub min_subscription_extension : VaultExtension ℕ
min_subscription_extension = threshold_extension min_subscription refl

abbrev pub min_redemption_extension : VaultExtension ℕ
min_redemption_extension = threshold_extension min_redemption refl

-- `SubscriptionQueue` and `RedemptionQueue`
abbrev pub queue_bytes : FifoQueue → Bytes
queue_bytes q = u64_bytes q.total ++ u64_bytes q.last_processed

abbrev pub read_queue : Bytes → Option FifoQueue
read_queue bytes =
    if length bytes == 16
    then some (record {
      total = from_le_bytes (take 8 bytes);
      last_processed = from_le_bytes (drop 8 bytes);
    })
    else none

abbrev pub FitsQueue : FifoQueue → Type 0
FitsQueue q = (q.total ≤ u64_max) × (q.last_processed ≤ u64_max)

pub read_queue-queue_bytes : (q : FifoQueue) → FitsQueue q → read_queue (queue_bytes q) ≡ some q
read_queue-queue_bytes q (t, l) = ap some (λ i. record {
  total = u64_bytes-read q.total t i;
  last_processed = u64_bytes-read q.last_processed l i;
})

abbrev pub queue_extension : (t : ExtensionType) → 16 ≡ data_len t → VaultExtension FifoQueue
queue_extension t size = record {
  extension_type = t;
  to_bytes = queue_bytes;
  from_bytes = read_queue;
  Fits = FitsQueue;
  length-to_bytes = λ q. size;
  from_bytes-to_bytes = read_queue-queue_bytes;
}

abbrev pub subscription_queue_extension : VaultExtension FifoQueue
subscription_queue_extension = queue_extension subscription_queue refl

abbrev pub redemption_queue_extension : VaultExtension FifoQueue
redemption_queue_extension = queue_extension redemption_queue refl

-- `DepositFee` and `WithdrawalFee`
abbrev pub fee_bytes : FeeData → Bytes
fee_bytes fee =
    let p = fee.payload in
    fee.discriminant ∷ p.b0 ∷ p.b1 ∷ p.b2 ∷ p.b3 ∷ p.b4 ∷ p.b5 ∷ p.b6 ∷ p.b7 ∷ []

abbrev pub read_fee : Bytes → Option FeeData
read_fee (d ∷ p0 ∷ p1 ∷ p2 ∷ p3 ∷ p4 ∷ p5 ∷ p6 ∷ p7 ∷ []) = some (record {
  discriminant = d;
  payload = record { b0 = p0; b1 = p1; b2 = p2; b3 = p3; b4 = p4; b5 = p5; b6 = p6; b7 = p7 };
})
read_fee _ = none

abbrev pub fee_extension : (t : ExtensionType) → 9 ≡ data_len t → VaultExtension FeeData
fee_extension t size = record {
  extension_type = t;
  to_bytes = fee_bytes;
  from_bytes = read_fee;
  Fits = λ fee. fee.discriminant < 256;
  length-to_bytes = λ fee. size;
  from_bytes-to_bytes = λ fee h. refl;
}

abbrev pub deposit_fee_extension : VaultExtension FeeData
deposit_fee_extension = fee_extension deposit_fee refl

abbrev pub withdrawal_fee_extension : VaultExtension FeeData
withdrawal_fee_extension = fee_extension withdrawal_fee refl

-- `InstantSettlement`, with its seven reserved bytes
abbrev pub settlement_bytes : InstantSettlement → Bytes
settlement_bytes s =
    u64_bytes s.min_deposit_amount
    ++ (u64_bytes s.max_deposit_amount
        ++ (u64_bytes s.min_redeem_shares
            ++ (u64_bytes s.max_redeem_shares
                ++ (u64_bytes s.max_user_deposit_amount
                    ++ (u64_bytes s.max_user_redeem_shares ++ (s.enabled ∷ zeros 7))))))

abbrev pub u64_at : ℕ → Bytes → ℕ
u64_at offset bytes = from_le_bytes (slice offset 8 bytes)

abbrev pub read_settlement : Bytes → Option InstantSettlement
read_settlement bytes =
    if length bytes == 56
    then some (record {
      min_deposit_amount = u64_at 0 bytes;
      max_deposit_amount = u64_at 8 bytes;
      min_redeem_shares = u64_at 16 bytes;
      max_redeem_shares = u64_at 24 bytes;
      max_user_deposit_amount = u64_at 32 bytes;
      max_user_redeem_shares = u64_at 40 bytes;
      enabled = from_le_bytes (slice 48 1 bytes);
    })
    else none

abbrev pub FitsSettlement : InstantSettlement → Type 0
FitsSettlement s =
    (s.min_deposit_amount ≤ u64_max)
    × (s.max_deposit_amount ≤ u64_max)
    × (s.min_redeem_shares ≤ u64_max)
    × (s.max_redeem_shares ≤ u64_max)
    × (s.max_user_deposit_amount ≤ u64_max)
    × (s.max_user_redeem_shares ≤ u64_max)

pub read_settlement-settlement_bytes :
    (s : InstantSettlement) → FitsSettlement s → read_settlement (settlement_bytes s) ≡ some s
read_settlement-settlement_bytes s (a, b, c, d, e, f) =
    let byte : s.enabled + 256 * 0 ≡ s.enabled = omega arith in
    ap some (λ i. record {
      min_deposit_amount = u64_bytes-read s.min_deposit_amount a i;
      max_deposit_amount = u64_bytes-read s.max_deposit_amount b i;
      min_redeem_shares = u64_bytes-read s.min_redeem_shares c i;
      max_redeem_shares = u64_bytes-read s.max_redeem_shares d i;
      max_user_deposit_amount = u64_bytes-read s.max_user_deposit_amount e i;
      max_user_redeem_shares = u64_bytes-read s.max_user_redeem_shares f i;
      enabled = byte i;
    })

abbrev pub instant_settlement_extension : VaultExtension InstantSettlement
instant_settlement_extension = record {
  extension_type = instant_settlement;
  to_bytes = settlement_bytes;
  from_bytes = read_settlement;
  Fits = FitsSettlement;
  length-to_bytes = λ s. refl;
  from_bytes-to_bytes = read_settlement-settlement_bytes;
}
