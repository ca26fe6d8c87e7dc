-- ===== src/Fee/Charge.antt =====
-- What the fee of a vault's extension comes to, read from the stored bytes and without the functions
-- that compute it.
use solana_vault_v.Base.{
  ℕ, ◌+◌, ◌*◌, ◌≤◌, ◌<◌, ◌≡◌, ◌⊎◌, Option, none, some, ok, arith, inl, inr, >>=-eq-ok,
}
use solana_vault_v.Fee.Types.{FeeType, fixed_amount, percentage, get_fee}
use solana_vault_v.Fee.Codec.{FeeData, fee_type, from_le_bytes}
use solana_vault_v.Fee.Split.{get_extension_fee, get_fee_and_net}
use solana_vault_v.Error.{or_math}

-- The part of an amount in basis points, rounded up.
abbrev pub IsPercentage : ℕ → ℕ → ℕ → Type 0
IsPercentage bps amount fee = (amount * bps ≤ fee * 10_000) × (fee * 10_000 < amount * bps + 10_000)

-- The fee that a stored extension sets for an amount: none without an extension, else by the kind in
-- the first byte the amount of the eight bytes behind it, or a part in the basis points of two.
abbrev pub IsExtensionFee : Option FeeData → ℕ → ℕ → Type 0
IsExtensionFee none amount fee = fee ≡ 0
IsExtensionFee (some stored) amount fee =
    ((stored.discriminant ≡ 0) × (fee ≡ from_le_bytes stored.payload))
    ⊎ ((stored.discriminant ≡ 1)
        × IsPercentage (stored.payload.b0 + 256 * stored.payload.b1) amount fee)

pub get_fee-IsPercentage :
    (bps amount : ℕ) {fee : ℕ}
    → or_math (get_fee (percentage bps) amount) ≡ ok fee
    → IsPercentage bps amount fee
unfolding get_fee
get_fee-IsPercentage bps amount h = ground arith

stored_amount :
    (stored : FeeData) {a : ℕ}
    → fee_type stored ≡ ok (fixed_amount a)
    → (stored.discriminant ≡ 0) × (from_le_bytes stored.payload ≡ a)
unfolding fee_type
stored_amount stored h = (ground arith, ground arith)

stored_bps :
    (stored : FeeData) {bps : ℕ}
    → fee_type stored ≡ ok (percentage bps)
    → (stored.discriminant ≡ 1) × (stored.payload.b0 + 256 * stored.payload.b1 ≡ bps)
unfolding fee_type
stored_bps stored h = (ground arith, ground arith)

-- The fee of either kind that the stored bytes are read as.
stored_fee :
    (stored : FeeData) (amount : ℕ) (f : FeeType) {fee : ℕ}
    → fee_type stored ≡ ok f
    → or_math (get_fee f amount) ≡ ok fee
    → IsExtensionFee (some stored) amount fee
unfolding get_fee
stored_fee stored amount (fixed_amount a) read computed =
    let (kind, bytes) = stored_amount stored read in inl (kind, ground (arith, bytes))
stored_fee stored amount (percentage bps) read computed =
    let (kind, bytes) = stored_bps stored read in
    let part = get_fee-IsPercentage bps amount computed in inr (kind, rw bytes part)

pub get_extension_fee-IsExtensionFee :
    (extension : Option FeeData) (amount : ℕ) {fee : ℕ}
    → get_extension_fee extension amount ≡ ok fee
    → IsExtensionFee extension amount fee
unfolding get_extension_fee
get_extension_fee-IsExtensionFee none amount h = ground arith
get_extension_fee-IsExtensionFee (some stored) amount h =
    let (f, read, computed) = >>=-eq-ok (fee_type stored) _ h in
    stored_fee stored amount f read computed

pub get_fee_and_net-IsExtensionFee :
    (extension : Option FeeData) (amount : ℕ) {fee net : ℕ}
    → get_fee_and_net extension amount ≡ ok (fee, net)
    → IsExtensionFee extension amount fee
unfolding get_fee_and_net
get_fee_and_net-IsExtensionFee extension amount {fee} {net} h =
    let (fee', computed, _) = >>=-eq-ok (get_extension_fee extension amount) _ h in
    ground (arith, get_extension_fee-IsExtensionFee extension amount computed)
