-- ===== src/Fee/Codec.antt =====
-- `FeeData` (programs/async_vault_v2/src/extensions/fee/processor.rs): a fee as the discriminant and
-- eight bytes that a vault extension stores, and that reading back what was written gives the fee.
use solana_vault_v.Base.{
  ℕ, ◌+◌, ◌*◌, ◌/◌, ◌%◌, ◌≤◌, ◌≡◌, ap, ok, err, arith, ◌==◌, if◌then◌else◌, u16_max, u64_max,
}
use solana_vault_v.Error.{Outcome, program, invalid_extension_data}
use solana_vault_v.Fee.Types.{FeeType, fixed_amount, percentage}

-- `[u8; 8]`
pub record Bytes8 : Type 0 where
  pub b0 : ℕ
  pub b1 : ℕ
  pub b2 : ℕ
  pub b3 : ℕ
  pub b4 : ℕ
  pub b5 : ℕ
  pub b6 : ℕ
  pub b7 : ℕ

pub record FeeData : Type 0 where
  pub discriminant : ℕ
  pub payload : Bytes8

-- `u64::to_le_bytes`
abbrev pub to_le_bytes : ℕ → Bytes8
to_le_bytes n = record {
  b0 = n % 256;
  b1 = n / 256 % 256;
  b2 = n / 65_536 % 256;
  b3 = n / 16_777_216 % 256;
  b4 = n / 4_294_967_296 % 256;
  b5 = n / 1_099_511_627_776 % 256;
  b6 = n / 281_474_976_710_656 % 256;
  b7 = n / 72_057_594_037_927_936 % 256;
}

-- `u64::from_le_bytes`
abbrev pub from_le_bytes : Bytes8 → ℕ
from_le_bytes b =
    b.b0
    + 256 * b.b1
    + 65_536 * b.b2
    + 16_777_216 * b.b3
    + 4_294_967_296 * b.b4
    + 1_099_511_627_776 * b.b5
    + 281_474_976_710_656 * b.b6
    + 72_057_594_037_927_936 * b.b7

-- The array starts as zeros, and a percentage fills its first two bytes.
unfoldable pub from_fee_type : FeeType → FeeData
from_fee_type (fixed_amount amount) = record { discriminant = 0; payload = to_le_bytes amount }
from_fee_type (percentage bps) = record {
  discriminant = 1;
  payload = record {
    b0 = bps % 256;
    b1 = bps / 256 % 256;
    b2 = 0;
    b3 = 0;
    b4 = 0;
    b5 = 0;
    b6 = 0;
    b7 = 0;
  };
}

unfoldable pub fee_type : FeeData → Outcome FeeType
fee_type d =
    if d.discriminant == 0
    then ok (fixed_amount (from_le_bytes d.payload))
    else if d.discriminant == 1
    then ok (percentage (d.payload.b0 + 256 * d.payload.b1))
    else err (program invalid_extension_data)

-- A value that the fields of `FeeType` can hold: a u64 amount or u16 basis points.
abbrev pub FitsFee : FeeType → Type 0
FitsFee (fixed_amount amount) = amount ≤ u64_max
FitsFee (percentage bps) = bps ≤ u16_max

from_le_bytes-to_le_bytes : (n : ℕ) → n ≤ u64_max → from_le_bytes (to_le_bytes n) ≡ n
from_le_bytes-to_le_bytes n h = omega arith

-- Every fee of the machine types is read back from its stored bytes unchanged.
pub fee_type-from_fee_type : (f : FeeType) → FitsFee f → fee_type (from_fee_type f) ≡ ok f
unfolding fee_type from_fee_type
fee_type-from_fee_type (fixed_amount amount) h =
    ap (λ n. ok (fixed_amount n)) (from_le_bytes-to_le_bytes amount h)
fee_type-from_fee_type (percentage bps) h = ap (λ n. ok (percentage n)) (omega arith)
