-- ===== src/Fee/Types.antt =====
-- `FeeType` (libs/vault_common/src/fee.rs, constants.rs).
use solana_vault_v.Base.{
  ℕ, Result, ok, ◌>>=◌, ok_or, ensure, leb, u64_max, u128_max, checked_add, checked_mul,
  checked_div, try_from,
}
use solana_vault_v.Error.{VaultMathError, arithmetic, fee_bps_limit_reached}

-- `MAX_BPS`, 100%
abbrev pub max_bps : ℕ
max_bps = 10_000

pub data FeeType : Type 0 where
  fixed_amount : ℕ → FeeType  -- u64
  percentage : ℕ → FeeType  -- u16, in basis points

unfoldable pub validate : FeeType → Result VaultMathError (Unit {0})
validate (percentage bps) = ensure (leb bps max_bps) fee_bps_limit_reached
validate (fixed_amount _) = ok tt

unfoldable pub get_fee : FeeType → ℕ → Result VaultMathError ℕ
get_fee (percentage bps) total_amount = do
  product ← ok_or (checked_mul u128_max total_amount bps) arithmetic
  rounded ← ok_or (checked_add u128_max product 9_999) arithmetic
  fee ← ok_or (checked_div rounded 10_000) arithmetic
  ok_or (try_from u64_max fee) arithmetic
get_fee (fixed_amount amount) _ = ok amount
