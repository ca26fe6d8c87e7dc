-- ===== src/Pricing.antt =====
-- Conversion between assets and shares at a net asset value, and the supply valuations of the tranche
-- code (`calculate_shares`, `calculate_assets` in programs/async_vault_v2/src/utils.rs;
-- `assets_from_nav`, `nav_from_assets` in instructions/update_nav.rs; `assets_from_supply` in
-- instructions/approve_request.rs). Amounts and supplies are u64, a NAV is u128, decimals are u8.
pub mod RoundTrip
use solana_vault_v.Base.{
  ℕ, ◌||◌, err, ok, ◌>>=◌, ◌==◌, if◌then◌else◌, u64_max, u128_max, checked_mul, checked_div,
  checked_pow, try_from,
}
use solana_vault_v.Error.{Outcome, program, arithmetic_error, exact}

-- `10u128.checked_pow(decimals)`
abbrev pub precision : ℕ → Outcome ℕ
precision decimals = exact (checked_pow u128_max 10 decimals)

unfoldable pub calculate_shares : ℕ → ℕ → ℕ → Outcome ℕ
calculate_shares nav decimals net_amount = do
  p ← precision decimals
  product ← exact (checked_mul u128_max net_amount p)
  shares ← exact (checked_div product nav)
  exact (try_from u64_max shares)

unfoldable pub calculate_assets : ℕ → ℕ → ℕ → Outcome ℕ
calculate_assets nav decimals share_amount = do
  p ← precision decimals
  product ← exact (checked_mul u128_max share_amount nav)
  assets ← exact (checked_div product p)
  if assets == 0 then err (program arithmetic_error) else exact (try_from u64_max assets)

unfoldable pub assets_from_nav : ℕ → ℕ → ℕ → Outcome ℕ
assets_from_nav supply nav decimals = if supply == 0 || nav == 0 then ok 0 else (do
  p ← precision decimals
  product ← exact (checked_mul u128_max supply nav)
  exact (checked_div product p))

unfoldable pub nav_from_assets : ℕ → ℕ → ℕ → Outcome ℕ
nav_from_assets assets supply decimals = if supply == 0 then ok 0 else (do
  p ← precision decimals
  product ← exact (checked_mul u128_max assets p)
  exact (checked_div product supply))

-- The copy of `assets_from_nav` in approve_request.rs.
unfoldable pub assets_from_supply : ℕ → ℕ → ℕ → Outcome ℕ
assets_from_supply supply decimals nav = if supply == 0 || nav == 0 then ok 0 else (do
  p ← precision decimals
  product ← exact (checked_mul u128_max supply nav)
  exact (checked_div product p))
