-- ===== src/Nav/Guards.antt =====
-- `validate_nav_delta`, `validate_implied_apy` and `validate_nav_update` of `Vault`.
use solana_vault_v.Base.{
  ℕ, ◌-◌, ◌||◌, ok, ◌>>=◌, ◌>>◌, leb, ◌==◌, if◌then◌else◌, u128_max, checked_sub, checked_mul,
  checked_div,
}
use solana_vault_v.Base.Int.{ℤ, pos_part, checked_sub_i64, is_nonpositive, eq_ℤ, pos}
use solana_vault_v.Error.{Outcome, require, exact, nav_delta_exceeded, nav_apy_exceeded}
use solana_vault_v.Fee.{max_bps}
use solana_vault_v.State.{⊤, Vault}

abbrev pub seconds_per_year : ℕ
seconds_per_year = 31_536_000

-- `u128::abs_diff`
abbrev pub abs_diff : ℕ → ℕ → ℕ
abs_diff a b = if leb a b then b - a else a - b

unfoldable pub validate_nav_delta : Vault → ℕ → Outcome ⊤
validate_nav_delta v updated_nav = if v.max_nav_delta_bps == 0 || v.nav == 0 then ok tt else (do
  product ← exact (checked_mul u128_max (abs_diff updated_nav v.nav) max_bps)
  delta_bps ← exact (checked_div product v.nav)
  require (leb delta_bps v.max_nav_delta_bps) nav_delta_exceeded)

unfoldable pub validate_implied_apy : Vault → ℕ → ℤ → Outcome ⊤
validate_implied_apy v updated_nav now =
    if v.max_implied_apy_bps == 0
      || v.nav == 0
      || leb updated_nav v.nav
      || eq_ℤ v.last_nav_update_timestamp (pos 0)
    then ok tt
    else (do
      elapsed_seconds ← exact (checked_sub_i64 now v.last_nav_update_timestamp)
      (if is_nonpositive elapsed_seconds then ok tt else (do
        gain ← exact (checked_sub updated_nav v.nav)
        product ← exact (checked_mul u128_max gain max_bps)
        gain_bps ← exact (checked_div product v.nav)
        yearly ← exact (checked_mul u128_max gain_bps seconds_per_year)
        annualized_bps ← exact (checked_div yearly (pos_part elapsed_seconds))
        require (leb annualized_bps v.max_implied_apy_bps) nav_apy_exceeded)))

unfoldable pub validate_nav_update : Vault → ℕ → ℤ → Outcome ⊤
validate_nav_update v updated_nav now = do
  validate_nav_delta v updated_nav
  validate_implied_apy v updated_nav now
