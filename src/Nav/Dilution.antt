-- ===== src/Nav/Dilution.antt =====
-- What the performance fee takes from the other holders of shares.
use solana_vault_v.Base.{ℕ, ◌+◌, ◌-◌, ◌*◌, ◌/◌, ◌^◌, ◌≤◌, ◌<◌, ◌≡◌, ◌⊎◌, inl, inr, ok, arith}
use native.Mathlib.Nat.{div-mul-le_self, mul-le-mul, zero-mul}
use solana_vault_v.Nav.PerformanceFee.{calculate_performance_fee_shares}

spread :
    (d f total supply s : ℕ) → total ≡ d + f → s * d ≤ f * supply → s * total ≤ f * (supply + s)
spread d f total supply s e h = rw e (omega arith)

-- Shares worth `f` out of `total` assets, with `supply` shares before.
dilution_by :
    (total f supply s : ℕ) → f < total → s ≡ f * supply / (total - f) → s * total ≤ f * (supply + s)
dilution_by total f supply s h e =
    let low : f * supply / (total - f) * (total - f) ≤ f * supply =
      div-mul-le_self (f * supply) (total - f) in
    spread (total - f) f total supply s (omega arith) (rw e low)

scaled :
    (total f supply s g bps : ℕ)
    → s * total ≤ f * (supply + s)
    → f * 10_000 ≤ g * bps
    → s * total * 10_000 ≤ g * bps * (supply + s)
scaled total f supply s g bps h k =
    let m : f * 10_000 * (supply + s) ≤ g * bps * (supply + s) = mul-le-mul k (omega arith) in
    omega arith

fee_of_profit :
    (total g supply bps s : ℕ)
    → let f = g * bps / 10_000 in
      (s ≡ 0) ⊎ ((f < total) × (s ≡ f * supply / (total - f)))
      → s * total * 10_000 ≤ g * bps * (supply + s)
fee_of_profit total g supply bps s (inl zero_shares) = rw zero_shares (rw zero-mul (omega arith))
fee_of_profit total g supply bps s (inr (less, e)) =
    let f = g * bps / 10_000 in
    scaled total f supply s g bps (dilution_by total f supply s less e) (omega arith)

calculate_performance_fee_shares-eq_ok :
    (updated_nav high_water_mark fee_bps supply decimals : ℕ) {fee_shares : ℕ}
    → calculate_performance_fee_shares updated_nav high_water_mark fee_bps supply decimals
      ≡ ok fee_shares
    → let total = supply * updated_nav / 10 ^ decimals in
      let f = supply * (updated_nav - high_water_mark) / 10 ^ decimals * fee_bps / 10_000 in
      (fee_shares ≡ 0) ⊎ ((f < total) × (fee_shares ≡ f * supply / (total - f)))
unfolding calculate_performance_fee_shares
calculate_performance_fee_shares-eq_ok updated_nav high_water_mark fee_bps supply decimals
      {fee_shares} h =
    ground arith

-- If the computation succeeds, the fee shares, valued at the new NAV among all shares after they
-- are minted, are worth at most the fee's basis points of the profit over the high-water mark.
pub calculate_performance_fee_shares-dilution :
    (updated_nav high_water_mark fee_bps supply decimals : ℕ) {fee_shares : ℕ}
    → calculate_performance_fee_shares updated_nav high_water_mark fee_bps supply decimals
      ≡ ok fee_shares
    → let total_assets = supply * updated_nav / 10 ^ decimals in
      let profit = supply * (updated_nav - high_water_mark) / 10 ^ decimals in
      fee_shares * total_assets * 10_000 ≤ profit * fee_bps * (supply + fee_shares)
calculate_performance_fee_shares-dilution updated_nav high_water_mark fee_bps supply decimals
      {fee_shares} h =
    fee_of_profit (supply * updated_nav / 10 ^ decimals)
      (supply * (updated_nav - high_water_mark) / 10 ^ decimals) supply fee_bps fee_shares
      (calculate_performance_fee_shares-eq_ok updated_nav high_water_mark fee_bps supply decimals h)
