-- ===== src/Nav/Conservation.antt =====
-- What the waterfall does with the assets of the two tranches.
use solana_vault_v.Base.{
  ℕ, ◌+◌, ◌*◌, ◌/◌, ◌^◌, ◌≤◌, ◌<◌, ◌≡◌, ◌∙◌, ◌⊎◌, ok, arith, >>=-eq-ok, u128_max, checked_add,
}
use solana_vault_v.Error.{exact}
use solana_vault_v.Base.Int.{ℤ}
use native.Mathlib.Nat.{le_of_mul-le-mul_right, zero-mul, mul-zero}
use solana_vault_v.Pricing.RoundTrip.{pow-pos, floor_round_trip}
use solana_vault_v.Pricing.{assets_from_nav, nav_from_assets}
use solana_vault_v.Nav.Waterfall.{
  TrancheMintSnapshot, TrancheWaterfallState, TrancheWaterfallOutcome, min_ℕ, distribute_gain,
  distribute_loss, compute_tranche_waterfall,
}

distribute_gain-eq_ok :
    (state : TrancheWaterfallState) (senior junior total : ℕ) (timestamp : ℤ) {p : ℕ × ℕ}
    → distribute_gain state senior (senior + junior) total timestamp ≡ ok p
    → (p.0 + p.1 ≡ total) × (senior ≤ p.0) × (junior ≤ p.1)
unfolding distribute_gain
distribute_gain-eq_ok state senior junior total timestamp h = ground arith

distribute_loss-eq_ok :
    (senior junior total : ℕ) {p : ℕ × ℕ}
    → total < senior + junior
    → distribute_loss senior junior (senior + junior) total ≡ ok p
    → (p.0 + p.1 ≡ total) × (p.0 ≡ min_ℕ senior total)
unfolding distribute_loss
distribute_loss-eq_ok senior junior total less h = ground arith

assets_from_nav-eq_div :
    (supply nav decimals : ℕ) {assets : ℕ}
    → assets_from_nav supply nav decimals ≡ ok assets
    → assets ≡ supply * nav / 10 ^ decimals
unfolding assets_from_nav
assets_from_nav-eq_div supply nav decimals h = ground (arith, zero-mul nav, mul-zero supply)

-- The two tranches against any amounts that they were valued at before.
compute_tranche_waterfall-split :
    (state : TrancheWaterfallState) (updated_nav : ℕ) (timestamp : ℤ)
    (senior junior : TrancheMintSnapshot) (previous_senior previous_junior : ℕ)
    {o : TrancheWaterfallOutcome}
    → compute_tranche_waterfall state updated_nav timestamp senior junior ≡ ok o
    → assets_from_nav senior.supply state.senior_nav senior.decimals ≡ ok previous_senior
    → assets_from_nav junior.supply state.junior_nav junior.decimals ≡ ok previous_junior
    → (o.senior_assets + o.junior_assets ≡ o.updated_total_assets)
      × (((previous_senior + previous_junior ≤ o.updated_total_assets)
            × (previous_senior ≤ o.senior_assets)
            × (previous_junior ≤ o.junior_assets))
          ⊎ ((o.updated_total_assets < previous_senior + previous_junior)
              × (o.senior_assets ≡ min_ℕ previous_senior o.updated_total_assets)))
unfolding compute_tranche_waterfall
compute_tranche_waterfall-split state updated_nav timestamp senior junior ps pj {o} h hs hj =
    grind (
      arith,
      λ (total : ℕ) (p : ℕ × ℕ). distribute_gain-eq_ok state ps pj total timestamp {p = p},
      λ (total : ℕ) (p : ℕ × ℕ). distribute_loss-eq_ok ps pj total {p = p},
    )

-- The four valuations of a waterfall that succeeds.
compute_tranche_waterfall-valued :
    (state : TrancheWaterfallState) (updated_nav : ℕ) (timestamp : ℤ)
    (senior junior : TrancheMintSnapshot) {o : TrancheWaterfallOutcome}
    → compute_tranche_waterfall state updated_nav timestamp senior junior ≡ ok o
    → (ps pj us uj : ℕ) × (assets_from_nav senior.supply state.senior_nav senior.decimals ≡ ok ps)
      × (assets_from_nav junior.supply state.junior_nav junior.decimals ≡ ok pj)
      × (assets_from_nav senior.supply updated_nav senior.decimals ≡ ok us)
      × (assets_from_nav junior.supply updated_nav junior.decimals ≡ ok uj)
      × (o.updated_total_assets ≡ us + uj)
unfolding compute_tranche_waterfall
compute_tranche_waterfall-valued state updated_nav timestamp senior junior h =
    let (ps, senior_before, h1) =
      >>=-eq-ok (assets_from_nav senior.supply state.senior_nav senior.decimals) _ h in
    let (pj, junior_before, h2) =
      >>=-eq-ok (assets_from_nav junior.supply state.junior_nav junior.decimals) _ h1 in
    let (_, _, h3) = >>=-eq-ok (exact (checked_add u128_max ps pj)) _ h2 in
    let (us, senior_after, h4) =
      >>=-eq-ok (assets_from_nav senior.supply updated_nav senior.decimals) _ h3 in
    let (uj, junior_after, h5) =
      >>=-eq-ok (assets_from_nav junior.supply updated_nav junior.decimals) _ h4 in
    (ps, pj, us, uj, senior_before, junior_before, senior_after, junior_after, ground arith)

-- A supply at a NAV per share in the smallest units of the asset, rounded down.
abbrev pub valued_at : TrancheMintSnapshot → ℕ → ℕ
valued_at mint nav = mint.supply * nav / 10 ^ mint.decimals

-- A waterfall that succeeds gives out exactly the assets that both supplies are worth at the new
-- NAV, each rounded down. If these are no less than what the supplies were worth at the tranches'
-- own NAVs before, neither tranche has less than before; otherwise the senior tranche has the
-- smaller of what it had and all there is, so the junior tranche is used up before the senior
-- tranche loses anything.
pub compute_tranche_waterfall-priority :
    (state : TrancheWaterfallState) (updated_nav : ℕ) (timestamp : ℤ)
    (senior junior : TrancheMintSnapshot) {o : TrancheWaterfallOutcome}
    → compute_tranche_waterfall state updated_nav timestamp senior junior ≡ ok o
    → let previous_senior = valued_at senior state.senior_nav in
      let previous_junior = valued_at junior state.junior_nav in
      let total = valued_at senior updated_nav + valued_at junior updated_nav in
      (o.updated_total_assets ≡ total)
      × (o.senior_assets + o.junior_assets ≡ total)
      × (((previous_senior + previous_junior ≤ total)
            × (previous_senior ≤ o.senior_assets)
            × (previous_junior ≤ o.junior_assets))
          ⊎ ((total < previous_senior + previous_junior)
              × (o.senior_assets ≡ min_ℕ previous_senior total)))
compute_tranche_waterfall-priority state updated_nav timestamp senior junior {o} h =
    let (ps, pj, us, uj, senior_before, junior_before, senior_after, junior_after, sum) =
      compute_tranche_waterfall-valued state updated_nav timestamp senior junior h in
    let es = assets_from_nav-eq_div senior.supply state.senior_nav senior.decimals senior_before in
    let ej = assets_from_nav-eq_div junior.supply state.junior_nav junior.decimals junior_before in
    let us_worth = assets_from_nav-eq_div senior.supply updated_nav senior.decimals senior_after in
    let uj_worth = assets_from_nav-eq_div junior.supply updated_nav junior.decimals junior_after in
    let total : o.updated_total_assets
        ≡ valued_at senior updated_nav + valued_at junior updated_nav =
      sum ∙ (λ i. us_worth i + uj_worth i) in
    let (whole, sides) =
      compute_tranche_waterfall-split state updated_nav timestamp senior junior ps pj h
        senior_before junior_before in
    (total, whole ∙ total, rw (total, es, ej) at sides)

floor_back : (a p s : ℕ) → 0 < p → 0 < s → s * (a * p / s) / p ≤ a
floor_back a p s hp hs =
    let (low, _) = floor_round_trip a p s hp hs in
    let e : s * (a * p / s) ≡ a * p / s * s = omega arith in rw e (le_of_mul-le-mul_right low hp)

-- A NAV per share is rounded down: a tranche's shares, valued at the NAV that its assets give, are
-- never worth more than those assets.
pub nav_from_assets-floor :
    (assets supply decimals : ℕ) {nav : ℕ} {valued : ℕ}
    → nav_from_assets assets supply decimals ≡ ok nav
    → assets_from_nav supply nav decimals ≡ ok valued
    → valued ≤ assets
unfolding nav_from_assets assets_from_nav
nav_from_assets-floor assets supply decimals {nav} {valued} h g =
    ground (arith, floor_back assets (10 ^ decimals) supply (pow-pos decimals))
