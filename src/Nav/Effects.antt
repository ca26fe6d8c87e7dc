-- ===== src/Nav/Effects.antt =====
-- What a published NAV changes of the vault.
use solana_vault_v.Base.{ℕ, ◌+◌, ◌*◌, ◌/◌, ◌≤◌, ◌<◌, ◌≡◌, ◌⊎◌, ok, arith, List}
use native.Mathlib.Nat.{lt-div-mul-add, mul-le-mul}
use solana_vault_v.Base.Int.{ℤ}
use solana_vault_v.State.{Pubkey, Vault}
use solana_vault_v.Fee.{max_bps}
use solana_vault_v.Runtime.{Addresses, Clock, AccountInfo}
use solana_vault_v.Runtime.Token.{TokenProgram}
use solana_vault_v.Nav.Guards.{abs_diff, validate_nav_delta}
use solana_vault_v.Nav.PerformanceFee.{maybe_crystallize_performance_fee}
use solana_vault_v.Nav.Update.{NavWorld, publish_nav, update_nav}

below_next : (a n m : ℕ) → 0 < n → a / n ≤ m → a < (m + 1) * n
below_next a n m hn h =
    let up : a < a / n * n + n = lt-div-mul-add {a = a} {b = n} hn in
    let more : a / n * n ≤ m * n = mul-le-mul h (omega arith) in omega arith

-- If the vault limits the change of a NAV and has one, a NAV that passes the check differs from
-- it by less than one basis point more than the vault allows.
pub validate_nav_delta-bound :
    (v : Vault) (updated_nav : ℕ)
    → validate_nav_delta v updated_nav ≡ ok tt
    → 0 < v.max_nav_delta_bps
    → 0 < v.nav
    → abs_diff updated_nav v.nav * max_bps < (v.max_nav_delta_bps + 1) * v.nav
unfolding validate_nav_delta
validate_nav_delta-bound v updated_nav h d n =
    ground (arith, below_next (abs_diff updated_nav v.nav * max_bps) v.nav v.max_nav_delta_bps)

module _ (addresses : Addresses) (T : TokenProgram) (clock : Clock) where
  maybe_crystallize_performance_fee-eq_ok :
      (v : Vault) (updated_nav : ℕ) (timestamp : ℤ) (l : List AccountInfo) (t : T.Tokens)
      {p : Vault × T.Tokens × ℕ}
      → maybe_crystallize_performance_fee addresses T v updated_nav timestamp l t ≡ ok p
      → ((p.0).nav ≡ v.nav)
        × ((p.0).nav_version ≡ v.nav_version)
        × (((p.0).high_water_mark ≡ v.high_water_mark)
            ⊎ ((v.high_water_mark < updated_nav) × ((p.0).high_water_mark ≡ updated_nav)))
  unfolding maybe_crystallize_performance_fee
  maybe_crystallize_performance_fee-eq_ok v updated_nav timestamp l t h = ground arith

  publish_nav-eq_ok :
      (v : Vault) (updated_nav : ℕ) {v' : Vault}
      → publish_nav v updated_nav clock ≡ ok v'
      → (v'.nav ≡ updated_nav)
        × (v'.nav_version ≡ v.nav_version + 1)
        × (v'.last_nav_update_slot ≡ clock.slot)
        × (v'.high_water_mark ≡ v.high_water_mark)
  unfolding publish_nav
  publish_nav-eq_ok v updated_nav h = ground arith

  -- A successful update publishes the NAV at the clock's slot under the next version number, and never
  -- lowers the high-water mark: it stays, or it rises to the new NAV.
  pub update_nav-eq_ok :
      (authority vault_key : Pubkey) (updated_nav : ℕ) (w : NavWorld T) {w' : NavWorld T}
      → update_nav addresses T clock authority vault_key updated_nav w ≡ ok w'
      → (w'.vault.nav ≡ updated_nav)
        × (w'.vault.nav_version ≡ w.vault.nav_version + 1)
        × (w'.vault.last_nav_update_slot ≡ clock.slot)
        × ((w'.vault.high_water_mark ≡ w.vault.high_water_mark)
            ⊎ ((w.vault.high_water_mark < updated_nav) × (w'.vault.high_water_mark ≡ updated_nav)))
  unfolding update_nav
  update_nav-eq_ok authority vault_key updated_nav w {w'} h =
      grind (arith, maybe_crystallize_performance_fee-eq_ok, publish_nav-eq_ok)
