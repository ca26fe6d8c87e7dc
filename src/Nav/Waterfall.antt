-- ===== src/Nav/Waterfall.antt =====
-- The tranche waterfall: the senior tranche is credited up to its target, the junior tranche bears
-- losses first.
use solana_vault_v.Base.{
  ℕ, ◌||◌, ◌&&◌, none, some, List, ok, ◌>>=◌, ◌>>◌, leb, ◌==◌, if◌then◌else◌, ok_or, u128_max,
  checked_add, checked_sub, checked_mul, checked_div,
}
use solana_vault_v.Base.Int.{ℤ, pos_part, checked_sub_i64, is_nonpositive}
use solana_vault_v.Error.{
  Outcome, require, or_fail, exact, arithmetic_error, missing_required_account, invalid_vault,
  invalid_share_mint, account_not_deserialized,
}
use solana_vault_v.Fee.{max_bps}
use solana_vault_v.Pricing.{assets_from_nav, nav_from_assets}
use solana_vault_v.State.{Pubkey, Vault, TrancheConfig, require_keys_eq}
use solana_vault_v.Runtime.{
  Addresses, Clock, AccountInfo, read_mint_supply_and_decimals, require_token_mint_account,
}
use solana_vault_v.Tranche.{first, account_at}
use solana_vault_v.Requests.{store_tranche_config}
use solana_vault_v.Requests.{max_ℕ}
use solana_vault_v.Nav.Guards.{seconds_per_year}

pub record TrancheMintSnapshot : Type 0 where
  pub supply : ℕ  -- u64
  pub decimals : ℕ  -- u8

pub record TrancheWaterfallState : Type 0 where
  pub senior_nav : ℕ  -- u128
  pub junior_nav : ℕ  -- u128
  pub senior_target_bps : ℕ  -- u16
  pub last_waterfall_timestamp : ℤ  -- i64

pub record TrancheWaterfallOutcome : Type 0 where
  pub updated_total_assets : ℕ  -- u128
  pub senior_assets : ℕ  -- u128
  pub junior_assets : ℕ  -- u128
  pub senior_nav : ℕ  -- u128
  pub junior_nav : ℕ  -- u128

abbrev pub min_ℕ : ℕ → ℕ → ℕ
min_ℕ a b = if leb a b then a else b

-- What the senior tranche may earn since the last waterfall.
unfoldable pub target_accrual : ℕ → ℕ → ℤ → Outcome ℕ
target_accrual previous_senior_assets senior_target_bps elapsed_seconds =
    if is_nonpositive elapsed_seconds || senior_target_bps == 0 then ok 0 else (do
      yearly ← exact (checked_mul u128_max previous_senior_assets senior_target_bps)
      product ← exact (checked_mul u128_max yearly (pos_part elapsed_seconds))
      per_year ← exact (checked_div product max_bps)
      exact (checked_div per_year seconds_per_year))

-- The branch of a gain: the senior and the junior assets.
unfoldable pub distribute_gain : TrancheWaterfallState → ℕ → ℕ → ℕ → ℤ → Outcome (ℕ × ℕ)
distribute_gain state previous_senior_assets previous_total_assets updated_total_assets timestamp =
    do
      gain ← exact (checked_sub updated_total_assets previous_total_assets)
      elapsed_seconds ← exact (checked_sub_i64 timestamp state.last_waterfall_timestamp)
      accrual ← target_accrual previous_senior_assets state.senior_target_bps elapsed_seconds
      senior_assets ← exact (checked_add u128_max previous_senior_assets (min_ℕ gain accrual))
      junior_assets ← exact (checked_sub updated_total_assets senior_assets)
      ok (senior_assets, junior_assets)

-- The branch of a loss.
unfoldable pub distribute_loss : ℕ → ℕ → ℕ → ℕ → Outcome (ℕ × ℕ)
distribute_loss previous_senior_assets previous_junior_assets previous_total_assets
      updated_total_assets =
    do
      loss ← exact (checked_sub previous_total_assets updated_total_assets)
      junior_assets ← exact (checked_sub previous_junior_assets (min_ℕ loss previous_junior_assets))
      senior_loss ← exact (checked_sub loss (min_ℕ loss previous_junior_assets))
      senior_assets ← exact (checked_sub previous_senior_assets senior_loss)
      ok (senior_assets, junior_assets)

unfoldable pub compute_tranche_waterfall :
    TrancheWaterfallState
    → ℕ
    → ℤ
    → TrancheMintSnapshot
    → TrancheMintSnapshot
    → Outcome TrancheWaterfallOutcome
compute_tranche_waterfall state updated_nav timestamp senior junior = do
  previous_senior ← assets_from_nav senior.supply state.senior_nav senior.decimals
  previous_junior ← assets_from_nav junior.supply state.junior_nav junior.decimals
  previous_total ← exact (checked_add u128_max previous_senior previous_junior)
  updated_senior ← assets_from_nav senior.supply updated_nav senior.decimals
  updated_junior ← assets_from_nav junior.supply updated_nav junior.decimals
  updated_total ← exact (checked_add u128_max updated_senior updated_junior)
  (next_senior, next_junior) ←
      (if leb previous_total updated_total
        then distribute_gain state previous_senior previous_total updated_total timestamp
        else distribute_loss previous_senior previous_junior previous_total updated_total)
  next_senior_nav ← nav_from_assets next_senior senior.supply senior.decimals
  next_junior_nav ← nav_from_assets next_junior junior.supply junior.decimals
  ok (record {
    updated_total_assets = updated_total;
    senior_assets = next_senior;
    junior_assets = next_junior;
    senior_nav = next_senior_nav;
    junior_nav = next_junior_nav;
  })

-- What every waterfall writes.
abbrev record_waterfall :
    TrancheConfig → ℕ → ℕ → ℕ → ℤ → TrancheMintSnapshot → TrancheMintSnapshot → TrancheConfig
record_waterfall c senior_nav junior_nav slot timestamp senior junior = record c {
  senior_nav = senior_nav;
  junior_nav = junior_nav;
  senior_supply = senior.supply;
  junior_supply = junior.supply;
  last_waterfall_slot = slot;
  last_waterfall_timestamp = timestamp;
}

abbrev waterfall_state : TrancheConfig → TrancheWaterfallState
waterfall_state c = record {
  senior_nav = c.senior_nav;
  junior_nav = c.junior_nav;
  senior_target_bps = c.senior_target_bps;
  last_waterfall_timestamp = c.last_waterfall_timestamp;
}

unfoldable pub apply_tranche_waterfall :
    TrancheConfig → ℕ → ℕ → ℤ → TrancheMintSnapshot → TrancheMintSnapshot → Outcome TrancheConfig
apply_tranche_waterfall c updated_nav slot timestamp senior junior =
    if c.last_waterfall_slot == 0 && c.senior_nav == 0 && c.junior_nav == 0
    then ok (
        record_waterfall c (if senior.supply == 0 then 0 else updated_nav)
          (if junior.supply == 0 then 0 else updated_nav) slot timestamp senior junior)
    else (do
      outcome ← compute_tranche_waterfall (waterfall_state c) updated_nav timestamp senior junior
      conserved ← exact (checked_add u128_max outcome.senior_assets outcome.junior_assets)
      require (conserved == outcome.updated_total_assets) arithmetic_error
      ok (record_waterfall c outcome.senior_nav outcome.junior_nav slot timestamp senior junior))

module _ (addresses : Addresses) where
  -- The vault's own writable tranche configuration, first among the accounts, with both share mints.
  unfoldable pub load_waterfall_config : Pubkey → Pubkey → List AccountInfo → Outcome TrancheConfig
  load_waterfall_config vault_key expected remaining = do
    info ← or_fail (first remaining) missing_required_account
    senior_info ← or_fail (account_at 1 remaining) missing_required_account
    junior_info ← or_fail (account_at 2 remaining) missing_required_account
    require info.is_writable missing_required_account
    require_keys_eq info.key expected invalid_vault
    require_keys_eq expected (addresses.tranche_config vault_key) invalid_vault
    c ← ok_or info.as_tranche_config account_not_deserialized
    require_keys_eq c.vault vault_key invalid_vault
    require_keys_eq c.senior_share_mint senior_info.key invalid_share_mint
    require_keys_eq c.junior_share_mint junior_info.key invalid_share_mint
    require_token_mint_account addresses senior_info
    require_token_mint_account addresses junior_info
    ok c

  -- The larger of the mint's own supply and the supply that the configuration has seen.
  unfoldable pub snapshot : AccountInfo → ℕ → Outcome TrancheMintSnapshot
  snapshot info cached_supply = do
    view ← read_mint_supply_and_decimals info
    ok (record { supply = max_ℕ view.supply cached_supply; decimals = view.decimals })

  -- `maybe_apply_tranche_waterfall`: nothing happens in a vault without tranches.
  unfoldable pub maybe_apply_tranche_waterfall :
      Vault → Pubkey → ℕ → Clock → List AccountInfo → Outcome (List AccountInfo)
  maybe_apply_tranche_waterfall v vault_key updated_nav clock remaining = elim v.tranche_config [
    | none ↦ ok remaining
    | some expected ↦ (do
      c ← load_waterfall_config vault_key expected remaining
      senior_info ← or_fail (account_at 1 remaining) missing_required_account
      junior_info ← or_fail (account_at 2 remaining) missing_required_account
      senior ← snapshot senior_info c.senior_supply
      junior ← snapshot junior_info c.junior_supply
      c' ← apply_tranche_waterfall c updated_nav clock.slot clock.unix_timestamp senior junior
      ok (store_tranche_config c' remaining))
  ]
