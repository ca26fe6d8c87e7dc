-- ===== src/Requests/JuniorFloor.antt =====
-- The junior-ratio floor and the cached tranche supplies of an approval
-- (programs/async_vault_v2/src/instructions/approve_request.rs).
use solana_vault_v.Base.{
  ℕ, Bool, not, ◌||◌, Option, none, some, ok, ◌>>=◌, ◌>>◌, List, [], ◌∷◌, leb, ltb, ◌==◌,
  if◌then◌else◌, u64_max, u128_max, checked_add, checked_sub, checked_mul, checked_div,
}
use solana_vault_v.Error.{
  AsyncVaultError, Outcome, require, or_fail, exact, missing_required_account, invalid_share_mint,
  junior_ratio_below_minimum,
}
use solana_vault_v.Fee.{max_bps}
use solana_vault_v.Pricing.{assets_from_supply}
use solana_vault_v.State.{⊤, Pubkey, Vault, RequestType, deposit, redeem, require_keys_eq}
use solana_vault_v.Runtime.{
  Addresses, AccountInfo, read_mint_supply_and_decimals, require_token_mint_account,
}
use solana_vault_v.Tranche.{TrancheRequestInfo}
use solana_vault_v.Requests.Ordering.{writable_tranche_config, store_tranche_config}

abbrev pub max_ℕ : ℕ → ℕ → ℕ
max_ℕ a b = if leb a b then b else a

-- `remaining.next().ok_or(e)?`
abbrev pub next_account :
    List AccountInfo → AsyncVaultError → Outcome (AccountInfo × List AccountInfo)
next_account [] e = or_fail none e
next_account (a ∷ rest) e = ok (a, rest)

-- The supply of the selected tranche once the request is settled: the larger of the cached and the
-- live supply, and the request's shares added or taken away.
unfoldable pub post_approval_supply : ℕ → ℕ → RequestType → ℕ → Outcome ℕ
post_approval_supply cached_supply live_supply_after_request deposit share_delta =
    exact (checked_add u64_max (max_ℕ cached_supply live_supply_after_request) share_delta)
post_approval_supply cached_supply live_supply_after_request redeem share_delta = do
  live_supply_before_request ← exact (checked_add u64_max live_supply_after_request share_delta)
  exact (checked_sub (max_ℕ cached_supply live_supply_before_request) share_delta)

-- The supply of one tranche in the ratio: moved by the request if it is the selected one.
unfoldable pub ratio_supply : Bool → ℕ → ℕ → RequestType → ℕ → Outcome ℕ
ratio_supply selected cached_supply live_supply request_type share_delta =
    if selected
    then post_approval_supply cached_supply live_supply request_type share_delta
    else ok (max_ℕ live_supply cached_supply)

-- The test on the two tranches' assets.
unfoldable pub check_junior_ratio : ℕ → ℕ → ℕ → Outcome ⊤
check_junior_ratio senior_assets junior_assets min_junior_ratio_bps = do
  total_assets ← exact (checked_add u128_max senior_assets junior_assets)
  if total_assets == 0 then ok tt else (do
    product ← exact (checked_mul u128_max junior_assets max_bps)
    junior_ratio_bps ← exact (checked_div product total_assets)
    require (leb min_junior_ratio_bps junior_ratio_bps) junior_ratio_below_minimum)

-- Only senior deposits and junior redemptions lower the ratio.
abbrev pub lowers_ratio : TrancheRequestInfo → Pubkey → RequestType → Bool
lowers_ratio i selected_share_mint deposit = selected_share_mint == i.senior_share_mint
lowers_ratio i selected_share_mint redeem = selected_share_mint == i.junior_share_mint

module _ (addresses : Addresses) where
  -- Returns the remaining accounts that are left.
  unfoldable pub enforce_junior_ratio :
      Vault
      → TrancheRequestInfo
      → Pubkey
      → RequestType
      → ℕ
      → List AccountInfo
      → Outcome (List AccountInfo)
  enforce_junior_ratio v i selected_share_mint request_type share_delta remaining = do
    (senior_info, rest) ← next_account remaining missing_required_account
    (junior_info, left) ← next_account rest missing_required_account
    require_keys_eq senior_info.key i.senior_share_mint invalid_share_mint
    require_keys_eq junior_info.key i.junior_share_mint invalid_share_mint
    require_token_mint_account addresses senior_info
    require_token_mint_account addresses junior_info
    senior ← read_mint_supply_and_decimals senior_info
    junior ← read_mint_supply_and_decimals junior_info
    senior_supply ←
        ratio_supply (selected_share_mint == i.senior_share_mint) i.senior_supply senior.supply
          request_type share_delta
    junior_supply ←
        ratio_supply (selected_share_mint == i.junior_share_mint) i.junior_supply junior.supply
          request_type share_delta
    senior_assets ←
        assets_from_supply senior_supply senior.decimals
          (if ltb 0 i.senior_nav then i.senior_nav else v.nav)
    junior_assets ←
        assets_from_supply junior_supply junior.decimals
          (if ltb 0 i.junior_nav then i.junior_nav else v.nav)
    check_junior_ratio senior_assets junior_assets i.min_junior_ratio_bps
    ok left

  unfoldable pub maybe_enforce_junior_ratio_floor :
      Vault
      → Pubkey
      → RequestType
      → ℕ
      → Option TrancheRequestInfo
      → List AccountInfo
      → Outcome (List AccountInfo)
  maybe_enforce_junior_ratio_floor v selected_share_mint request_type share_delta none remaining =
      ok remaining
  maybe_enforce_junior_ratio_floor v selected_share_mint request_type share_delta (some i)
        remaining =
      if i.min_junior_ratio_bps == 0 || not (lowers_ratio i selected_share_mint request_type)
      then ok remaining
      else enforce_junior_ratio v i selected_share_mint request_type share_delta remaining

-- Writes the selected tranche's new supply to the configuration in the first remaining account.
unfoldable pub update_tranche_supply_cache :
    Pubkey
    → RequestType
    → ℕ
    → ℕ
    → Option TrancheRequestInfo
    → List AccountInfo
    → Outcome (List AccountInfo)
update_tranche_supply_cache selected_share_mint request_type share_delta live_supply none
      remaining =
    ok remaining
update_tranche_supply_cache selected_share_mint request_type share_delta live_supply (some i)
      remaining =
    do
      c ← writable_tranche_config remaining
      if selected_share_mint == i.senior_share_mint
          then (do
            supply ← post_approval_supply i.senior_supply live_supply request_type share_delta
            ok (store_tranche_config (record c { senior_supply = supply }) remaining))
          else if selected_share_mint == i.junior_share_mint
          then (do
            supply ← post_approval_supply i.junior_supply live_supply request_type share_delta
            ok (store_tranche_config (record c { junior_supply = supply }) remaining))
          else ok (store_tranche_config c remaining)
