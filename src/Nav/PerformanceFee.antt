-- ===== src/Nav/PerformanceFee.antt =====
-- The performance fee: shares minted for the gain over the high-water mark.
use solana_vault_v.Base.{
  ℕ, Bool, false, ◌+◌, ◌||◌, ◌&&◌, Option, none, some, List, ok, ◌>>=◌, ◌>>◌, leb, ltb, ◌==◌,
  if◌then◌else◌, u64_max, u128_max, checked_sub, checked_mul, checked_div, try_from,
}
use solana_vault_v.Base.Int.{ℤ, pos_part, checked_sub_i64}
use solana_vault_v.Error.{
  Outcome, require, or_fail, exact, arithmetic_error, missing_required_account, invalid_share_mint,
}
use solana_vault_v.Fee.{max_bps, split_protocol_fee}
use solana_vault_v.Pricing.{precision}
use solana_vault_v.State.{Pubkey, Vault, require_keys_eq}
use solana_vault_v.Runtime.{
  Addresses, AccountInfo, read_mint_supply_and_decimals, validate_token_account_mint_and_owner,
}
use solana_vault_v.Runtime.Token.{TokenProgram}
use solana_vault_v.Tranche.{first, account_at}
use solana_vault_v.Requests.{mint_shares}
use solana_vault_v.Requests.{resolve_protocol_fee_recipient}

unfoldable pub calculate_performance_fee_shares : ℕ → ℕ → ℕ → ℕ → ℕ → Outcome ℕ
calculate_performance_fee_shares updated_nav high_water_mark fee_bps share_supply decimals =
    if fee_bps == 0 || share_supply == 0 || leb updated_nav high_water_mark then ok 0 else (do
      p ← precision decimals
      profit_per_share ← exact (checked_sub updated_nav high_water_mark)
      gross ← exact (checked_mul u128_max share_supply profit_per_share)
      gross_profit_assets ← exact (checked_div gross p)
      scaled ← exact (checked_mul u128_max gross_profit_assets fee_bps)
      fee_assets ← exact (checked_div scaled max_bps)
      (if fee_assets == 0 then ok 0 else (do
        valued ← exact (checked_mul u128_max share_supply updated_nav)
        total_assets ← exact (checked_div valued p)
        denominator ← exact (checked_sub total_assets fee_assets)
        require (ltb 0 denominator) arithmetic_error
        product ← exact (checked_mul u128_max fee_assets share_supply)
        fee_shares ← exact (checked_div product denominator)
        exact (try_from u64_max fee_shares))))

-- Whether a fee still waits for the end of its interval.
unfoldable pub is_too_early : Vault → ℤ → Outcome Bool
is_too_early v timestamp =
    if ltb 0 v.performance_fee_bps
      && ltb 0 v.high_water_mark
      && ltb 0 v.performance_fee_crystallization_interval_seconds
    then (do
      elapsed ← exact (checked_sub_i64 timestamp v.last_fee_crystallization_timestamp)
      ok (ltb (pos_part elapsed) v.performance_fee_crystallization_interval_seconds))
    else ok false

module _ (addresses : Addresses) (T : TokenProgram) where
  open T use {Tokens}

  -- The protocol's recipient with its token account, if it has a share of the fee, and the index of
  -- the token program among the accounts.
  unfoldable pub protocol_fee_target :
      Vault → List AccountInfo → Outcome (Option (Pubkey × AccountInfo) × ℕ)
  protocol_fee_target v remaining =
      if ltb 0 v.protocol_fee_bps
      then (do
        (recipient, consumed) ← resolve_protocol_fee_recipient addresses v (account_at 2 remaining)
        let index = if consumed then 3 else 2
        account ← or_fail (account_at index remaining) missing_required_account
        ok (some (recipient, account), index + 1))
      else ok (none, 2)

  -- The two `mint_to` calls.
  unfoldable pub mint_fee_shares :
      Vault
      → AccountInfo
      → AccountInfo
      → Option (Pubkey × AccountInfo)
      → ℕ
      → Tokens
      → Outcome Tokens
  mint_fee_shares v mint_info recipient_info protocol fee_shares t = do
    (protocol_shares, recipient_shares) ← split_protocol_fee fee_shares v.protocol_fee_bps
    (elim protocol [
      | none ↦ ok tt
      | some (recipient, account) ↦
          validate_token_account_mint_and_owner account v.share_mint recipient
    ])
    t1 ←
        (if ltb 0 recipient_shares
          then mint_shares T t mint_info.key recipient_info.key recipient_shares
          else ok t)
    (if ltb 0 protocol_shares
        then (do
          (_, account) ← or_fail protocol missing_required_account
          mint_shares T t1 mint_info.key account.key protocol_shares)
        else ok t1)

  -- The part of `maybe_crystallize_performance_fee` after the high-water mark has moved: the tokens
  -- and the number of accounts used.
  unfoldable pub take_performance_fee :
      Vault → ℕ → ℕ → List AccountInfo → Tokens → Outcome (Tokens × ℕ)
  take_performance_fee v updated_nav previous_high_water_mark remaining t = do
    mint_info ← or_fail (first remaining) missing_required_account
    recipient_info ← or_fail (account_at 1 remaining) missing_required_account
    (protocol, index) ← protocol_fee_target v remaining
    program_info ← or_fail (account_at index remaining) missing_required_account
    require
        (program_info.key == addresses.token_program
          || program_info.key == addresses.token_2022_program)
        invalid_share_mint
    require_keys_eq mint_info.key v.share_mint invalid_share_mint
    require_keys_eq mint_info.owner program_info.key invalid_share_mint
    validate_token_account_mint_and_owner recipient_info v.share_mint v.fee_recipient
    view ← read_mint_supply_and_decimals mint_info
    fee_shares ←
        calculate_performance_fee_shares updated_nav previous_high_water_mark v.performance_fee_bps
          view.supply view.decimals
    (if fee_shares == 0 then ok (t, index + 1) else (do
      t' ← mint_fee_shares v mint_info recipient_info protocol fee_shares t
      ok (t', index + 1)))

  -- `maybe_crystallize_performance_fee`: the vault with its new high-water mark, the tokens, and the
  -- number of accounts used.
  unfoldable pub maybe_crystallize_performance_fee :
      Vault → ℕ → ℤ → List AccountInfo → Tokens → Outcome (Vault × Tokens × ℕ)
  maybe_crystallize_performance_fee v updated_nav timestamp remaining t =
      if leb updated_nav v.high_water_mark then ok (v, t, 0) else (do
        too_early ← is_too_early v timestamp
        (if too_early
            then ok (v, t, 0)
            else let raised = record v {
              high_water_mark = updated_nav;
              last_fee_crystallization_timestamp = timestamp;
            } in
              if v.performance_fee_bps == 0 || v.high_water_mark == 0
              then ok (raised, t, 0)
              else (do
                (t', used) ← take_performance_fee raised updated_nav v.high_water_mark remaining t
                ok (raised, t', used))))
