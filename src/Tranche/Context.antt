-- ===== src/Tranche/Context.antt =====
-- Which share mint a request may use, at which NAV, and within which limits
-- (`validate_request_share_mint`, `enforce_tranche_request_limits`,
-- programs/async_vault_v2/src/utils.rs).
use solana_vault_v.Base.{
  ℕ, zero, suc, ◌||◌, Option, none, some, ok, err, ◌>>=◌, ◌>>◌, List, [], ◌∷◌, leb, ltb, ◌==◌,
  if◌then◌else◌, ok_or,
}
use solana_vault_v.Error.{
  Outcome, program, require, or_fail, invalid_share_mint, missing_required_account, invalid_vault,
  account_not_deserialized, tranche_request_amount_below_minimum,
  tranche_request_amount_above_maximum,
}
use solana_vault_v.State.{
  ⊤, Pubkey, require_keys_eq, Vault, RequestType, RequestLimits, TrancheConfig,
}
use solana_vault_v.Runtime.{Addresses, AccountInfo}
use solana_vault_v.Tranche.Lanes.{is_deposit}

pub record TrancheRequestInfo : Type 0 where
  pub senior_share_mint : Pubkey
  pub junior_share_mint : Pubkey
  pub senior_nav : ℕ  -- u128
  pub junior_nav : ℕ  -- u128
  pub senior_supply : ℕ  -- u64
  pub junior_supply : ℕ  -- u64
  pub min_junior_ratio_bps : ℕ  -- u16
  pub min_request_amounts : RequestLimits
  pub max_request_amounts : RequestLimits

pub record RequestShareMintContext : Type 0 where
  pub consumed_accounts : ℕ
  pub tranche_nav : Option ℕ
  pub tranche_info : Option TrancheRequestInfo

-- `remaining_accounts.first()`
abbrev pub first : List AccountInfo → Option AccountInfo
first [] = none
first (a ∷ _) = some a

-- `remaining_accounts.iter().skip(n)`
abbrev pub skip_accounts : ℕ → List AccountInfo → List AccountInfo
skip_accounts zero l = l
skip_accounts (suc n) [] = []
skip_accounts (suc n) (_ ∷ rest) = skip_accounts n rest

-- `remaining_accounts.get(n)`
abbrev pub account_at : ℕ → List AccountInfo → Option AccountInfo
account_at n l = first (skip_accounts n l)

abbrev request_info : TrancheConfig → TrancheRequestInfo
request_info c = record {
  senior_share_mint = c.senior_share_mint;
  junior_share_mint = c.junior_share_mint;
  senior_nav = c.senior_nav;
  junior_nav = c.junior_nav;
  senior_supply = c.senior_supply;
  junior_supply = c.junior_supply;
  min_junior_ratio_bps = c.min_junior_ratio_bps;
  min_request_amounts = c.min_request_amounts;
  max_request_amounts = c.max_request_amounts;
}

-- The NAV of the tranche that a share mint names.
unfoldable pub select_tranche_nav : TrancheConfig → Pubkey → Outcome ℕ
select_tranche_nav c selected_share_mint =
    if selected_share_mint == c.senior_share_mint
    then ok c.senior_nav
    else if selected_share_mint == c.junior_share_mint
    then ok c.junior_nav
    else err (program invalid_share_mint)

module _ (addresses : Addresses) where
  -- The tranche configuration that the first remaining account holds, if it is the vault's own.
  unfoldable pub load_tranche_config : Pubkey → Pubkey → List AccountInfo → Outcome TrancheConfig
  load_tranche_config vault_key expected remaining_accounts = do
    info ← or_fail (first remaining_accounts) missing_required_account
    require_keys_eq info.key expected invalid_vault
    require_keys_eq expected (addresses.tranche_config vault_key) invalid_vault
    c ← ok_or info.as_tranche_config account_not_deserialized
    require_keys_eq c.vault vault_key invalid_vault
    ok c

  -- Without a tranche configuration only the vault's own share mint is accepted.
  abbrev base_context : Vault → Pubkey → Outcome RequestShareMintContext
  base_context v selected_share_mint = do
    require_keys_eq selected_share_mint v.share_mint invalid_share_mint
    ok (record { consumed_accounts = 0; tranche_nav = none; tranche_info = none })

  abbrev tranche_context :
      Pubkey → Pubkey → Pubkey → List AccountInfo → Outcome RequestShareMintContext
  tranche_context expected vault_key selected_share_mint remaining_accounts = do
    c ← load_tranche_config vault_key expected remaining_accounts
    nav ← select_tranche_nav c selected_share_mint
    ok (record {
      consumed_accounts = 1;
      tranche_nav = some nav;
      tranche_info = some (request_info c);
    })

  unfoldable pub validate_request_share_mint :
      Vault → Pubkey → Pubkey → List AccountInfo → Outcome RequestShareMintContext
  validate_request_share_mint v vault_key selected_share_mint remaining_accounts =
      elim v.tranche_config [
        | none ↦ base_context v selected_share_mint
        | some expected ↦ tranche_context expected vault_key selected_share_mint remaining_accounts
      ]

-- `limits[limit_index]`
unfoldable pub select_limit : TrancheRequestInfo → RequestLimits → Pubkey → RequestType → Outcome ℕ
select_limit i limits selected_share_mint request_type =
    if selected_share_mint == i.senior_share_mint
    then ok (if is_deposit request_type then limits.senior_deposit else limits.senior_redeem)
    else if selected_share_mint == i.junior_share_mint
    then ok (if is_deposit request_type then limits.junior_deposit else limits.junior_redeem)
    else err (program invalid_share_mint)

unfoldable pub enforce_tranche_request_limits :
    RequestShareMintContext → Pubkey → RequestType → ℕ → Outcome ⊤
enforce_tranche_request_limits context selected_share_mint request_type amount =
    elim context.tranche_info [
      | none ↦ ok tt
      | some i ↦ (do
        min_amount ← select_limit i i.min_request_amounts selected_share_mint request_type
        require (min_amount == 0 || leb min_amount amount) tranche_request_amount_below_minimum
        max_amount ← select_limit i i.max_request_amounts selected_share_mint request_type
        require (max_amount == 0 || leb amount max_amount) tranche_request_amount_above_maximum)
    ]

-- `tranche_nav.filter(|nav| *nav > 0).unwrap_or(vault.nav)`
abbrev pub request_nav : RequestShareMintContext → Vault → ℕ
request_nav context v = elim context.tranche_nav [
  | none ↦ v.nav
  | some nav ↦ if ltb 0 nav then nav else v.nav
]
