-- ===== src/Tests/Setup.antt =====
-- A vault that is created and split into two tranches.
use solana_vault_v.Base.{
  ◌≡◌, ◌≢◌, ◌||◌, ◌==◌, if◌then◌else◌, is_ok, true, false, Option, none, some, [], ◌∷◌, ok, refl,
  arith,
}
use solana_vault_v.State.{
  RequestLimits, Pubkey, Vault, TrancheConfig, assert_uninitialized, assert_curator,
}
use solana_vault_v.Runtime.{
  AccountInfo, Mint, validate_asset_mint_extensions, validate_share_mint_extensions,
}
use solana_vault_v.Tranche.{validate_request_share_mint}
use solana_vault_v.Setup.Mints.{MintAuthorities}
use solana_vault_v.Setup.Creation.{CreateVaultAccounts, new_vault, create_vault}
use solana_vault_v.Setup.Tranches.{
  InitializeTranchesArgs, InitializeTranchesAccounts, check_request_limits, check_tranche_args,
  check_tranche_mints, require_mint_owned_by, take_tranche_mints, new_tranche_config,
  initialize_tranches,
}
use solana_vault_v.Setup.Guarantees.{initialize_tranches-eq_ok}
use solana_vault_v.Tests.Data.{addresses}

-- The authorities as a function, which the present authority may change.
abbrev hand_over :
    (Pubkey → Option Pubkey) → Pubkey → Pubkey → Pubkey → Option (Pubkey → Option Pubkey)
hand_over s mint current new = elim (s mint) [
  | none ↦ none
  | some owner ↦ if owner == current then some (λ k. if k == mint then some new else s k) else none
]

hand_over-new :
    (s s' : Pubkey → Option Pubkey) (mint current new : Pubkey)
    → hand_over s mint current new ≡ some s'
    → s' mint ≡ some new
hand_over-new s s' mint current new h = ground arith

hand_over-other :
    (s s' : Pubkey → Option Pubkey) (mint current new k : Pubkey)
    → hand_over s mint current new ≡ some s'
    → k ≢ mint
    → s' k ≡ s k
hand_over-other s s' mint current new k h ne = ground arith

abbrev authorities : MintAuthorities
authorities = record {
  Mints = Pubkey → Option Pubkey;
  authority = λ s mint. s mint;
  set_authority = hand_over;
  set_authority-new = hand_over-new;
  set_authority-other = hand_over-other;
}

abbrev mint : Pubkey → Mint
mint k = record {
  key = k;
  owner = 900;
  supply = 0;
  decimals = 6;
  transfer_fee_bps = none;
  confidential_mint_burn = false;
}

-- Key 5 may mint both share mints, 2 and 12, at first.
abbrev at_first : Pubkey → Option Pubkey
at_first _ = some 5

abbrev create_accounts : CreateVaultAccounts
create_accounts = record {
  mint_authority = 5;
  asset_mint = mint 1;
  share_mint = mint 2;
  vault_key = 9;
  reserve = 3;
  pending_vault = 4;
  reserve_bump = 0;
  pending_vault_bump = 0;
  bump = 0;
}

abbrev created : Vault
created = new_vault create_accounts (record { authority = 5; fee_recipient = 6 })

abbrev after_creation : Pubkey → Option Pubkey
after_creation k = if k == 2 then some 9 else some 5

create_run :
    create_vault addresses authorities create_accounts
      (record { authority = 5; fee_recipient = 6 })
      at_first
    ≡ ok (created, after_creation)
unfolding create_vault validate_asset_mint_extensions validate_share_mint_extensions
create_run = refl

abbrev tranche_accounts : InitializeTranchesAccounts
tranche_accounts = record {
  mint_authority = 5;
  authority = 5;
  vault_key = 9;
  senior_share_mint = mint 2;
  junior_share_mint = mint 12;
  senior_share_token_program = 900;
  junior_share_token_program = 900;
  tranche_config_key = 9;
  bump = 0;
}

abbrev args : InitializeTranchesArgs
args =
    let none_set : RequestLimits = record {
      senior_deposit = 0;
      senior_redeem = 0;
      junior_deposit = 0;
      junior_redeem = 0;
    } in
    record {
      senior_target_bps = 500;
      min_junior_ratio_bps = 2_000;
      min_request_amounts = none_set;
      max_request_amounts = none_set;
    }

abbrev config : TrancheConfig
config = new_tranche_config tranche_accounts args

abbrev split : Vault
split = record created { tranche_config = some 9 }

abbrev after_split : Pubkey → Option Pubkey
after_split k = if k == 12 then some 9 else after_creation k

tranches_run :
    initialize_tranches addresses authorities tranche_accounts args created after_creation
    ≡ ok (split, config, after_split)
unfolding initialize_tranches check_tranche_args check_tranche_mints take_tranche_mints
    check_request_limits require_mint_owned_by assert_uninitialized assert_curator
    validate_share_mint_extensions
tranches_run = refl

abbrev config_info : AccountInfo
config_info = record {
  key = 9;
  owner = 902;
  is_writable = true;
  as_mint = none;
  as_token_account = none;
  as_tranche_config = some config;
  as_protocol_fee_config = none;
}

initialize_tranches-eq_ok_example :
    (after_split 2 ≡ some 9)
    × (after_split 12 ≡ some 9)
    × (config.senior_share_mint ≢ config.junior_share_mint)
    × (config.senior_share_mint ≢ created.asset_mint)
    × (config.junior_share_mint ≢ created.asset_mint)
    × ((2 == 2 || 12 == 2) ≡ true)
    × (split ≡ record created { tranche_config = some 9 })
    × (is_ok (validate_request_share_mint addresses split 9 12 (config_info ∷ []))
        ≡ (12 == 2 || 12 == 12))
initialize_tranches-eq_ok_example =
    initialize_tranches-eq_ok addresses authorities tranche_accounts args created after_creation
      config_info 12 tranches_run refl refl refl
