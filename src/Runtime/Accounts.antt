-- ===== src/Runtime/Accounts.antt =====
-- Accounts as a handler sees them, and what it reads of them at fixed places
-- (programs/async_vault_v2/src/utils.rs).
use solana_vault_v.Base.{
  ℕ, Bool, ◌||◌, not, Option, none, some, ok, ◌>>=◌, ◌>>◌, ◌==◌, if◌then◌else◌, ok_or, ensure,
}
use solana_vault_v.Base.Int.{ℤ}
use solana_vault_v.Error.{
  Outcome, program, invalid_account_data, invalid_account_owner, invalid_asset_mint_extensions,
  invalid_share_mint_extensions, invalid_share_mint, require,
}
use solana_vault_v.State.{⊤, Pubkey, TrancheConfig, ProtocolFeeConfig}

-- The keys that the runtime fixes: programs, and the addresses that `find_program_address` derives.
pub record Addresses : Type 0 where
  pub token_program : Pubkey
  pub token_2022_program : Pubkey
  pub vault_program : Pubkey
  pub tranche_config : Pubkey → Pubkey  -- of a vault
  pub protocol_fee_config : Pubkey
  pub protocol_fee_config_bump : ℕ
  pub system_program : Pubkey
  pub instant_user : Pubkey → Pubkey → Pubkey × ℕ  -- of a vault and a user, with its bump

-- `Clock::get()`
pub record Clock : Type 0 where
  pub slot : ℕ  -- u64
  pub unix_timestamp : ℤ  -- i64

pub record MintView : Type 0 where
  pub supply : ℕ  -- u64
  pub decimals : ℕ  -- u8

pub record TokenView : Type 0 where
  pub mint : Pubkey
  pub owner : Pubkey

-- An untyped account. The program reads its bytes at fixed offsets: as a mint if they are long
-- enough (45), as a token account if they are (64); `Account::try_from` may read a typed account.
pub record AccountInfo : Type 0 where
  pub key : Pubkey
  pub owner : Pubkey
  pub is_writable : Bool
  pub as_mint : Option MintView
  pub as_token_account : Option TokenView
  pub as_tranche_config : Option TrancheConfig
  pub as_protocol_fee_config : Option ProtocolFeeConfig

unfoldable pub read_mint_supply_and_decimals : AccountInfo → Outcome MintView
read_mint_supply_and_decimals info = ok_or info.as_mint invalid_account_data

unfoldable pub validate_token_account_owner : AccountInfo → Pubkey → Outcome ⊤
validate_token_account_owner info expected_owner = do
  view ← ok_or info.as_token_account invalid_account_data
  ensure (view.owner == expected_owner) invalid_account_owner

unfoldable pub validate_token_account_mint_and_owner : AccountInfo → Pubkey → Pubkey → Outcome ⊤
validate_token_account_mint_and_owner info expected_mint expected_owner = do
  view ← ok_or info.as_token_account invalid_account_data
  ensure (view.mint == expected_mint) invalid_account_data
  ensure (view.owner == expected_owner) invalid_account_owner

-- A typed mint account (`InterfaceAccount<Mint>`), with the Token-2022 extensions that are looked at.
pub record Mint : Type 0 where
  pub key : Pubkey
  pub owner : Pubkey
  pub supply : ℕ  -- u64
  pub decimals : ℕ  -- u8
  pub transfer_fee_bps : Option ℕ  -- of the current epoch, if the mint has a TransferFeeConfig
  pub confidential_mint_burn : Bool

module _ (addresses : Addresses) where
  -- `validate_asset_mint_extensions_from_acct_info`
  unfoldable pub validate_asset_mint_extensions : Mint → Outcome ⊤
  validate_asset_mint_extensions m =
      if not (m.owner == addresses.token_2022_program) then ok tt else elim m.transfer_fee_bps [
        | none ↦ ok tt
        | some bps ↦ ensure (bps == 0) (program invalid_asset_mint_extensions)
      ]

  -- `validate_share_mint_extensions_from_acct_info`
  unfoldable pub validate_share_mint_extensions : Mint → Outcome ⊤
  validate_share_mint_extensions m =
      if not (m.owner == addresses.token_2022_program)
      then ok tt
      else require (not m.confidential_mint_burn) invalid_share_mint_extensions

  -- `require_token_mint_account` of approve_request.rs, written out again in update_nav.rs
  unfoldable pub require_token_mint_account : AccountInfo → Outcome ⊤
  require_token_mint_account info =
      require (info.owner == addresses.token_program || info.owner == addresses.token_2022_program)
        invalid_share_mint
