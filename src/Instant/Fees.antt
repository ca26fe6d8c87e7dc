-- ===== src/Instant/Fees.antt =====
-- What both handlers of an instant settlement read and write, and how they pay the fees
-- (programs/async_vault_v2/src/instructions/instant_deposit.rs and instant_redeem.rs).
use solana_vault_v.Base.{ℕ, Option, ok, ◌>>=◌, ◌>>◌, List, ltb, if◌then◌else◌}
use solana_vault_v.Error.{Outcome, or_fail, missing_fee_recipient}
use solana_vault_v.State.{Pubkey, Vault}
use solana_vault_v.Extensions.{Extensions}
use solana_vault_v.Runtime.{Addresses, AccountInfo, Mint, validate_token_account_owner}
use solana_vault_v.Runtime.Token.{TokenProgram}
use solana_vault_v.Tranche.{first}
use solana_vault_v.Requests.{resolve_protocol_fee_recipient}
use solana_vault_v.Requests.World.{transfer_checked}
use solana_vault_v.Instant.Users.{UserAccount}

pub record InstantWorld (T : TokenProgram) : Type 0 where
  pub vault : Vault
  pub extensions : Extensions
  pub instant_user : Option UserAccount
  pub tokens : T.Tokens

-- The accounts of a call. Anchor checks the mints and owners of the token accounts, that the vault's
-- token account is the vault's own, the address of the user's limit account, and that the user signs.
pub record InstantAccounts : Type 0 where
  pub user : Pubkey
  pub asset_mint : Mint
  pub share_mint : Mint
  pub vault_key : Pubkey
  pub instant_user_bump : ℕ
  pub vault_token_account : Pubkey
  pub user_asset_account : Pubkey
  pub user_share_account : Pubkey
  pub fee_recipient_token_account : Option AccountInfo
  pub protocol_fee_recipient_token_account : Option AccountInfo
  pub remaining : List AccountInfo

module _ (addresses : Addresses) (T : TokenProgram) (accounts : InstantAccounts) where
  open accounts use {fee_recipient_token_account, protocol_fee_recipient_token_account, remaining}

  -- The fee recipient is paid first, then the protocol.
  unfoldable pub pay_fee_recipient : ℕ → Pubkey → T.Tokens → Outcome T.Tokens
  pay_fee_recipient fee from t =
      if ltb 0 fee
      then (do
        info ← or_fail fee_recipient_token_account missing_fee_recipient
        transfer_checked T t from info.key fee)
      else ok t

  unfoldable pub pay_protocol : Vault → ℕ → Pubkey → T.Tokens → Outcome T.Tokens
  pay_protocol v fee from t =
      if ltb 0 fee
      then (do
        (recipient, _) ← resolve_protocol_fee_recipient addresses v (first remaining)
        info ← or_fail protocol_fee_recipient_token_account missing_fee_recipient
        validate_token_account_owner info recipient
        transfer_checked T t from info.key fee)
      else ok t
