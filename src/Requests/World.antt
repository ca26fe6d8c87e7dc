-- ===== src/Requests/World.antt =====
-- What the request instructions read and write: the vault with its extensions, the accounts that a
-- call passes, and the token balances. A call that fails changes nothing: its transaction reverts.
use solana_vault_v.Base.{
  ℕ, Bool, true, false, Option, some, ok, ◌>>=◌, ◌>>◌, List, if◌then◌else◌, ok_or, u16_max,
  checked_add, checked_sub,
}
use solana_vault_v.Error.{
  Outcome, constraint_violated, token_program_refused, or_fail, exact, missing_required_account,
  invalid_pending_vault, invalid_asset_mint,
}
use solana_vault_v.State.{
  ⊤, Pubkey, Vault, VaultAsset, Request, RequestState, pending, claimable, canceled,
  require_keys_eq, is_primary_asset, assert_matches, assert_pending_vault,
}
use solana_vault_v.Runtime.{AccountInfo, Mint}
use solana_vault_v.Runtime.Token.{TokenProgram}
use solana_vault_v.Extensions.{Extensions}

-- The request's own extensions: its number in each queue.
pub record QueueIds : Type 0 where
  pub subscription : Option ℕ
  pub redemption : Option ℕ

pub record World (T : TokenProgram) : Type 0 where
  pub vault : Vault
  pub extensions : Extensions
  pub vault_asset : Option VaultAsset
  pub request : Request
  pub ids : QueueIds
  pub remaining : List AccountInfo
  pub tokens : T.Tokens

-- The accounts that a call names; Anchor refuses a call that leaves a required one out. That the
-- token accounts are of the right mint and owner is checked by Anchor before the handler runs.
pub record RequestAccounts : Type 0 where
  pub signer : Pubkey
  pub owner : Pubkey  -- the `user` of reject_request, the `owner` of claim and skip
  pub asset_mint : Mint
  pub share_mint : Mint
  pub vault_key : Pubkey
  pub vault_token_account : Pubkey
  pub pending_vault : Option Pubkey
  pub user_asset_account : Option Pubkey
  pub user_share_account : Option Pubkey
  pub asset_token_program : Bool
  pub share_token_program : Bool

-- An account that the instruction's account list does not make optional.
abbrev pub required : {A : Type 0} → Option A → Outcome A
required o = ok_or o constraint_violated

-- An optional account that the handler then asks for.
abbrev pub demanded : {A : Type 0} → Option A → Outcome A
demanded o = or_fail o missing_required_account

module _ (T : TokenProgram) where
  open T use {Tokens, transfer, mint_to, burn}

  -- `token_interface::transfer_checked`, `mint_to` and `burn`
  abbrev pub transfer_checked : Tokens → Pubkey → Pubkey → ℕ → Outcome Tokens
  transfer_checked t from to amount = ok_or (transfer t from to amount) token_program_refused

  abbrev pub mint_shares : Tokens → Pubkey → Pubkey → ℕ → Outcome Tokens
  mint_shares t m to amount = ok_or (mint_to t m to amount) token_program_refused

  abbrev pub burn_shares : Tokens → Pubkey → Pubkey → ℕ → Outcome Tokens
  burn_shares t m from amount = ok_or (burn t m from amount) token_program_refused

-- The escrow account of a request: the vault's own for the primary asset, else the asset's.
unfoldable pub check_pending_vault :
    Vault → Option VaultAsset → Pubkey → Pubkey → Pubkey → Outcome ⊤
check_pending_vault v vault_asset vault_key asset_mint pending_vault =
    if is_primary_asset v asset_mint
    then require_keys_eq v.pending_vault pending_vault invalid_pending_vault
    else (do
      a ← or_fail vault_asset invalid_asset_mint
      assert_matches a vault_key asset_mint
      assert_pending_vault a pending_vault)

-- The same check where the escrow account is optional, as in `cancel_request` and `reject_request`:
-- a missing secondary asset is reported before a missing escrow account.
unfoldable pub refund_escrow :
    Vault → Option VaultAsset → Pubkey → Pubkey → Option Pubkey → Outcome Pubkey
refund_escrow v vault_asset vault_key asset_mint pending_vault =
    if is_primary_asset v asset_mint
    then (do
      escrow ← demanded pending_vault
      require_keys_eq v.pending_vault escrow invalid_pending_vault
      ok escrow)
    else (do
      a ← or_fail vault_asset invalid_asset_mint
      escrow ← demanded pending_vault
      assert_matches a vault_key asset_mint
      assert_pending_vault a escrow
      ok escrow)

-- The reservation of a pending deposit, taken back when the deposit is refunded.
unfoldable pub release_pending_deposit :
    Vault → Option VaultAsset → Pubkey → ℕ → Outcome (Vault × Option VaultAsset)
release_pending_deposit v vault_asset asset_mint refund_amount =
    if is_primary_asset v asset_mint
    then (do
      left ← exact (checked_sub v.pending_deposit_amount refund_amount)
      ok (record v { pending_deposit_amount = left }, vault_asset))
    else (do
      a ← or_fail vault_asset invalid_asset_mint
      left ← exact (checked_sub a.pending_deposit_amount refund_amount)
      ok (v, some (record a { pending_deposit_amount = left })))

-- One pending request more, or one less.
unfoldable pub open_pending_request : Vault → Outcome Vault
open_pending_request v = do
  n ← exact (checked_add u16_max v.pending_async_requests 1)
  ok (record v { pending_async_requests = n })

unfoldable pub close_pending_request : Vault → Outcome Vault
close_pending_request v = do
  n ← exact (checked_sub v.pending_async_requests 1)
  ok (record v { pending_async_requests = n })

abbrev pub is_pending : RequestState → Bool
is_pending pending = true
is_pending claimable = false
is_pending canceled = false

abbrev pub is_claimable : RequestState → Bool
is_claimable pending = false
is_claimable claimable = true
is_claimable canceled = false

abbrev pub is_canceled : RequestState → Bool
is_canceled pending = false
is_canceled claimable = false
is_canceled canceled = true
