-- ===== src/Requests/FeeAccounts.antt =====
-- Where the fees of a settlement go (`resolve_protocol_fee_recipient`,
-- programs/async_vault_v2/src/utils.rs; the fee accounts of
-- programs/async_vault_v2/src/instructions/approve_request.rs).
use solana_vault_v.Base.{
  ℕ, Bool, true, false, not, ◌&&◌, Option, none, some, ok, ◌>>=◌, ◌>>◌, List, [], ◌∷◌, ltb, ◌==◌,
  if◌then◌else◌, ok_or,
}
use solana_vault_v.Error.{
  Outcome, require, missing_fee_recipient, invalid_vault, invalid_fee_recipient,
  account_not_deserialized,
}
use solana_vault_v.State.{Pubkey, Vault, default_pubkey, require_keys_eq}
use solana_vault_v.Runtime.{Addresses, AccountInfo, validate_token_account_owner}
use solana_vault_v.Runtime.Token.{TokenProgram}
use solana_vault_v.Tranche.{first}
use solana_vault_v.Requests.World.{transfer_checked}
use solana_vault_v.Requests.JuniorFloor.{next_account}

-- The token account of the fee recipient, if it gets anything, and the accounts that are left.
unfoldable pub fee_recipient_account :
    Vault → ℕ → List AccountInfo → Outcome (Option AccountInfo × List AccountInfo)
fee_recipient_account v fee remaining =
    if ltb 0 fee
    then (do
      (info, rest) ← next_account remaining missing_fee_recipient
      validate_token_account_owner info v.fee_recipient
      ok (some info, rest))
    else ok (none, remaining)

module _ (addresses : Addresses) where
  unfoldable pub is_protocol_fee_config_account : AccountInfo → Bool
  is_protocol_fee_config_account info =
      info.key == addresses.protocol_fee_config && info.owner == addresses.vault_program

  unfoldable pub protocol_fee_recipient_from_config : AccountInfo → Outcome Pubkey
  protocol_fee_recipient_from_config info = do
    require_keys_eq info.key addresses.protocol_fee_config invalid_vault
    config ← ok_or info.as_protocol_fee_config account_not_deserialized
    require (config.bump == addresses.protocol_fee_config_bump) invalid_vault
    require (not (config.protocol_fee_recipient == default_pubkey)) invalid_fee_recipient
    ok config.protocol_fee_recipient

  -- The recipient, and whether the account offered was the program's fee configuration.
  unfoldable pub resolve_protocol_fee_recipient :
      Vault → Option AccountInfo → Outcome (Pubkey × Bool)
  resolve_protocol_fee_recipient v none = ok (v.protocol_fee_recipient, false)
  resolve_protocol_fee_recipient v (some info) =
      if is_protocol_fee_config_account info
      then (do recipient ← protocol_fee_recipient_from_config info; ok (recipient, true))
      else ok (v.protocol_fee_recipient, false)

  abbrev drop_first : List AccountInfo → List AccountInfo
  drop_first [] = []
  drop_first (_ ∷ rest) = rest

  -- The token account of the protocol, if it gets anything.
  unfoldable pub protocol_fee_account : Vault → ℕ → List AccountInfo → Outcome (Option AccountInfo)
  protocol_fee_account v fee remaining =
      if ltb 0 fee
      then (do
        (recipient, consumed) ← resolve_protocol_fee_recipient v (first remaining)
        (info, _) ←
            next_account (if consumed then drop_first remaining else remaining)
              missing_fee_recipient
        validate_token_account_owner info recipient
        ok (some info))
      else ok none

module _ (T : TokenProgram) where
  -- A transfer to a fee account, where there is one.
  unfoldable pub pay_fee : T.Tokens → Pubkey → Option AccountInfo → ℕ → Outcome T.Tokens
  pay_fee t from none fee = ok t
  pay_fee t from (some info) fee = transfer_checked T t from info.key fee
