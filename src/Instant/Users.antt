-- ===== src/Instant/Users.antt =====
-- The account that counts a user's instant settlements (`load_or_init_instant_settlement_user`,
-- programs/async_vault_v2/src/utils.rs, and `InstantSettlementUser::ensure_initialized`,
-- programs/async_vault_v2/src/state/async_vault_v2.rs).
use solana_vault_v.Base.{
  ℕ, Bool, false, ◌&&◌, Option, some, ok, ◌>>=◌, ◌>>◌, ◌==◌, if◌then◌else◌, ok_or, ensure,
}
use solana_vault_v.Error.{
  Outcome, require, account_not_deserialized, constraint_violated, invalid_vault,
  unauthorized_signer, missing_required_account,
}
use solana_vault_v.State.{Pubkey, default_pubkey, InstantSettlementUser, require_keys_eq}
use solana_vault_v.Runtime.{Addresses}

-- The account as the handler gets it. Whether the system program can create it (the payer's lamports)
-- is part of the input.
pub record UserAccount : Type 0 where
  pub key : Pubkey
  pub owner : Pubkey
  pub is_writable : Bool
  pub data_is_empty : Bool
  pub can_be_created : Bool
  pub as_user : Option InstantSettlementUser

unfoldable pub ensure_initialized :
    InstantSettlementUser → Pubkey → Pubkey → ℕ → Outcome InstantSettlementUser
ensure_initialized account vault user bump =
    if account.vault == default_pubkey && account.user == default_pubkey
    then ok (record account { vault = vault; user = user; bump = bump })
    else (do
      require_keys_eq account.vault vault invalid_vault
      require_keys_eq account.user user unauthorized_signer
      ok account)

-- The account that `create_account` leaves: all zeros.
abbrev pub zeroed_user : InstantSettlementUser
zeroed_user = record {
  vault = default_pubkey;
  user = default_pubkey;
  deposit_window_start_slot = 0;
  deposit_window_amount = 0;
  redeem_window_start_slot = 0;
  redeem_window_amount = 0;
  bump = 0;
}

module _ (addresses : Addresses) where
  unfoldable pub load_or_init_instant_settlement_user :
      UserAccount → Pubkey → Pubkey → ℕ → Outcome InstantSettlementUser
  load_or_init_instant_settlement_user info vault user bump = do
    require info.is_writable missing_required_account
    require_keys_eq info.key (addresses.instant_user vault user).0 invalid_vault
    require (bump == (addresses.instant_user vault user).1) invalid_vault
    if info.data_is_empty
        then (do
          require_keys_eq info.owner addresses.system_program invalid_vault
          ensure info.can_be_created constraint_violated
          ensure_initialized zeroed_user vault user bump)
        else (do
          ensure (info.owner == addresses.vault_program) account_not_deserialized
          account ← ok_or info.as_user account_not_deserialized
          ensure_initialized account vault user bump)

  -- The account after it was written back: the program's own.
  abbrev pub written : UserAccount → InstantSettlementUser → UserAccount
  written info account = record info {
    owner = addresses.vault_program;
    data_is_empty = false;
    as_user = some account;
  }
