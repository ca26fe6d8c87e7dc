-- ===== src/Nav/Update.antt =====
-- The handler of `update_nav`.
use solana_vault_v.Base.{ℕ, ok, List, ◌>>=◌, ◌>>◌, u64_max, checked_add}
use solana_vault_v.Error.{Outcome, exact}
use solana_vault_v.State.{Pubkey, Vault, assert_curator_or_fulfiller}
use solana_vault_v.Runtime.{Addresses, Clock, AccountInfo}
use solana_vault_v.Runtime.Token.{TokenProgram}
use solana_vault_v.Tranche.{skip_accounts}
use solana_vault_v.Nav.Guards.{validate_nav_update}
use solana_vault_v.Nav.Waterfall.{maybe_apply_tranche_waterfall}
use solana_vault_v.Nav.PerformanceFee.{maybe_crystallize_performance_fee}

-- The vault, the tokens, and the accounts that are not used for the fee.
pub record NavWorld (T : TokenProgram) : Type 0 where
  pub vault : Vault
  pub tokens : T.Tokens
  pub remaining : List AccountInfo

-- The last four assignments.
unfoldable pub publish_nav : Vault → ℕ → Clock → Outcome Vault
publish_nav v updated_nav clock = do
  version ← exact (checked_add u64_max v.nav_version 1)
  ok (record v {
    nav = updated_nav;
    nav_version = version;
    last_nav_update_slot = clock.slot;
    last_nav_update_timestamp = clock.unix_timestamp;
  })

module _ (addresses : Addresses) (T : TokenProgram) (clock : Clock) where
  unfoldable pub update_nav : Pubkey → Pubkey → ℕ → NavWorld T → Outcome (NavWorld T)
  update_nav authority vault_key updated_nav w = do
    assert_curator_or_fulfiller w.vault authority
    validate_nav_update w.vault updated_nav clock.unix_timestamp
    (v, tokens', fee_accounts_used) ←
        maybe_crystallize_performance_fee addresses T w.vault updated_nav clock.unix_timestamp
          w.remaining w.tokens
    remaining' ←
        maybe_apply_tranche_waterfall addresses v vault_key updated_nav clock
          (skip_accounts fee_accounts_used w.remaining)
    v' ← publish_nav v updated_nav clock
    ok (record { vault = v'; tokens = tokens'; remaining = remaining' })
