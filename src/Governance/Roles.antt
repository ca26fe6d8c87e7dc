-- ===== src/Governance/Roles.antt =====
-- The breaker's pause, and the hand-over of the vault to a new authority.
use solana_vault_v.Base.{true, none, some, ok, ◌>>=◌, ◌>>◌, ◌==◌, if◌then◌else◌}
use solana_vault_v.Error.{Outcome, or_fail, no_pending_authority, unauthorized_signer}
use solana_vault_v.State.{Pubkey, Vault, assert_breaker, assert_curator, require_keys_eq}

unfoldable pub pause_vault : Pubkey → Vault → Outcome Vault
pause_vault breaker v = do assert_breaker v breaker; ok (record v { paused = true })

unfoldable pub invite_new_authority : Pubkey → Pubkey → Vault → Outcome Vault
invite_new_authority authority new_authority v = do
  assert_curator v authority
  ok (record v { pending_authority = some new_authority })

-- A role that the previous authority holds goes to the new one.
abbrev handed_over : Pubkey → Pubkey → Pubkey → Pubkey
handed_over previous_authority pending role = if role == previous_authority then pending else role

unfoldable pub accept_authority_invitation : Pubkey → Vault → Outcome Vault
accept_authority_invitation new_authority v = do
  pending ← or_fail v.pending_authority no_pending_authority
  require_keys_eq new_authority pending unauthorized_signer
  ok (record v {
    authority = pending;
    curator = pending;
    manager = handed_over v.authority pending v.manager;
    hot_manager = handed_over v.authority pending v.hot_manager;
    fulfiller = handed_over v.authority pending v.fulfiller;
    breaker = handed_over v.authority pending v.breaker;
    pending_authority = none;
  })
