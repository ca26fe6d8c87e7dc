-- ===== src/Governance/Succession.antt =====
-- What is left to the previous authority.
use solana_vault_v.Base.{◌≡◌, ◌≢◌, none, ok, arith}
use solana_vault_v.State.{Pubkey, Vault}
use solana_vault_v.Governance.Roles.{invite_new_authority, accept_authority_invitation}

-- After the curator invites a key other than the vault's authority and a signer accepts, the
-- signer is that key, the new authority and curator, and the previous authority holds none of the
-- roles of manager, hot manager, fulfiller and breaker; no invitation is left.
pub accept_authority_invitation-invite_new_authority :
    (curator invited signer : Pubkey) (v : Vault) {v1 : Vault} {v' : Vault}
    → invite_new_authority curator invited v ≡ ok v1
    → accept_authority_invitation signer v1 ≡ ok v'
    → v.authority ≢ invited
    → (signer ≡ invited)
      × (v'.authority ≡ invited)
      × (v'.curator ≡ invited)
      × (v'.manager ≢ v.authority)
      × (v'.hot_manager ≢ v.authority)
      × (v'.fulfiller ≢ v.authority)
      × (v'.breaker ≢ v.authority)
      × (v'.pending_authority ≡ none)
unfolding invite_new_authority accept_authority_invitation
accept_authority_invitation-invite_new_authority curator invited signer v {v1} {v'} h k other =
    ground arith
