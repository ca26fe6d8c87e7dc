-- ===== src/Setup/Mints.antt =====
-- Who may mint shares. The token program holds the authority of each mint; the source calls its
-- `set_authority` and reads `mint_authority`.
use solana_vault_v.Base.{◌≡◌, ◌≢◌, Option, some}
use solana_vault_v.State.{Pubkey}

pub record MintAuthorities : Type 1 where
  pub Mints : Type 0
  pub authority : Mints → Pubkey → Option Pubkey
  -- `set_authority(MintTokens)` of a mint, by its present authority, to a new one
  pub set_authority : Mints → Pubkey → Pubkey → Pubkey → Option Mints
  pub set_authority-new :
      (s s' : Mints) (mint current new : Pubkey)
      → set_authority s mint current new ≡ some s'
      → authority s' mint ≡ some new
  pub set_authority-other :
      (s s' : Mints) (mint current new k : Pubkey)
      → set_authority s mint current new ≡ some s'
      → k ≢ mint
      → authority s' k ≡ authority s k
