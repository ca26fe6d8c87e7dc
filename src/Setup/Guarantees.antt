-- ===== src/Setup/Guarantees.antt =====
-- What a successful `initialize_tranches` leaves.
use solana_vault_v.Base.{
  true, is_ok, ◌≡◌, ◌≢◌, ◌||◌, some, ok, ◌>>◌, ◌==◌, [], ◌∷◌, sym, ap, ◌∙◌, arith, >>=-eq-ok,
  Bool-cases, inl, inr, ok_or,
}
use solana_vault_v.Error.{token_program_refused}
use solana_vault_v.State.{Pubkey, Vault, TrancheConfig}
use solana_vault_v.Runtime.{Addresses, AccountInfo}
use solana_vault_v.Tranche.{validate_request_share_mint, load_tranche_config, select_tranche_nav}
use solana_vault_v.Setup.Mints.{MintAuthorities}
use solana_vault_v.Setup.Tranches.{
  InitializeTranchesArgs, InitializeTranchesAccounts, check_tranche_mints, require_mint_owned_by,
  take_tranche_mints, initialize_tranches, check_tranche_args,
}

module _ (addresses : Addresses) (M : MintAuthorities) where
  -- The mint that the vault owns stays its own when it takes the other one.
  take-eq_ok :
      (mints : M.Mints) (owned taken current vault_key : Pubkey) {mints' : M.Mints}
      → owned ≢ taken
      → (require_mint_owned_by addresses M mints owned vault_key
          >> ok_or (M.set_authority mints taken current vault_key) token_program_refused)
        ≡ ok mints'
      → (M.authority mints' owned ≡ some vault_key) × (M.authority mints' taken ≡ some vault_key)
  unfolding require_mint_owned_by
  take-eq_ok mints owned taken current vault_key {mints'} ne h =
      let (_, owner, h1) =
        >>=-eq-ok (require_mint_owned_by addresses M mints owned vault_key) _ h in
      (
        ground (arith, owner, h1, M.set_authority-other mints mints' taken current vault_key owned),
        ground (arith, h1, M.set_authority-new mints mints' taken current vault_key),
      )

  take_tranche_mints-eq_ok :
      (v : Vault) (accounts : InitializeTranchesAccounts) (mints : M.Mints) {mints' : M.Mints}
      → accounts.senior_share_mint.key ≢ accounts.junior_share_mint.key
      → take_tranche_mints addresses M v accounts mints ≡ ok mints'
      → (M.authority mints' accounts.senior_share_mint.key ≡ some accounts.vault_key)
        × (M.authority mints' accounts.junior_share_mint.key ≡ some accounts.vault_key)
  unfolding take_tranche_mints
  take_tranche_mints-eq_ok v accounts mints ne h =
      elim (Bool-cases (accounts.senior_share_mint.key == v.share_mint)) [
        | inl e ↦
            take-eq_ok mints (accounts.senior_share_mint.key) (accounts.junior_share_mint.key)
              accounts.mint_authority accounts.vault_key ne (rw e at h)
        | inr e ↦
            let (a, b) =
              take-eq_ok mints (accounts.junior_share_mint.key) (accounts.senior_share_mint.key)
                accounts.mint_authority accounts.vault_key (λ e. ne (sym e)) (rw e at h) in
            (b, a)
      ]

  check_tranche_mints-eq_ok :
      (v : Vault) (accounts : InitializeTranchesAccounts)
      → check_tranche_mints addresses v accounts ≡ ok tt
      → (accounts.senior_share_mint.key ≢ accounts.junior_share_mint.key)
        × (accounts.senior_share_mint.key ≢ v.asset_mint)
        × (accounts.junior_share_mint.key ≢ v.asset_mint)
        × ((accounts.senior_share_mint.key == v.share_mint
              || accounts.junior_share_mint.key == v.share_mint)
            ≡ true)
  unfolding check_tranche_mints
  check_tranche_mints-eq_ok v accounts h = (ground arith, ground arith, ground arith, ground arith)

  accepts-config :
      (v : Vault) (vault_key : Pubkey) (c : TrancheConfig) (info : AccountInfo) (mint : Pubkey)
      → c.vault ≡ vault_key
      → v.tranche_config ≡ some (addresses.tranche_config vault_key)
      → info.key ≡ addresses.tranche_config vault_key
      → info.as_tranche_config ≡ some c
      → is_ok (validate_request_share_mint addresses v vault_key mint (info ∷ []))
        ≡ (mint == c.senior_share_mint || mint == c.junior_share_mint)
  unfolding validate_request_share_mint load_tranche_config select_tranche_nav
  accepts-config v vault_key c info mint of_vault configured at_key holds =
      rw configured (ground (arith, of_vault, at_key, holds))

  -- After a successful `initialize_tranches` (the configuration's address being the derived one):
  -- the vault may mint both share mints, which differ from each other and from the asset, and one
  -- of them is the vault's own; of the vault only the configuration's address has changed; and a
  -- request that passes the configuration is accepted with exactly these two mints.
  pub initialize_tranches-eq_ok :
      (accounts : InitializeTranchesAccounts) (args : InitializeTranchesArgs) (v : Vault)
      (mints : M.Mints) (info : AccountInfo) (mint : Pubkey) {v' : Vault} {c : TrancheConfig}
      {mints' : M.Mints}
      → initialize_tranches addresses M accounts args v mints ≡ ok (v', c, mints')
      → accounts.tranche_config_key ≡ addresses.tranche_config accounts.vault_key
      → info.key ≡ accounts.tranche_config_key
      → info.as_tranche_config ≡ some c
      → (M.authority mints' c.senior_share_mint ≡ some accounts.vault_key)
        × (M.authority mints' c.junior_share_mint ≡ some accounts.vault_key)
        × (c.senior_share_mint ≢ c.junior_share_mint)
        × (c.senior_share_mint ≢ v.asset_mint)
        × (c.junior_share_mint ≢ v.asset_mint)
        × ((c.senior_share_mint == v.share_mint || c.junior_share_mint == v.share_mint) ≡ true)
        × (v' ≡ record v { tranche_config = some accounts.tranche_config_key })
        × (is_ok (validate_request_share_mint addresses v' accounts.vault_key mint (info ∷ []))
            ≡ (mint == c.senior_share_mint || mint == c.junior_share_mint))
  unfolding initialize_tranches
  initialize_tranches-eq_ok accounts args v mints info mint {v'} {c} {mints'} h derived at_key
        holds =
      let (_, _, h1) = >>=-eq-ok (check_tranche_args accounts.authority v args) _ h in
      let (_, checked, h2) = >>=-eq-ok (check_tranche_mints addresses v accounts) _ h1 in
      let (m, taken, h3) = >>=-eq-ok (take_tranche_mints addresses M v accounts mints) _ h2 in
      let (distinct, senior, junior, own) = check_tranche_mints-eq_ok v accounts checked in
      let (a, b) = take_tranche_mints-eq_ok v accounts mints distinct taken in
      let of_vault : c.vault ≡ accounts.vault_key = ground arith in
      let configured : v'.tranche_config ≡ some accounts.tranche_config_key = ground arith in
      (
        ground arith,
        ground arith,
        ground arith,
        ground arith,
        ground arith,
        ground arith,
        ground arith,
        accepts-config v' accounts.vault_key c info mint of_vault (configured ∙ ap some derived)
            (at_key ∙ derived) holds,
      )
