-- ===== src/Venues/Transfers.antt =====
-- What a deployment and a pull have in common: the transfer, the checks and the rolling limits.
use solana_vault_v.Base.{ℕ, ◌+◌, ◌≤◌, ◌≡◌, ◌≢◌, Option, none, some, ok, ◌==◌, arith, >>=-eq-ok}
use solana_vault_v.Error.{require, invalid_vault}
use solana_vault_v.State.{Pubkey, Vault, VaultAsset}
use solana_vault_v.Limits.{consume_manager_rolling_limit, consume_asset_rolling_limit}
use solana_vault_v.Runtime.{Clock}
use solana_vault_v.Runtime.Token.{TokenProgram}
use solana_vault_v.Requests.Backing.{transfer-covers}
use solana_vault_v.Venues.Accounts.{VenueAccounts, VenueWorld}
use solana_vault_v.Venues.Moves.{
  check_move, count_primary, secondary_asset, count_secondary, exchange,
}

-- What is deployed of an asset, by its account.
abbrev pub deployed : Option VaultAsset → ℕ
deployed none = 0
deployed (some a) = a.deployed_balance

abbrev pub idle : Option VaultAsset → ℕ
idle none = 0
idle (some a) = a.idle_balance

-- `w` became `w'` by moving `inflow` into the position or `outflow` out of it, from an account.
pub record Moved (T : TokenProgram) (accounts : VenueAccounts) (from : Pubkey) (inflow outflow : ℕ)
    (w w' : VenueWorld T) : Type 0 where
  pub same_mint : w.position.asset_mint ≡ accounts.asset_mint
  pub same_venue : w.position.vault_venue ≡ accounts.vault_venue_key
  pub same_token : w.position.token_account ≡ accounts.position_token_account
  pub amount : w'.position.amount + outflow ≡ w.position.amount + inflow
  pub keeps_position : w'.position ≡ record (w.position) { amount = w'.position.amount }
  pub keeps_primary : w'.vault.asset_mint ≡ w.vault.asset_mint
  pub keeps_venue : w'.vault_venue ≡ w.vault_venue
  pub primary : accounts.asset_mint ≡ w.vault.asset_mint → w'.vault_asset ≡ w.vault_asset
  pub secondary :
      accounts.asset_mint ≢ w.vault.asset_mint
      → deployed w'.vault_asset + outflow ≡ deployed w.vault_asset + inflow
  pub total :
      deployed w'.vault_asset + idle w'.vault_asset ≡ deployed w.vault_asset + idle w.vault_asset
  pub covers :
      T.balance w.tokens accounts.position_token_account + inflow
      ≤ T.balance w'.tokens accounts.position_token_account + outflow
  pub others : (k : Pubkey) → k ≢ from → T.balance w.tokens k ≤ T.balance w'.tokens k

module _ (T : TokenProgram) (clock : Clock) (accounts : VenueAccounts) where
  open accounts use {asset_mint, vault_token_account, position_token_account}

  pub exchange-eq_ok :
      (from to : Pubkey) (amount : ℕ) (t : T.Tokens) {t' : T.Tokens}
      → exchange T clock accounts from to amount t ≡ ok t'
      → (T.balance t' from + amount ≡ T.balance t from)
        × (T.balance t' to ≡ T.balance t to + amount)
        × (T.transfer t from to amount ≡ some t')
  unfolding exchange
  exchange-eq_ok from to amount t h = (ground arith, ground arith, ground arith)

  pub exchange-others :
      (from to k : Pubkey) (amount : ℕ) (t : T.Tokens) {t' : T.Tokens}
      → exchange T clock accounts from to amount t ≡ ok t'
      → k ≢ from
      → T.balance t k ≤ T.balance t' k
  exchange-others from to k amount t {t'} h other =
      let (_, _, moved) = exchange-eq_ok from to amount t h in
      ground (arith, transfer-covers T t t' from to k amount moved)

  pub check_move-eq_ok :
      (w : VenueWorld T)
      → check_move T clock accounts w ≡ ok tt
      → (w.position.asset_mint ≡ asset_mint)
        × (w.position.vault_venue ≡ accounts.vault_venue_key)
        × (w.position.token_account ≡ position_token_account)
  unfolding check_move
  check_move-eq_ok w h = (ground arith, ground arith, ground arith)

  pub consume_manager_rolling_limit-primary :
      (v : Vault) (amount slot : ℕ) {v' : Vault}
      → consume_manager_rolling_limit v amount slot ≡ ok v'
      → v'.asset_mint ≡ v.asset_mint
  unfolding consume_manager_rolling_limit
  consume_manager_rolling_limit-primary v amount slot h = ground arith

  pub count_secondary-keeps :
      (v : Vault) (asset : VaultAsset) (amount : ℕ) {asset' : VaultAsset}
      → count_secondary T clock accounts v asset amount ≡ ok asset'
      → (asset'.deployed_balance ≡ asset.deployed_balance)
        × (asset'.idle_balance ≡ asset.idle_balance)
  unfolding count_secondary consume_asset_rolling_limit
  count_secondary-keeps v asset amount h = (ground arith, ground arith)

  pub secondary_asset-eq_ok :
      (o : Option VaultAsset) {asset : VaultAsset}
      → secondary_asset T clock accounts o ≡ ok asset
      → o ≡ some asset
  unfolding secondary_asset
  secondary_asset-eq_ok o h = ground arith

  pub count_primary-keeps :
      (v : Vault) (amount : ℕ) {v' : Vault}
      → count_primary T clock accounts v amount ≡ ok v'
      → v'.asset_mint ≡ v.asset_mint
  unfolding count_primary
  count_primary-keeps v amount h =
      let (_, _, h1) =
        >>=-eq-ok (require (v.vault_token_account == vault_token_account) invalid_vault) _ h in
      consume_manager_rolling_limit-primary v amount clock.slot h1
