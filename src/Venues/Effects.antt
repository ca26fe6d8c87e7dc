-- ===== src/Venues/Effects.antt =====
-- What a deployment and a pull change.
use solana_vault_v.Base.{
  ℕ, ◌+◌, ◌≤◌, refl, some, checked_add, checked_sub, u64_max, ◌≡◌, ◌≢◌, ok, leb, sym, arith,
  >>=-eq-ok, Bool-cases, inl, inr,
}
use solana_vault_v.Error.{require, exact, insufficient_liquidity, insufficient_position_balance}
use solana_vault_v.State.{is_primary_asset, Pubkey, Vault, VaultAsset}
use solana_vault_v.Positions.{deploy, pull}
use solana_vault_v.Runtime.{Clock}
use solana_vault_v.Runtime.Token.{TokenProgram}
use solana_vault_v.Venues.Accounts.{VenueAccounts, VenueWorld}
use solana_vault_v.Venues.Moves.{
  check_move, count_primary, secondary_asset, count_secondary, exchange, deploy_primary,
  deploy_secondary, deploy_venue_position, pull_primary, pull_secondary, pull_venue_position,
  ledger_of, write_ledger,
}
use solana_vault_v.Venues.Transfers.{
  Moved, exchange-eq_ok, exchange-others, check_move-eq_ok, count_secondary-keeps,
  secondary_asset-eq_ok, count_primary-keeps,
}

module _ (T : TokenProgram) (clock : Clock) (accounts : VenueAccounts) where
  open accounts use {asset_mint, vault_token_account, position_token_account}

  module _ (from : Pubkey) (inflow outflow : ℕ) (w : VenueWorld T)
      (checked : check_move T clock accounts w ≡ ok tt) (n : ℕ) (t : T.Tokens) {w' : VenueWorld T}
      (amounts : n + outflow ≡ w.position.amount + inflow)
      (covers : T.balance w.tokens position_token_account + inflow
        ≤ T.balance t position_token_account + outflow)
      (others : (k : Pubkey) → k ≢ from → T.balance w.tokens k ≤ T.balance t k) where
    -- A move of the primary asset, by what it does to the vault, the amount and the tokens.
    primary-Moved :
        (v : Vault)
        → w.vault.asset_mint ≡ asset_mint
        → v.asset_mint ≡ w.vault.asset_mint
        → w' ≡ record w { vault = v; position = record (w.position) { amount = n }; tokens = t }
        → Moved T accounts from inflow outflow w w'
    primary-Moved v prime same result =
        let (mint, venue, token) = check_move-eq_ok T clock accounts w checked in
        rw result (record {
          same_mint = mint;
          same_venue = venue;
          same_token = token;
          amount = amounts;
          keeps_position = refl;
          keeps_primary = same;
          keeps_venue = refl;
          primary = λ e. refl;
          secondary = λ ne. absurd (ne (sym prime));
          total = refl;
          covers = covers;
          others = others;
        })

    -- A move of a secondary asset, by what it does to the asset, the amount and the tokens.
    secondary-Moved :
        (before after : VaultAsset)
        → w.vault.asset_mint ≢ asset_mint
        → w.vault_asset ≡ some before
        → after.deployed_balance + outflow ≡ before.deployed_balance + inflow
        → after.deployed_balance + after.idle_balance
          ≡ before.deployed_balance + before.idle_balance
        → w' ≡ record w {
          vault_asset = some after;
          position = record (w.position) { amount = n };
          tokens = t;
        }
        → Moved T accounts from inflow outflow w w'
    secondary-Moved before after other found deploys keeps result =
        let (mint, venue, token) = check_move-eq_ok T clock accounts w checked in
        rw result (record {
          same_mint = mint;
          same_venue = venue;
          same_token = token;
          amount = amounts;
          keeps_position = refl;
          keeps_primary = refl;
          keeps_venue = refl;
          primary = λ e. absurd (other (sym e));
          secondary = λ ne. rw found deploys;
          total = rw found keeps;
          covers = covers;
          others = others;
        })

  deploy_primary-Moved :
      (amount : ℕ) (w : VenueWorld T) {w' : VenueWorld T}
      → check_move T clock accounts w ≡ ok tt
      → w.vault.asset_mint ≡ asset_mint
      → deploy_primary T clock accounts amount w ≡ ok w'
      → Moved T accounts vault_token_account amount 0 w w'
  unfolding deploy_primary
  deploy_primary-Moved amount w {w'} checked prime h =
      let from = vault_token_account in
      let to = position_token_account in
      let (v, counted, h1) = >>=-eq-ok (count_primary T clock accounts w.vault amount) _ h in
      let (t, moved, h2) = >>=-eq-ok (exchange T clock accounts from to amount w.tokens) _ h1 in
      let (n, adds, h3) = >>=-eq-ok (exact (checked_add u64_max w.position.amount amount)) _ h2 in
      let (_, received, _) = exchange-eq_ok T clock accounts from to amount w.tokens moved in
      primary-Moved from amount 0 w checked n t (ground arith) (omega (arith, received))
        (λ k. exchange-others T clock accounts from to k amount w.tokens moved) v prime
        (count_primary-keeps T clock accounts w.vault amount counted) cc

  deploy_secondary-Moved :
      (amount : ℕ) (w : VenueWorld T) {w' : VenueWorld T}
      → check_move T clock accounts w ≡ ok tt
      → w.vault.asset_mint ≢ asset_mint
      → deploy_secondary T clock accounts amount w ≡ ok w'
      → Moved T accounts vault_token_account amount 0 w w'
  unfolding deploy_secondary deploy
  deploy_secondary-Moved amount w {w'} checked other h =
      let from = vault_token_account in
      let to = position_token_account in
      let (asset, found, h1) = >>=-eq-ok (secondary_asset T clock accounts w.vault_asset) _ h in
      let (_, _, h2) =
        >>=-eq-ok (require (leb amount asset.idle_balance) insufficient_liquidity) _ h1 in
      let (counted, count, h3) =
        >>=-eq-ok (count_secondary T clock accounts w.vault asset amount) _ h2 in
      let (ledger, ran, h4) = >>=-eq-ok (deploy (ledger_of w.position counted) amount) _ h3 in
      let (t, moved, h5) = >>=-eq-ok (exchange T clock accounts from to amount w.tokens) _ h4 in
      let (_, received, _) = exchange-eq_ok T clock accounts from to amount w.tokens moved in
      let (same_deployed, same_idle) =
        count_secondary-keeps T clock accounts w.vault asset amount count in
      secondary-Moved from amount 0 w checked ledger.position_amount t (ground arith)
        (omega (arith, received))
        (λ k. exchange-others T clock accounts from to k amount w.tokens moved) asset
        (write_ledger counted ledger) other
        (secondary_asset-eq_ok T clock accounts w.vault_asset found) (ground arith) (ground arith)
        cc

  pull_primary-Moved :
      (amount : ℕ) (w : VenueWorld T) {w' : VenueWorld T}
      → check_move T clock accounts w ≡ ok tt
      → w.vault.asset_mint ≡ asset_mint
      → pull_primary T clock accounts amount w ≡ ok w'
      → Moved T accounts position_token_account 0 amount w w'
  unfolding pull_primary
  pull_primary-Moved amount w {w'} checked prime h =
      let from = position_token_account in
      let to = vault_token_account in
      let (v, counted, h1) = >>=-eq-ok (count_primary T clock accounts w.vault amount) _ h in
      let (t, moved, h2) = >>=-eq-ok (exchange T clock accounts from to amount w.tokens) _ h1 in
      let (n, left, h3) = >>=-eq-ok (exact (checked_sub w.position.amount amount)) _ h2 in
      let (sent, _, _) = exchange-eq_ok T clock accounts from to amount w.tokens moved in
      primary-Moved from 0 amount w checked n t (ground arith) (omega (arith, sent))
        (λ k. exchange-others T clock accounts from to k amount w.tokens moved) v prime
        (count_primary-keeps T clock accounts w.vault amount counted) cc

  pull_secondary-Moved :
      (amount : ℕ) (w : VenueWorld T) {w' : VenueWorld T}
      → check_move T clock accounts w ≡ ok tt
      → w.vault.asset_mint ≢ asset_mint
      → pull_secondary T clock accounts amount w ≡ ok w'
      → Moved T accounts position_token_account 0 amount w w'
  unfolding pull_secondary pull
  pull_secondary-Moved amount w {w'} checked other h =
      let from = position_token_account in
      let to = vault_token_account in
      let (asset, found, h1) = >>=-eq-ok (secondary_asset T clock accounts w.vault_asset) _ h in
      let (_, _, h2) =
        >>=-eq-ok (require (leb amount asset.deployed_balance) insufficient_position_balance) _
          h1 in
      let (counted, count, h3) =
        >>=-eq-ok (count_secondary T clock accounts w.vault asset amount) _ h2 in
      let (ledger, ran, h4) = >>=-eq-ok (pull (ledger_of w.position counted) amount) _ h3 in
      let (t, moved, h5) = >>=-eq-ok (exchange T clock accounts from to amount w.tokens) _ h4 in
      let (sent, _, _) = exchange-eq_ok T clock accounts from to amount w.tokens moved in
      let (same_deployed, same_idle) =
        count_secondary-keeps T clock accounts w.vault asset amount count in
      secondary-Moved from 0 amount w checked ledger.position_amount t (ground arith)
        (omega (arith, sent))
        (λ k. exchange-others T clock accounts from to k amount w.tokens moved) asset
        (write_ledger counted ledger) other
        (secondary_asset-eq_ok T clock accounts w.vault_asset found) (ground arith) (ground arith)
        cc

  pub deploy_venue_position-Moved :
      (amount : ℕ) (w : VenueWorld T) {w' : VenueWorld T}
      → deploy_venue_position T clock accounts amount w ≡ ok w'
      → Moved T accounts vault_token_account amount 0 w w'
  unfolding deploy_venue_position
  deploy_venue_position-Moved amount w h =
      let (_, checked, h1) = >>=-eq-ok (check_move T clock accounts w) _ h in
      elim (Bool-cases (is_primary_asset w.vault asset_mint)) [
        | inl e ↦ deploy_primary-Moved amount w checked (ground arith) (rw e at h1)
        | inr e ↦ deploy_secondary-Moved amount w checked (ground arith) (rw e at h1)
      ]

  pub pull_venue_position-Moved :
      (amount : ℕ) (w : VenueWorld T) {w' : VenueWorld T}
      → pull_venue_position T clock accounts amount w ≡ ok w'
      → Moved T accounts position_token_account 0 amount w w'
  unfolding pull_venue_position
  pull_venue_position-Moved amount w h =
      let (_, checked, h1) = >>=-eq-ok (check_move T clock accounts w) _ h in
      let (_, _, h2) =
        >>=-eq-ok (require (leb amount w.position.amount) insufficient_position_balance) _ h1 in
      elim (Bool-cases (is_primary_asset w.vault asset_mint)) [
        | inl e ↦ pull_primary-Moved amount w checked (ground arith) (rw e at h2)
        | inr e ↦ pull_secondary-Moved amount w checked (ground arith) (rw e at h2)
      ]
