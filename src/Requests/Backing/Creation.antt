-- ===== src/Requests/Backing/Creation.antt =====
-- The books under the two create instructions.
use solana_vault_v.Base.{ℕ, Option, ok, ◌+◌, ◌≡◌, ◌≢◌, none, some, arith, ◌==◌, if◌then◌else◌}
use solana_vault_v.State.{Pubkey, Vault, VaultAsset}
use solana_vault_v.Runtime.{Addresses, Clock}
use solana_vault_v.Runtime.Token.{TokenProgram}
use solana_vault_v.Requests.World.{World, RequestAccounts, open_pending_request}
use solana_vault_v.Requests.Create.{
  RequestArgs, create_deposit_request, create_redeem_request, reserve_pending_deposit,
  check_deposit_target,
}
use solana_vault_v.Requests.Backing.{KeepsBooks, transfer-credits, burn-covers}

pub open_pending_request-eq_ok :
    (v : Vault) {v' : Vault}
    → open_pending_request v ≡ ok v'
    → (v'.pending_vault ≡ v.pending_vault)
      × (v'.asset_mint ≡ v.asset_mint)
      × (v'.pending_async_requests ≡ v.pending_async_requests + 1)
      × (v'.pending_deposit_amount ≡ v.pending_deposit_amount)
unfolding open_pending_request
open_pending_request-eq_ok v h = ground arith

pub reserve_pending_deposit-eq_ok :
    (v : Vault) (a : Option VaultAsset) (m : Pubkey) (n : ℕ) {p : Vault × Option VaultAsset}
    → reserve_pending_deposit v a m n ≡ ok p
    → ((p.0).pending_vault ≡ v.pending_vault)
      × ((p.0).asset_mint ≡ v.asset_mint)
      × ((p.0).pending_async_requests ≡ v.pending_async_requests)
      × ((p.0).pending_deposit_amount
          ≡ v.pending_deposit_amount + (if m == v.asset_mint then n else 0))
unfolding reserve_pending_deposit
reserve_pending_deposit-eq_ok v a m n h = ground arith

-- A deposit in the primary asset goes to the vault's own escrow account.
check_deposit_target-eq_ok :
    (v : Vault) (a : Option VaultAsset) (vault_key m e : Pubkey) (n : ℕ) {u : Unit {0}}
    → check_deposit_target v a vault_key m e n ≡ ok u
    → v.asset_mint ≡ m
    → e ≡ v.pending_vault
unfolding check_deposit_target
check_deposit_target-eq_ok v a vault_key m e n h p = ground arith

module _ (addresses : Addresses) (T : TokenProgram) (clock : Clock) (accounts : RequestAccounts)
    (args : RequestArgs) where
  -- A new deposit request keeps the books balanced, when it is not paid from the escrow account
  -- itself: its assets are in escrow, reserved, and the request is counted.
  pub create_deposit_request-KeepsBooks :
      (w : World T) {w' : World T}
      → create_deposit_request addresses T clock accounts args w ≡ ok w'
      → accounts.user_asset_account ≢ some w.vault.pending_vault
      → KeepsBooks T w w' none (some w'.request)
  unfolding create_deposit_request
  create_deposit_request-KeepsBooks w {w'} h other = record {
    same_escrow = grind (arith, open_pending_request-eq_ok, reserve_pending_deposit-eq_ok);
    same_asset = grind (arith, open_pending_request-eq_ok, reserve_pending_deposit-eq_ok);
    backed = grind (
      arith,
      check_deposit_target-eq_ok,
      open_pending_request-eq_ok,
      λ (x y : T.Tokens) (from to : Pubkey) (n : ℕ).
          transfer-credits T x y from to w.vault.pending_vault n,
    );
    reserves = grind (arith, open_pending_request-eq_ok, reserve_pending_deposit-eq_ok);
    counts = grind (arith, open_pending_request-eq_ok, reserve_pending_deposit-eq_ok);
  }

  -- A new redeem request keeps the books balanced, when its shares are not burnt from the escrow
  -- account itself.
  pub create_redeem_request-KeepsBooks :
      (w : World T) {w' : World T}
      → create_redeem_request addresses T clock accounts args w ≡ ok w'
      → accounts.user_share_account ≢ some w.vault.pending_vault
      → KeepsBooks T w w' none (some w'.request)
  unfolding create_redeem_request
  create_redeem_request-KeepsBooks w {w'} h other = record {
    same_escrow = grind (arith, open_pending_request-eq_ok);
    same_asset = grind (arith, open_pending_request-eq_ok);
    backed = grind (
      arith,
      open_pending_request-eq_ok,
      λ (x y : T.Tokens) (m from : Pubkey) (n : ℕ).
          burn-covers T x y m from w.vault.pending_vault n,
    );
    reserves = grind (arith, open_pending_request-eq_ok);
    counts = grind (arith, open_pending_request-eq_ok);
  }
