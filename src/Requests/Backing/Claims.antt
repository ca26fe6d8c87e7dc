-- ===== src/Requests/Backing/Claims.antt =====
-- The books under `claim`.
use solana_vault_v.Base.{ℕ, Option, ok, refl, ◌≡◌, ◌≢◌, none, some, arith}
use solana_vault_v.State.{
  Pubkey, Vault, VaultAsset, RequestType, deposit, redeem, claimable, assert_matches,
  assert_pending_vault,
}
use solana_vault_v.Runtime.{Addresses}
use solana_vault_v.Runtime.Token.{TokenProgram}
use solana_vault_v.Requests.World.{World, RequestAccounts, check_pending_vault}
use solana_vault_v.Requests.Claim.{claim, claim_deposit, claim_redeem, pay_out}
use solana_vault_v.Requests.Backing.{KeepsBooks, DistinctEscrow, transfer-covers, mint_to-covers}
use solana_vault_v.Requests.Backing.Refunds.{check_mints-eq_ok}

-- The escrow account that a claim is paid from is the vault's own exactly for the primary asset.
pub check_pending_vault-eq_ok :
    (v : Vault) (a : Option VaultAsset) (vault_key m e : Pubkey) {u : Unit {0}}
    → check_pending_vault v a vault_key m e ≡ ok u
    → ((x : VaultAsset) → a ≡ some x → x.pending_vault ≢ v.pending_vault)
    → (v.asset_mint ≡ m → e ≡ v.pending_vault) × (v.asset_mint ≢ m → e ≢ v.pending_vault)
unfolding check_pending_vault assert_matches assert_pending_vault
check_pending_vault-eq_ok v none vault_key m e h distinct = ground arith
check_pending_vault-eq_ok v (some x) vault_key m e h distinct = ground (arith, distinct x)

module _ (addresses : Addresses) (T : TokenProgram) (accounts : RequestAccounts) where
  open accounts use {asset_mint}

  pay_out-KeepsBooks :
      (t : RequestType) (w : World T) {w' : World T}
      → w.request.request_type ≡ t
      → pay_out addresses T accounts t w ≡ ok w'
      → DistinctEscrow T w
      → w.request.request_state ≡ claimable
      → w.request.asset_mint_address ≡ asset_mint.key
      → KeepsBooks T w w' (some w.request) none
  unfolding claim_deposit claim_redeem
  pay_out-KeepsBooks deposit w {w'} t h distinct state mint = record {
    same_escrow = ground arith;
    same_asset = ground arith;
    backed = grind (
      arith,
      λ (x y : T.Tokens) (m to : Pubkey) (n : ℕ). mint_to-covers T x y m to w.vault.pending_vault n,
    );
    reserves = ground arith;
    counts = ground arith;
  }
  pay_out-KeepsBooks redeem w {w'} t h distinct state mint = record {
    same_escrow = ground arith;
    same_asset = ground arith;
    backed = grind (
      arith,
      λ (e : Pubkey) (u : Unit {0})
            (g : check_pending_vault w.vault w.vault_asset accounts.vault_key asset_mint.key e
              ≡ ok u).
          check_pending_vault-eq_ok w.vault w.vault_asset accounts.vault_key asset_mint.key e g
            distinct,
      λ (x y : T.Tokens) (from to : Pubkey) (n : ℕ).
          transfer-covers T x y from to w.vault.pending_vault n,
    );
    reserves = ground arith;
    counts = ground arith;
  }

  -- A claim leaves the books balanced: assets that it pays out were owed to the request.
  pub claim-KeepsBooks :
      (w : World T) {w' : World T}
      → claim addresses T accounts w ≡ ok w'
      → DistinctEscrow T w
      → KeepsBooks T w w' (some w.request) none
  unfolding claim
  claim-KeepsBooks w {w'} h distinct = grind (
    arith,
    check_mints-eq_ok,
    λ (a : pay_out addresses T accounts w.request.request_type w ≡ ok w').
        pay_out-KeepsBooks w.request.request_type w refl a distinct,
  )
