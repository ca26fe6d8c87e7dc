-- ===== src/Requests/Backing/Refunds.antt =====
-- The books under `cancel_request` and `reject_request`.
use solana_vault_v.Base.{
  List, ℕ, ◌+◌, ◌≡◌, ◌≢◌, ◌≤◌, none, some, ok, arith, refl, Option, if◌then◌else◌, ◌==◌,
}
use solana_vault_v.State.{
  Pubkey, Vault, VaultAsset, Request, RequestType, deposit, redeem, pending, assert_matches,
  assert_pending_vault,
}
use solana_vault_v.Extensions.{Extensions}
use solana_vault_v.Runtime.{AccountInfo, Addresses}
use solana_vault_v.Runtime.Token.{TokenProgram}
use solana_vault_v.Requests.World.{
  World, RequestAccounts, release_pending_deposit, refund_escrow, close_pending_request,
}
use solana_vault_v.Requests.Refund.{
  ExpectedRequest, refund_deposit, refund_redeem, refund, cancel_request, reject_request,
  count_down, check_mints,
}
use solana_vault_v.Requests.Backing.{
  KeepsBooks, KeepsBooks-turn, DistinctEscrow, transfer-covers, mint_to-covers,
}

pub release_pending_deposit-eq_ok :
    (v : Vault) (a : Option VaultAsset) (m : Pubkey) (n : ℕ) {p : Vault × Option VaultAsset}
    → release_pending_deposit v a m n ≡ ok p
    → ((p.0).pending_vault ≡ v.pending_vault)
      × ((p.0).asset_mint ≡ v.asset_mint)
      × ((p.0).pending_async_requests ≡ v.pending_async_requests)
      × ((p.0).pending_deposit_amount + (if m == v.asset_mint then n else 0)
          ≡ v.pending_deposit_amount)
unfolding release_pending_deposit
release_pending_deposit-eq_ok v a m n h = ground arith

pub close_pending_request-eq_ok :
    (v : Vault) {v' : Vault}
    → close_pending_request v ≡ ok v'
    → (v'.pending_vault ≡ v.pending_vault)
      × (v'.asset_mint ≡ v.asset_mint)
      × (v'.pending_async_requests + 1 ≡ v.pending_async_requests)
      × (v'.pending_deposit_amount ≡ v.pending_deposit_amount)
unfolding close_pending_request
close_pending_request-eq_ok v h = ground arith

-- The escrow account of a refund is the vault's own exactly for the primary asset.
pub refund_escrow-eq_ok :
    (v : Vault) (a : Option VaultAsset) (vault_key m : Pubkey) (given : Option Pubkey) {e : Pubkey}
    → refund_escrow v a vault_key m given ≡ ok e
    → ((x : VaultAsset) → a ≡ some x → x.pending_vault ≢ v.pending_vault)
    → (v.asset_mint ≡ m → e ≡ v.pending_vault) × (v.asset_mint ≢ m → e ≢ v.pending_vault)
unfolding refund_escrow assert_matches assert_pending_vault
refund_escrow-eq_ok v none vault_key m given h distinct = ground arith
refund_escrow-eq_ok v (some x) vault_key m given h distinct = ground (arith, distinct x)

pub check_mints-eq_ok :
    (r : Request) (asset_mint share_mint : Pubkey) {u : Unit {0}}
    → check_mints r asset_mint share_mint ≡ ok u
    → r.asset_mint_address ≡ asset_mint
check_mints-eq_ok r asset_mint share_mint h = ground arith

module _ (addresses : Addresses) (T : TokenProgram) (accounts : RequestAccounts) where
  open accounts use {asset_mint, share_mint, vault_key}
  open T use {balance}

  refund_deposit-eq_ok :
      (w : World T) {w' : World T}
      → refund_deposit addresses T accounts w ≡ ok w'
      → DistinctEscrow T w
      → (w'.vault.pending_vault ≡ w.vault.pending_vault)
        × (w'.vault.asset_mint ≡ w.vault.asset_mint)
        × (w'.vault.pending_async_requests ≡ w.vault.pending_async_requests)
        × (w'.vault.pending_deposit_amount
              + (if asset_mint.key == w.vault.asset_mint then w.request.amount else 0)
            ≡ w.vault.pending_deposit_amount)
        × (balance w.tokens w.vault.pending_vault
            ≤ balance w'.tokens w.vault.pending_vault
              + (if asset_mint.key == w.vault.asset_mint then w.request.amount else 0))
  unfolding refund_deposit
  refund_deposit-eq_ok w {w'} h distinct = grind (
    arith,
    release_pending_deposit-eq_ok,
    refund_escrow-eq_ok,
    λ (x y : T.Tokens) (from to : Pubkey) (n : ℕ).
        transfer-covers T x y from to w.vault.pending_vault n,
  )

  refund_redeem-eq_ok :
      (w : World T) {w' : World T}
      → refund_redeem addresses T accounts w ≡ ok w'
      → (w'.vault ≡ w.vault)
        × (balance w.tokens w.vault.pending_vault ≤ balance w'.tokens w.vault.pending_vault)
  unfolding refund_redeem
  refund_redeem-eq_ok w {w'} h = grind (
    arith,
    λ (x y : T.Tokens) (m to : Pubkey) (n : ℕ). mint_to-covers T x y m to w.vault.pending_vault n,
  )

  -- A request that is given back, and counted down.
  refund_as-KeepsBooks :
      (t : RequestType) (w : World T) {w1 : World T} {w' : World T}
      → w.request.request_type ≡ t
      → refund addresses T accounts t w ≡ ok w1
      → count_down addresses T accounts w1 ≡ ok w'
      → DistinctEscrow T w
      → w.request.request_state ≡ pending
      → w.request.asset_mint_address ≡ asset_mint.key
      → KeepsBooks T w w' (some w.request) none
  refund_as-KeepsBooks deposit w {w1} {w'} t h c distinct state mint = record {
    same_escrow = grind (arith, refund_deposit-eq_ok w h distinct, close_pending_request-eq_ok);
    same_asset = grind (arith, refund_deposit-eq_ok w h distinct, close_pending_request-eq_ok);
    backed = grind (arith, refund_deposit-eq_ok w h distinct, close_pending_request-eq_ok);
    reserves = grind (arith, refund_deposit-eq_ok w h distinct, close_pending_request-eq_ok);
    counts = grind (arith, refund_deposit-eq_ok w h distinct, close_pending_request-eq_ok);
  }
  refund_as-KeepsBooks redeem w {w1} {w'} t h c distinct state mint = record {
    same_escrow = grind (arith, refund_redeem-eq_ok w h, close_pending_request-eq_ok);
    same_asset = grind (arith, refund_redeem-eq_ok w h, close_pending_request-eq_ok);
    backed = grind (arith, refund_redeem-eq_ok w h, close_pending_request-eq_ok);
    reserves = grind (arith, refund_redeem-eq_ok w h, close_pending_request-eq_ok);
    counts = grind (arith, refund_redeem-eq_ok w h, close_pending_request-eq_ok);
  }

  -- The two ways to give a request back, after their own guards.
  refund_request-KeepsBooks :
      (w : World T) {w1 : World T} {w' : World T}
      → refund addresses T accounts w.request.request_type w ≡ ok w1
      → count_down addresses T accounts w1 ≡ ok w'
      → DistinctEscrow T w
      → (w.request.request_state ≡ pending) × (w.request.asset_mint_address ≡ asset_mint.key)
      → KeepsBooks T w w' (some w.request) none
  refund_request-KeepsBooks w h c distinct (state, mint) =
      refund_as-KeepsBooks w.request.request_type w refl h c distinct state mint

  -- A cancelled request leaves the books balanced: it takes its assets out of escrow, its reservation
  -- out of the pending deposits, and itself out of the count of pending requests.
  pub cancel_request-KeepsBooks :
      (w : World T) {w' : World T}
      → cancel_request addresses T accounts w ≡ ok w'
      → DistinctEscrow T w
      → KeepsBooks T w w' (some w.request) none
  unfolding cancel_request
  cancel_request-KeepsBooks w {w'} h distinct = grind (
    arith,
    check_mints-eq_ok,
    λ (x : World T) (a : refund addresses T accounts w.request.request_type w ≡ ok x)
          (b : count_down addresses T accounts x ≡ ok w').
        refund_request-KeepsBooks w a b distinct,
  )

  -- The same of a rejected request.
  pub reject_request-KeepsBooks :
      (args : ExpectedRequest) (w : World T) {w' : World T}
      → reject_request addresses T accounts args w ≡ ok w'
      → DistinctEscrow T w
      → KeepsBooks T w w' (some w.request) none
  unfolding reject_request
  reject_request-KeepsBooks args w {w'} h distinct = grind (
    arith,
    check_mints-eq_ok,
    λ (e : Extensions) (l : List AccountInfo) (x : World T)
          (a : refund addresses T accounts w.request.request_type
              (record w { extensions = e; remaining = l })
            ≡ ok x)
          (b : count_down addresses T accounts x ≡ ok w')
          (c : (w.request.request_state ≡ pending)
            × (w.request.asset_mint_address ≡ asset_mint.key)).
        KeepsBooks-turn T w e l
          (refund_request-KeepsBooks (record w { extensions = e; remaining = l }) a b distinct c),
  )
