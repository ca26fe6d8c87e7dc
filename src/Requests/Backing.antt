-- ===== src/Requests/Backing.antt =====
-- What the escrow account of the primary asset owes to a request, and what it means that a call keeps
-- the books: the escrow balance, the reserved deposits and the count of pending requests move with
-- the request.
pub mod Refunds
pub mod Queued
pub mod Claims
pub mod Creation
pub mod Approval
pub mod Payments
pub mod Books
pub mod System
use solana_vault_v.Base.{
  List, ℕ, zero, suc, ◌+◌, ◌≤◌, ◌≡◌, ◌≢◌, Bool, true, false, ◌&&◌, Option, none, some, arith, ◌==◌,
  if◌then◌else◌,
}
use solana_vault_v.State.{
  Pubkey, Vault, VaultAsset, Request, RequestState, RequestType, pending, claimable, canceled,
  deposit, redeem,
}
use solana_vault_v.Extensions.{Extensions}
use solana_vault_v.Runtime.{AccountInfo}
use solana_vault_v.Runtime.Token.{TokenProgram}
use solana_vault_v.Requests.World.{World}

-- Escrowed: the assets of a pending deposit, and of a redemption that is approved.
abbrev pub is_escrowed : RequestState → RequestType → Bool
is_escrowed pending deposit = true
is_escrowed pending redeem = false
is_escrowed claimable deposit = false
is_escrowed claimable redeem = true
is_escrowed canceled _ = false

abbrev pub is_reserved : RequestState → RequestType → Bool
is_reserved pending deposit = true
is_reserved pending redeem = false
is_reserved claimable _ = false
is_reserved canceled _ = false

abbrev pub is_open : RequestState → Bool
is_open pending = true
is_open claimable = false
is_open canceled = false

-- The share of one request in each sum; a request that does not exist, or is closed, has none.
abbrev pub owed : Pubkey → Option Request → ℕ
owed asset_mint none = 0
owed asset_mint (some r) =
    if r.asset_mint_address == asset_mint && is_escrowed r.request_state r.request_type
    then r.amount
    else 0

abbrev pub reserved : Pubkey → Option Request → ℕ
reserved asset_mint none = 0
reserved asset_mint (some r) =
    if r.asset_mint_address == asset_mint && is_reserved r.request_state r.request_type
    then r.amount
    else 0

abbrev pub counted : Option Request → ℕ
counted none = 0
counted (some r) = if is_open r.request_state then 1 else 0

module _ (T : TokenProgram) where
  open T use {Tokens, balance, transfer, mint_to, burn}

  -- `w` became `w'` while the request went from `before` to `after`.
  pub record KeepsBooks (w w' : World T) (before after : Option Request) : Type 0 where
    pub same_escrow : w'.vault.pending_vault ≡ w.vault.pending_vault
    pub same_asset : w'.vault.asset_mint ≡ w.vault.asset_mint
    pub backed :
        balance w.tokens w.vault.pending_vault + owed w.vault.asset_mint after
        ≤ balance w'.tokens w.vault.pending_vault + owed w.vault.asset_mint before
    pub reserves :
        w'.vault.pending_deposit_amount + reserved w.vault.asset_mint before
        ≡ w.vault.pending_deposit_amount + reserved w.vault.asset_mint after
    pub counts :
        w'.vault.pending_async_requests + counted before
        ≡ w.vault.pending_async_requests + counted after

  -- The escrow account of a secondary asset is not the vault's own: both are derived addresses.
  abbrev pub DistinctEscrow : World T → Type 0
  DistinctEscrow w =
      (a : VaultAsset) → w.vault_asset ≡ some a → a.pending_vault ≢ w.vault.pending_vault

  -- No account loses more than a transfer takes from it.
  pub transfer-covers :
      (t t' : Tokens) (from to k : Pubkey) (amount : ℕ)
      → transfer t from to amount ≡ some t'
      → balance t k ≤ balance t' k + (if k == from then amount else 0)
  transfer-covers t t' from to k amount h = ground (
    arith,
    T.transfer-from t t' from to amount h,
    T.transfer-to t t' from to amount h,
    T.transfer-other t t' from to k amount h,
    T.transfer-self t t' from to amount h,
  )

  pub transfer-credits :
      (t t' : Tokens) (from to k : Pubkey) (amount : ℕ)
      → transfer t from to amount ≡ some t'
      → k ≢ from
      → balance t' k ≡ balance t k + (if k == to then amount else 0)
  transfer-credits t t' from to k amount h ne =
      ground (arith, T.transfer-to t t' from to amount h, T.transfer-other t t' from to k amount h)

  -- Minting takes from no account.
  pub mint_to-covers :
      (t t' : Tokens) (m to k : Pubkey) (amount : ℕ)
      → mint_to t m to amount ≡ some t'
      → balance t k ≤ balance t' k
  mint_to-covers t t' m to k amount h =
      ground (arith, T.mint_to-to t t' m to amount h, T.mint_to-other t t' m to k amount h)

  pub burn-covers :
      (t t' : Tokens) (m from k : Pubkey) (amount : ℕ)
      → burn t m from amount ≡ some t'
      → balance t k ≤ balance t' k + (if k == from then amount else 0)
  burn-covers t t' m from k amount h =
      ground (arith, T.burn-from t t' m from amount h, T.burn-other t t' m from k amount h)

  -- The turn that a request takes in its queue is not in the books.
  pub KeepsBooks-turn :
      (w : World T) (e : Extensions) (l : List AccountInfo) {w' : World T}
      {before after : Option Request}
      → KeepsBooks (record w { extensions = e; remaining = l }) w' before after
      → KeepsBooks w w' before after
  KeepsBooks-turn w e l keeps = record {
    same_escrow = keeps.same_escrow;
    same_asset = keeps.same_asset;
    backed = keeps.backed;
    reserves = keeps.reserves;
    counts = keeps.counts;
  }
