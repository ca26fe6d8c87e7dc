-- ===== src/Runtime/Token.antt =====
-- The SPL token program, which the source calls and does not hold: transfers, minting and burning on
-- an abstract state of token accounts and mints. The mints that the program accepts take no
-- transfer fee, so a transfer moves exactly its amount.
use solana_vault_v.Base.{ℕ, ◌+◌, ◌≡◌, ◌≢◌, Option, some}
use solana_vault_v.State.{Pubkey}

pub record TokenProgram : Type 1 where
  pub Tokens : Type 0
  pub balance : Tokens → Pubkey → ℕ
  pub supply : Tokens → Pubkey → ℕ
  -- `transfer_checked` from, to, amount; `mint_to` and `burn` of a mint at an account
  pub transfer : Tokens → Pubkey → Pubkey → ℕ → Option Tokens
  pub mint_to : Tokens → Pubkey → Pubkey → ℕ → Option Tokens
  pub burn : Tokens → Pubkey → Pubkey → ℕ → Option Tokens
  pub transfer-from :
      (t t' : Tokens) (from to : Pubkey) (amount : ℕ)
      → transfer t from to amount ≡ some t'
      → from ≢ to
      → balance t' from + amount ≡ balance t from
  pub transfer-to :
      (t t' : Tokens) (from to : Pubkey) (amount : ℕ)
      → transfer t from to amount ≡ some t'
      → from ≢ to
      → balance t' to ≡ balance t to + amount
  pub transfer-other :
      (t t' : Tokens) (from to k : Pubkey) (amount : ℕ)
      → transfer t from to amount ≡ some t'
      → k ≢ from
      → k ≢ to
      → balance t' k ≡ balance t k
  pub transfer-self :
      (t t' : Tokens) (from to : Pubkey) (amount : ℕ)
      → transfer t from to amount ≡ some t'
      → from ≡ to
      → balance t' from ≡ balance t from
  pub transfer-supply :
      (t t' : Tokens) (from to m : Pubkey) (amount : ℕ)
      → transfer t from to amount ≡ some t'
      → supply t' m ≡ supply t m
  pub mint_to-to :
      (t t' : Tokens) (m to : Pubkey) (amount : ℕ)
      → mint_to t m to amount ≡ some t'
      → balance t' to ≡ balance t to + amount
  pub mint_to-other :
      (t t' : Tokens) (m to k : Pubkey) (amount : ℕ)
      → mint_to t m to amount ≡ some t'
      → k ≢ to
      → balance t' k ≡ balance t k
  pub mint_to-supply :
      (t t' : Tokens) (m to : Pubkey) (amount : ℕ)
      → mint_to t m to amount ≡ some t'
      → supply t' m ≡ supply t m + amount
  pub burn-from :
      (t t' : Tokens) (m from : Pubkey) (amount : ℕ)
      → burn t m from amount ≡ some t'
      → balance t' from + amount ≡ balance t from
  pub burn-other :
      (t t' : Tokens) (m from k : Pubkey) (amount : ℕ)
      → burn t m from amount ≡ some t'
      → k ≢ from
      → balance t' k ≡ balance t k
  pub burn-supply :
      (t t' : Tokens) (m from : Pubkey) (amount : ℕ)
      → burn t m from amount ≡ some t'
      → supply t' m + amount ≡ supply t m
