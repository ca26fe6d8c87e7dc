-- ===== src/Requests/Backing/Books.antt =====
-- The sums over all the requests of a vault.
use solana_vault_v.Base.{ℕ, ◌+◌, ◌≤◌, ◌≡◌, Option, none, some, List, [], ◌∷◌, ◌++◌, refl, arith}
use solana_vault_v.State.{Vault, Request}
use solana_vault_v.Runtime.Token.{TokenProgram}
use solana_vault_v.Requests.World.{World}
use solana_vault_v.Requests.Backing.{KeepsBooks, owed, reserved, counted}

abbrev pub total : (Option Request → ℕ) → List Request → ℕ
total f [] = 0
total f (r ∷ rest) = f (some r) + total f rest

-- A request at its place among the others, if it exists.
abbrev pub placed : List Request → Option Request → List Request → List Request
placed l none m = l ++ m
placed l (some r) m = l ++ r ∷ m

-- The vault and the tokens with every request that is open.
pub record Books (T : TokenProgram) : Type 0 where
  pub vault : Vault
  pub tokens : T.Tokens
  pub requests : List Request

-- The escrow account covers what is owed, and the two counters of the vault are exact.
unfoldable pub IsBalanced : (T : TokenProgram) → Books T → Type 0
IsBalanced T b =
    (total (owed b.vault.asset_mint) b.requests ≤ T.balance b.tokens b.vault.pending_vault)
    × (b.vault.pending_deposit_amount ≡ total (reserved b.vault.asset_mint) b.requests)
    × (b.vault.pending_async_requests ≡ total counted b.requests)

abbrev pub books : (T : TokenProgram) → World T → List Request → Books T
books T w l = record { vault = w.vault; tokens = w.tokens; requests = l }

total-++ : (f : Option Request → ℕ) (l m : List Request) → total f (l ++ m) ≡ total f l + total f m
total-++ f [] m = omega arith
total-++ f (r ∷ rest) m = omega (arith, total-++ f rest m)

pub total-placed :
    (f : Option Request → ℕ) (l m : List Request) (o : Option Request)
    → f none ≡ 0
    → total f (placed l o m) ≡ total f l + f o + total f m
total-placed f l m none h = omega (arith, h, total-++ f l m)
total-placed f l m (some r) h = omega (arith, total-++ f l (r ∷ m))

pub KeepsBooks-IsBalanced :
    (T : TokenProgram) (w w' : World T) (before after : Option Request) (l m : List Request)
    → KeepsBooks T w w' before after
    → IsBalanced T (books T w (placed l before m))
    → IsBalanced T (books T w' (placed l after m))
unfolding IsBalanced
KeepsBooks-IsBalanced T w w' before after l m keeps (backed, reserves, counts) =
    let mint = w.vault.asset_mint in
    (
      ground (
        arith,
        keeps.same_escrow,
        keeps.same_asset,
        keeps.backed,
        total-placed (owed mint) l m before refl,
        total-placed (owed mint) l m after refl,
      ),
      ground (
        arith,
        keeps.same_asset,
        keeps.reserves,
        total-placed (reserved mint) l m before refl,
        total-placed (reserved mint) l m after refl,
      ),
      ground (
        arith,
        keeps.counts,
        total-placed counted l m before refl,
        total-placed counted l m after refl,
      ),
    )
