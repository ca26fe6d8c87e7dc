-- ===== src/Venues/Portfolio.antt =====
-- The positions of a vault all together, with what the vault counts of them.
use solana_vault_v.Base.{
  ℕ, ◌+◌, ◌≤◌, ◌≡◌, ◌≢◌, Option, none, some, List, [], ◌∷◌, ◌++◌, ◌==◌, if◌then◌else◌, arith,
}
use solana_vault_v.State.{⊤, Pubkey, Vault, VaultAsset, VaultVenue, Position}
use solana_vault_v.Runtime.Token.{TokenProgram}
use solana_vault_v.Venues.Accounts.{VenueAccounts, VenueWorld}
use solana_vault_v.Venues.Transfers.{deployed, Moved}

-- The vault with its asset accounts by mint, its approvals by key, and its open positions.
pub record Portfolio (T : TokenProgram) : Type 0 where
  pub vault : Vault
  pub assets : Pubkey → Option VaultAsset
  pub venues : Pubkey → Option VaultVenue
  pub positions : List Position
  pub tokens : T.Tokens

-- The table with another entry at a key.
abbrev pub put {ℓ} : {A : Type ℓ} → Pubkey → A → (Pubkey → A) → Pubkey → A
put k a f i = if i == k then a else f i

abbrev pub sum : (Position → ℕ) → List Position → ℕ
sum f [] = 0
sum f (p ∷ rest) = f p + sum f rest

-- What a position holds of a secondary asset; the primary asset has no account of its own.
abbrev pub invested : Pubkey → Pubkey → Position → ℕ
invested primary mint p =
    if mint == primary then 0 else if p.asset_mint == mint then p.amount else 0

-- A position under an approval.
abbrev pub opened : Pubkey → Position → ℕ
opened k p = if p.vault_venue == k then 1 else 0

abbrev pub position_count : Option VaultVenue → ℕ
position_count none = 0
position_count (some venue) = venue.position_count

-- Every position's token account holds its amount.
abbrev pub IsCovered : (T : TokenProgram) → T.Tokens → List Position → Type 0
IsCovered T t [] = ⊤
IsCovered T t (p ∷ rest) = (p.amount ≤ T.balance t p.token_account) × IsCovered T t rest

-- No position has this token account.
abbrev pub IsApart : Pubkey → List Position → Type 0
IsApart k [] = ⊤
IsApart k (p ∷ rest) = (p.token_account ≢ k) × IsApart k rest

-- An asset's account counts what the positions hold of it, an approval counts its positions, and
-- the token accounts cover the positions.
unfoldable pub IsAccounted : (T : TokenProgram) → Portfolio T → Type 0
IsAccounted T s =
    ((mint : Pubkey)
      → deployed (s.assets mint) ≡ sum (invested s.vault.asset_mint mint) s.positions)
    × ((k : Pubkey) → position_count (s.venues k) ≡ sum (opened k) s.positions)
    × IsCovered T s.tokens s.positions

pub sum-++ : (f : Position → ℕ) (l m : List Position) → sum f (l ++ m) ≡ sum f l + sum f m
sum-++ f [] m = omega arith
sum-++ f (p ∷ rest) m = omega (arith, sum-++ f rest m)

module _ (T : TokenProgram) where
  -- What the handlers see of a portfolio.
  abbrev pub venue_world : VenueAccounts → Portfolio T → VaultVenue → Position → VenueWorld T
  venue_world accounts s venue p = record {
    vault = s.vault;
    vault_asset = s.assets accounts.asset_mint;
    vault_venue = venue;
    position = p;
    tokens = s.tokens;
  }

  -- The portfolio after a handler has moved one position.
  abbrev pub moved_to :
      VenueAccounts → Portfolio T → List Position → List Position → VenueWorld T → Portfolio T
  moved_to accounts s l m w = record {
    vault = w.vault;
    assets = put accounts.asset_mint w.vault_asset s.assets;
    venues = put accounts.vault_venue_key (some w.vault_venue) s.venues;
    positions = l ++ w.position ∷ m;
    tokens = w.tokens;
  }

  -- Accounts that did not lose anything still cover positions.
  pub IsCovered-mono :
      (t t' : T.Tokens) (from : Pubkey) (l : List Position)
      → ((k : Pubkey) → k ≢ from → T.balance t k ≤ T.balance t' k)
      → IsApart from l
      → IsCovered T t l
      → IsCovered T t' l
  IsCovered-mono t t' from [] keeps apart covered = tt
  IsCovered-mono t t' from (p ∷ rest) keeps (ne, apart) (first, covered) = (
    omega (arith, first, keeps p.token_account ne),
    IsCovered-mono t t' from rest keeps apart covered,
  )

  -- Covering is position by position.
  pub IsCovered-split :
      (t : T.Tokens) (l m : List Position)
      → IsCovered T t (l ++ m)
      → IsCovered T t l × IsCovered T t m
  IsCovered-split t [] m covered = (tt, covered)
  IsCovered-split t (p ∷ rest) m (first, covered) =
      let (a, b) = IsCovered-split t rest m covered in ((first, a), b)

  pub IsCovered-join :
      (t : T.Tokens) (l m : List Position)
      → IsCovered T t l
      → IsCovered T t m
      → IsCovered T t (l ++ m)
  IsCovered-join t [] m _ covered = covered
  IsCovered-join t (p ∷ rest) m (first, before) covered =
      (first, IsCovered-join t rest m before covered)

  pub IsApart-split :
      (k : Pubkey) (l m : List Position) → IsApart k (l ++ m) → IsApart k l × IsApart k m
  IsApart-split k [] m apart = (tt, apart)
  IsApart-split k (p ∷ rest) m (first, apart) =
      let (a, b) = IsApart-split k rest m apart in ((first, a), b)

  module _ (accounts : VenueAccounts) (from : Pubkey) (inflow outflow : ℕ) (s : Portfolio T)
      (venue : VaultVenue) (p : Position) (w : VenueWorld T) (l m : List Position)
      (moved : Moved T accounts from inflow outflow (venue_world accounts s venue p) w) where
    moved-invested :
        (mint : Pubkey)
        → deployed (s.assets mint) ≡ sum (invested s.vault.asset_mint mint) (l ++ p ∷ m)
        → deployed (put accounts.asset_mint w.vault_asset s.assets mint)
          ≡ sum (invested w.vault.asset_mint mint) (l ++ w.position ∷ m)
    moved-invested mint h =
        let f = invested s.vault.asset_mint mint in
        rw moved.keeps_primary (
          ground (
            arith,
            h,
            sum-++ f l (p ∷ m),
            sum-++ f l (w.position ∷ m),
            moved.same_mint,
            moved.keeps_position,
            moved.amount,
            moved.primary,
            moved.secondary,
          ))

    moved-opened :
        (k : Pubkey)
        → s.venues accounts.vault_venue_key ≡ some venue
        → position_count (s.venues k) ≡ sum (opened k) (l ++ p ∷ m)
        → position_count (put accounts.vault_venue_key (some w.vault_venue) s.venues k)
          ≡ sum (opened k) (l ++ w.position ∷ m)
    moved-opened k found h = ground (
      arith,
      h,
      found,
      sum-++ (opened k) l (p ∷ m),
      sum-++ (opened k) l (w.position ∷ m),
      moved.keeps_position,
      moved.keeps_venue,
    )

    moved-IsCovered :
        IsApart from (l ++ m)
        → IsCovered T s.tokens (l ++ p ∷ m)
        → IsCovered T w.tokens (l ++ w.position ∷ m)
    moved-IsCovered apart covered =
        let (before, (own, after)) = IsCovered-split s.tokens l (p ∷ m) covered in
        let (apart_l, apart_m) = IsApart-split from l m apart in
        IsCovered-join w.tokens l (w.position ∷ m)
          (IsCovered-mono s.tokens w.tokens from l moved.others apart_l before)
          (
            ground (arith, own, moved.same_token, moved.keeps_position, moved.amount, moved.covers),
            IsCovered-mono s.tokens w.tokens from m moved.others apart_m after,
          )

    -- A move of one position keeps the accounts of all of them.
    pub Moved-IsAccounted :
        s.positions ≡ l ++ p ∷ m
        → s.venues accounts.vault_venue_key ≡ some venue
        → IsApart from (l ++ m)
        → IsAccounted T s
        → IsAccounted T (moved_to accounts s l m w)
    unfolding IsAccounted
    Moved-IsAccounted here found apart (invests, opens, covers) = (
      λ mint. moved-invested mint (rw here at (invests mint)),
      λ k. moved-opened k found (rw here at (opens k)),
      moved-IsCovered apart (rw here at covers),
    )
