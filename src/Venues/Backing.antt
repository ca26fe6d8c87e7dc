-- ===== src/Venues/Backing.antt =====
-- All the calls on a vault's assets, approvals and positions, in any order.
use solana_vault_v.Base.{ℕ, ◌≡◌, none, some, ok, ◌∷◌, ◌++◌, List, arith}
use solana_vault_v.State.{Pubkey, Vault, VaultAsset, VenueEntry, VaultVenue, Position}
use solana_vault_v.Runtime.{Addresses, Clock}
use solana_vault_v.Runtime.Token.{TokenProgram}
use solana_vault_v.Setup.Assets.{AssetAccounts, add_vault_asset, remove_vault_asset}
use solana_vault_v.Venues.Registry.{approve_vault_venue, remove_vault_venue}
use solana_vault_v.Venues.Accounts.{VenueAccounts, VenueWorld}
use solana_vault_v.Venues.Moves.{deploy_venue_position, pull_venue_position}
use solana_vault_v.Venues.Slots.{create_venue_position, remove_venue_position}
use solana_vault_v.Venues.Effects.{deploy_venue_position-Moved, pull_venue_position-Moved}
use solana_vault_v.Venues.Counts.{
  add_vault_asset-eq_ok, remove_vault_asset-eq_ok, approve_vault_venue-eq_ok,
  remove_vault_venue-eq_ok, create_venue_position-eq_ok, remove_venue_position-eq_ok,
}
use solana_vault_v.Venues.Portfolio.{
  Portfolio, put, sum-++, invested, opened, IsApart, IsAccounted, venue_world, moved_to,
  IsCovered-split, IsCovered-join, Moved-IsAccounted,
}

module _ (addresses : Addresses) (T : TokenProgram) where
  -- One successful call. Positions have token accounts of their own: neither what a deployment nor
  -- what a pull takes from is the account of another position.
  pub data Step (s : Portfolio T) : Portfolio T → Type 0 where
    add_asset :
        (accounts : AssetAccounts) (deposit_cap : ℕ) (v : Vault) (asset : VaultAsset)
        → s.assets accounts.asset_mint.key ≡ none
        → add_vault_asset addresses accounts deposit_cap s.vault ≡ ok (v, asset)
        → Step s
            (record s { vault = v; assets = put accounts.asset_mint.key (some asset) s.assets })
    remove_asset :
        (accounts : AssetAccounts) (v : Vault) (asset : VaultAsset)
        → s.assets accounts.asset_mint.key ≡ some asset
        → remove_vault_asset T accounts s.vault asset s.tokens ≡ ok v
        → Step s (record s { vault = v; assets = put accounts.asset_mint.key none s.assets })
    approve :
        (authority vault_key venue_entry_key vault_venue_key recipient : Pubkey)
        (entry : VenueEntry) (slot bump : ℕ) (venue : VaultVenue)
        → s.venues vault_venue_key ≡ none
        → approve_vault_venue authority vault_key venue_entry_key s.vault entry slot bump recipient
          ≡ ok venue
        → Step s (record s { venues = put vault_venue_key (some venue) s.venues })
    disapprove :
        (authority vault_key venue_entry_key vault_venue_key : Pubkey) (venue : VaultVenue)
        → s.venues vault_venue_key ≡ some venue
        → remove_vault_venue authority vault_key venue_entry_key s.vault venue ≡ ok tt
        → Step s (record s { venues = put vault_venue_key none s.venues })
    create :
        (accounts : VenueAccounts) (bump token_account_bump : ℕ) (venue venue' : VaultVenue)
        (p : Position)
        → s.venues accounts.vault_venue_key ≡ some venue
        → create_venue_position accounts s.vault
            (s.assets accounts.asset_mint)
            venue
            bump
            token_account_bump
          ≡ ok (venue', p)
        → Step s (record s {
          venues = put accounts.vault_venue_key (some venue') s.venues;
          positions = p ∷ s.positions;
        })
    close :
        (accounts : VenueAccounts) (venue venue' : VaultVenue) (l m : List Position) (p : Position)
        → s.positions ≡ l ++ p ∷ m
        → s.venues accounts.vault_venue_key ≡ some venue
        → remove_venue_position T accounts (venue_world T accounts s venue p) ≡ ok venue'
        → Step s (record s {
          venues = put accounts.vault_venue_key (some venue') s.venues;
          positions = l ++ m;
        })
    deploy :
        (clock : Clock) (accounts : VenueAccounts) (amount : ℕ) (venue : VaultVenue) (p : Position)
        (w : VenueWorld T) (l m : List Position)
        → s.positions ≡ l ++ p ∷ m
        → s.venues accounts.vault_venue_key ≡ some venue
        → IsApart accounts.vault_token_account (l ++ m)
        → deploy_venue_position T clock accounts amount (venue_world T accounts s venue p) ≡ ok w
        → Step s (moved_to T accounts s l m w)
    pull :
        (clock : Clock) (accounts : VenueAccounts) (amount : ℕ) (venue : VaultVenue) (p : Position)
        (w : VenueWorld T) (l m : List Position)
        → s.positions ≡ l ++ p ∷ m
        → s.venues accounts.vault_venue_key ≡ some venue
        → IsApart accounts.position_token_account (l ++ m)
        → pull_venue_position T clock accounts amount (venue_world T accounts s venue p) ≡ ok w
        → Step s (moved_to T accounts s l m w)

  pub data Steps : Portfolio T → Portfolio T → Type 0 where
    done : {s : Portfolio T} → Steps s s
    then_step : {s s' s'' : Portfolio T} → Steps s s' → Step s' s'' → Steps s s''

  Step-IsAccounted : {s s' : Portfolio T} → Step s s' → IsAccounted T s → IsAccounted T s'
  unfolding IsAccounted
  Step-IsAccounted {s} (add_asset accounts deposit_cap v asset absent h) (invests, opens, covers) =
      let (empty, same) = add_vault_asset-eq_ok addresses T accounts deposit_cap s.vault h in
      (λ mint. rw same (ground (arith, invests mint, absent, empty)), opens, covers)
  Step-IsAccounted {s} (remove_asset accounts v asset found h) (invests, opens, covers) =
      let (empty, same) = remove_vault_asset-eq_ok addresses T accounts s.vault asset s.tokens h in
      (λ mint. rw same (ground (arith, invests mint, found, empty)), opens, covers)
  Step-IsAccounted {s}
        (approve authority vault_key entry_key k recipient entry slot bump venue absent h)
        (invests, opens, covers) =
      let empty =
        approve_vault_venue-eq_ok addresses T authority vault_key entry_key s.vault entry slot bump
          recipient h in
      (invests, λ i. ground (arith, opens i, absent, empty), covers)
  Step-IsAccounted {s} (disapprove authority vault_key entry_key k venue found h)
        (invests, opens, covers) =
      let empty =
        remove_vault_venue-eq_ok addresses T authority vault_key entry_key s.vault venue h in
      (invests, λ i. ground (arith, opens i, found, empty), covers)
  Step-IsAccounted {s} (create accounts bump token_account_bump venue venue' p found h)
        (invests, opens, covers) =
      let (more, empty, under) =
        create_venue_position-eq_ok addresses T accounts s.vault (s.assets accounts.asset_mint)
          venue bump token_account_bump h in
      (
        λ mint. ground (arith, invests mint, empty),
        λ k. ground (arith, opens k, found, more, under),
        (omega (arith, empty), covers),
      )
  Step-IsAccounted {s} (close accounts venue venue' l m p here found h) (invests, opens, covers) =
      let (less, empty, under) =
        remove_venue_position-eq_ok addresses T accounts (venue_world T accounts s venue p) h in
      let (before, (_, after)) = IsCovered-split T s.tokens l (p ∷ m) (rw here at covers) in
      (
        λ mint.
            let f = invested s.vault.asset_mint mint in
            let sums = rw here at (invests mint) in
            ground (arith, sums, empty, sum-++ f l m, sum-++ f l (p ∷ m)),
        λ k.
            let sums = rw here at (opens k) in
            ground
              (arith, sums, found, less, under, sum-++ (opened k) l m, sum-++ (opened k) l (p ∷ m)),
        IsCovered-join T s.tokens l m before after,
      )
  Step-IsAccounted {s} (deploy clock accounts amount venue p w l m here found apart h) accounted =
      Moved-IsAccounted T accounts accounts.vault_token_account amount 0 s venue p w l m
        (deploy_venue_position-Moved T clock accounts amount (venue_world T accounts s venue p) h)
        here found apart accounted
  Step-IsAccounted {s} (pull clock accounts amount venue p w l m here found apart h) accounted =
      Moved-IsAccounted T accounts accounts.position_token_account 0 amount s venue p w l m
        (pull_venue_position-Moved T clock accounts amount (venue_world T accounts s venue p) h)
        here found apart accounted

  -- After any successful calls in any order (each under the conditions of its Step), starting from
  -- accounts that agree: what an approved asset counts as deployed is the sum of the open positions
  -- in it; an approval counts exactly the positions under it, so none is closed while there are
  -- any; and every position's token account holds at least its amount.
  pub Steps-IsAccounted : {s s' : Portfolio T} → Steps s s' → IsAccounted T s → IsAccounted T s'
  Steps-IsAccounted done h = h
  Steps-IsAccounted (then_step steps step) h = Step-IsAccounted step (Steps-IsAccounted steps h)
