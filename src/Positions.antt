-- ===== src/Positions.antt =====
-- The ledger of a venue position in a secondary asset (`PositionLedger`,
-- programs/async_vault_v2/src/state/async_vault_v2.rs): what lies idle in the vault, what is deployed in
-- all positions of the asset, and the amount of this position.
use solana_vault_v.Base.{
  ℕ, ◌+◌, ◌≤◌, ◌≡◌, ◌&&◌, ok, ◌>>=◌, ◌>>◌, List, [], ◌∷◌, leb, u64_max, checked_add, checked_sub,
  arith, >>=-eq-ok,
}
use solana_vault_v.Error.{
  Outcome, require, exact, insufficient_liquidity, insufficient_position_balance,
}

pub record PositionLedger : Type 0 where
  pub position_amount : ℕ  -- u64
  pub idle_balance : ℕ  -- u64
  pub deployed_balance : ℕ  -- u64

unfoldable pub deploy : PositionLedger → ℕ → Outcome PositionLedger
deploy l amount = do
  require (leb amount l.idle_balance) insufficient_liquidity
  position ← exact (checked_add u64_max l.position_amount amount)
  idle ← exact (checked_sub l.idle_balance amount)
  deployed ← exact (checked_add u64_max l.deployed_balance amount)
  ok (record { position_amount = position; idle_balance = idle; deployed_balance = deployed })

unfoldable pub pull : PositionLedger → ℕ → Outcome PositionLedger
pull l amount = do
  require (leb amount l.position_amount && leb amount l.deployed_balance)
      insufficient_position_balance
  position ← exact (checked_sub l.position_amount amount)
  idle ← exact (checked_add u64_max l.idle_balance amount)
  deployed ← exact (checked_sub l.deployed_balance amount)
  ok (record { position_amount = position; idle_balance = idle; deployed_balance = deployed })

-- One movement of assets, and a sequence of them, each of which succeeds.
pub data Move : Type 0 where
  deploys : ℕ → Move
  pulls : ℕ → Move

abbrev pub move : Move → PositionLedger → Outcome PositionLedger
move (deploys n) l = deploy l n
move (pulls n) l = pull l n

abbrev pub move_all : List Move → PositionLedger → Outcome PositionLedger
move_all [] l = ok l
move_all (m ∷ rest) l = do l' ← move m l; move_all rest l'

-- `l` became `l'`: the asset's total, and what the other positions hold, are the same.
abbrev pub IsConserved : PositionLedger → PositionLedger → Type 0
IsConserved l l' =
    (l'.idle_balance + l'.deployed_balance ≡ l.idle_balance + l.deployed_balance)
    × (l'.deployed_balance + l.position_amount ≡ l.deployed_balance + l'.position_amount)

move-IsConserved :
    (m : Move) (l : PositionLedger) {l' : PositionLedger} → move m l ≡ ok l' → IsConserved l l'
unfolding deploy pull
move-IsConserved (deploys n) l h = (ground arith, ground arith)
move-IsConserved (pulls n) l h = (ground arith, ground arith)

-- Any sequence of deployments and pulls that succeeds keeps the sum of the idle and the deployed
-- balance, and changes the deployed balance by exactly what it changes the position.
pub move_all-IsConserved :
    (moves : List Move) (l : PositionLedger) {l' : PositionLedger}
    → move_all moves l ≡ ok l'
    → IsConserved l l'
move_all-IsConserved [] l h = (ground arith, ground arith)
move_all-IsConserved (m ∷ rest) l h =
    let (l1, one, h1) = >>=-eq-ok (move m l) _ h in
    let (total, others) = move-IsConserved m l one in
    let (total', others') = move_all-IsConserved rest l1 h1 in (omega arith, omega arith)

-- What was deployed can be pulled back, and then the ledger is as before, if its idle balance is a
-- u64.
pub pull-deploy :
    (l : PositionLedger) (amount : ℕ) {l' : PositionLedger}
    → deploy l amount ≡ ok l'
    → l.idle_balance ≤ u64_max
    → pull l' amount ≡ ok l
unfolding deploy pull
pull-deploy l amount h fits = ground arith
