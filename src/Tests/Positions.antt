-- ===== src/Tests/Positions.antt =====
-- A position that grows, shrinks and grows again.
use solana_vault_v.Base.{◌≡◌, [], ◌∷◌, ok, refl}
use solana_vault_v.Positions.{PositionLedger, deploy, pull, deploys, pulls, move_all}

abbrev ledger : PositionLedger
ledger = record { position_amount = 10; idle_balance = 90; deployed_balance = 40 }

abbrev moved : PositionLedger
moved = record { position_amount = 50; idle_balance = 50; deployed_balance = 80 }

move_run : move_all (deploys 30 ∷ pulls 20 ∷ deploys 30 ∷ []) ledger ≡ ok moved
unfolding deploy pull
move_run = refl

abbrev deployed : PositionLedger
deployed = record { position_amount = 50; idle_balance = 50; deployed_balance = 80 }

deploy_run : deploy ledger 40 ≡ ok deployed
unfolding deploy
deploy_run = refl
