-- ===== src/Runtime/Tables.antt =====
-- Two tables of balances and supplies meet the laws of a token program.
use solana_vault_v.Base.{ℕ, ◌+◌, ◌-◌, ◌≡◌, ◌≢◌, Option, none, some, arith, leb, ◌==◌, if◌then◌else◌}
use solana_vault_v.State.{Pubkey}
use solana_vault_v.Runtime.Token.{TokenProgram}

-- A state of two tables meets these laws.
pub record Tables : Type 0 where
  pub held : Pubkey → ℕ
  pub issued : Pubkey → ℕ

abbrev pub set_at : (Pubkey → ℕ) → Pubkey → ℕ → Pubkey → ℕ
set_at f k v j = if j == k then v else f j

abbrev table_transfer : Tables → Pubkey → Pubkey → ℕ → Option Tables
table_transfer t from to amount =
    if leb amount (t.held from)
    then some (record t {
      held =
          (let taken = set_at t.held from (t.held from - amount) in
            set_at taken to (taken to + amount));
    })
    else none

abbrev table_mint_to : Tables → Pubkey → Pubkey → ℕ → Option Tables
table_mint_to t m to amount = some (record {
  held = set_at t.held to (t.held to + amount);
  issued = set_at t.issued m (t.issued m + amount);
})

abbrev table_burn : Tables → Pubkey → Pubkey → ℕ → Option Tables
table_burn t m from amount =
    if leb amount (t.held from)
    then if leb amount (t.issued m)
      then some (record {
        held = set_at t.held from (t.held from - amount);
        issued = set_at t.issued m (t.issued m - amount);
      })
      else none
    else none

pub table_transfer_from :
    (t t' : Tables) (from to : Pubkey) (amount : ℕ)
    → table_transfer t from to amount ≡ some t'
    → from ≢ to
    → t'.held from + amount ≡ t.held from
table_transfer_from t t' from to amount h n1 = ground arith

pub table_transfer_to :
    (t t' : Tables) (from to : Pubkey) (amount : ℕ)
    → table_transfer t from to amount ≡ some t'
    → from ≢ to
    → t'.held to ≡ t.held to + amount
table_transfer_to t t' from to amount h n1 = ground arith

pub table_transfer_other :
    (t t' : Tables) (from to k : Pubkey) (amount : ℕ)
    → table_transfer t from to amount ≡ some t'
    → k ≢ from
    → k ≢ to
    → t'.held k ≡ t.held k
table_transfer_other t t' from to k amount h n1 n2 = ground arith

pub table_transfer_self :
    (t t' : Tables) (from to : Pubkey) (amount : ℕ)
    → table_transfer t from to amount ≡ some t'
    → from ≡ to
    → t'.held from ≡ t.held from
table_transfer_self t t' from to amount h e = ground arith

pub table_transfer_supply :
    (t t' : Tables) (from to m : Pubkey) (amount : ℕ)
    → table_transfer t from to amount ≡ some t'
    → t'.issued m ≡ t.issued m
table_transfer_supply t t' from to m amount h = ground arith

pub table_mint_to_to :
    (t t' : Tables) (m to : Pubkey) (amount : ℕ)
    → table_mint_to t m to amount ≡ some t'
    → t'.held to ≡ t.held to + amount
table_mint_to_to t t' m to amount h = ground arith

pub table_mint_to_other :
    (t t' : Tables) (m to k : Pubkey) (amount : ℕ)
    → table_mint_to t m to amount ≡ some t'
    → k ≢ to
    → t'.held k ≡ t.held k
table_mint_to_other t t' m to k amount h n1 = ground arith

pub table_mint_to_supply :
    (t t' : Tables) (m to : Pubkey) (amount : ℕ)
    → table_mint_to t m to amount ≡ some t'
    → t'.issued m ≡ t.issued m + amount
table_mint_to_supply t t' m to amount h = ground arith

pub table_burn_from :
    (t t' : Tables) (m from : Pubkey) (amount : ℕ)
    → table_burn t m from amount ≡ some t'
    → t'.held from + amount ≡ t.held from
table_burn_from t t' m from amount h = ground arith

pub table_burn_other :
    (t t' : Tables) (m from k : Pubkey) (amount : ℕ)
    → table_burn t m from amount ≡ some t'
    → k ≢ from
    → t'.held k ≡ t.held k
table_burn_other t t' m from k amount h n1 = ground arith

pub table_burn_supply :
    (t t' : Tables) (m from : Pubkey) (amount : ℕ)
    → table_burn t m from amount ≡ some t'
    → t'.issued m + amount ≡ t.issued m
table_burn_supply t t' m from amount h = ground arith

abbrev pub table_program : TokenProgram
table_program = record {
  Tokens = Tables;
  balance = λ t k. t.held k;
  supply = λ t m. t.issued m;
  transfer = table_transfer;
  mint_to = table_mint_to;
  burn = table_burn;
  transfer-from = table_transfer_from;
  transfer-to = table_transfer_to;
  transfer-other = table_transfer_other;
  transfer-self = table_transfer_self;
  transfer-supply = table_transfer_supply;
  mint_to-to = table_mint_to_to;
  mint_to-other = table_mint_to_other;
  mint_to-supply = table_mint_to_supply;
  burn-from = table_burn_from;
  burn-other = table_burn_other;
  burn-supply = table_burn_supply;
}
