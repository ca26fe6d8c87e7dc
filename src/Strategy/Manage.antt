-- ===== src/Strategy/Manage.antt =====
-- A managed call: an action that the policy's Merkle root approves, run as the vault's own call of a
-- venue's program
-- (programs/async_vault_v2/src/instructions/manage_vault_with_merkle_verification.rs). The
-- program called is a parameter.
use solana_vault_v.Base.{
  ℕ, Bool, true, false, not, ◌&&◌, ◌||◌, List, [], ◌∷◌, Option, none, some, ok, ◌>>=◌, ◌>>◌, leb,
  ◌==◌, if◌then◌else◌, ok_or, u64_max, checked_mul,
}
use solana_vault_v.Bytes.{Bytes, length, take}
use solana_vault_v.Error.{
  Outcome, require, or_fail, exact, token_program_refused, invalid_share_mint, invalid_vault,
  invalid_venue_entry, invalid_strategy_policy, stale_strategy_policy_version,
  target_program_mismatch, target_program_not_executable, unsafe_target_program,
  instruction_data_too_large, too_many_cpi_accounts, invalid_venue_instruction,
  invalid_venue_discriminator_count, venue_instruction_not_allowed, share_supply_changed,
}
use solana_vault_v.State.{
  ⊤, Pubkey, Bytes32, Vault, VenueEntry, VaultVenue, StrategyPolicy, require_keys_eq,
  assert_unpaused_and_initialized, assert_bound, assert_policy_active, assert_entry_active,
  assert_venue_active, assert_manager_authorized,
}
use solana_vault_v.Limits.{consume_manager_rolling_limit}
use solana_vault_v.Runtime.{Addresses, Clock}
use solana_vault_v.Runtime.Token.{TokenProgram}
use solana_vault_v.Strategy.Merkle.{
  PolicyOperator, PolicyAccountMeta, StrategyLeaf, hash_strategy_leaf, verify_strategy_proof,
  max_manage_ix_data_len, max_manage_cpi_accounts,
}

abbrev pub bytes_equal : Bytes → Bytes → Bool
bytes_equal [] [] = true
bytes_equal (a ∷ xs) (b ∷ ys) = a == b && bytes_equal xs ys
bytes_equal _ _ = false

-- `chunks_exact(8).any(|entry| entry == discriminator)`
abbrev pub any_chunk : Bytes → Bytes → Bool
any_chunk (a ∷ b ∷ c ∷ d ∷ e ∷ f ∷ g ∷ h ∷ rest) discriminator =
    bytes_equal (a ∷ b ∷ c ∷ d ∷ e ∷ f ∷ g ∷ h ∷ []) discriminator || any_chunk rest discriminator
any_chunk _ _ = false

-- `slice.get(..n)`
abbrev pub get_prefix : ℕ → Bytes → Option Bytes
get_prefix n xs = if leb n (length xs) then some (take n xs) else none

unfoldable pub assert_instruction_allowed : VenueEntry → Bytes → Outcome ⊤
assert_instruction_allowed entry instruction_data = do
  discriminator ← or_fail (get_prefix 8 instruction_data) invalid_venue_instruction
  active_len ← exact (checked_mul u64_max entry.allowed_discriminator_count 8)
  allowed ←
      or_fail (get_prefix active_len entry.allowed_discriminators) invalid_venue_discriminator_count
  require (any_chunk allowed discriminator) venue_instruction_not_allowed

pub record ManageArgs : Type 0 where
  pub policy_version : ℕ  -- u64
  pub instruction_data : Bytes
  pub operators : List PolicyOperator
  pub proof : List Bytes32

-- The accounts of a call; the remaining ones are passed on to the venue's program.
pub record ManageAccounts : Type 0 where
  pub strategist : Pubkey
  pub share_mint : Pubkey
  pub vault_key : Pubkey
  pub venue_entry_key : Pubkey
  pub venue_entry : VenueEntry
  pub vault_venue : VaultVenue
  pub target_program : Pubkey
  pub executable : Bool
  pub remaining : List PolicyAccountMeta

-- What is changed: the vault, the policy and the token accounts.
pub record ManageWorld (T : TokenProgram) : Type 0 where
  pub vault : Vault
  pub policy : StrategyPolicy
  pub tokens : T.Tokens

-- The instruction that the venue's program gets.
pub record Instruction : Type 0 where
  pub program_id : Pubkey
  pub accounts : List PolicyAccountMeta
  pub data_bytes : Bytes

-- The vault signs, and is passed read-only.
abbrev pub cpi_account : Pubkey → PolicyAccountMeta → PolicyAccountMeta
cpi_account vault_key account = record {
  key = account.key;
  is_signer = account.is_signer || account.key == vault_key;
  is_writable = account.is_writable && not (account.key == vault_key);
}

abbrev pub cpi_accounts : Pubkey → List PolicyAccountMeta → List PolicyAccountMeta
cpi_accounts vault_key [] = []
cpi_accounts vault_key (account ∷ rest) =
    cpi_account vault_key account ∷ cpi_accounts vault_key rest

-- `if let Some(amount) = manager_limit_amount`
abbrev pub consume_limit_amount : Vault → Option ℕ → ℕ → Outcome Vault
consume_limit_amount v none slot = ok v
consume_limit_amount v (some amount) slot = consume_manager_rolling_limit v amount slot

module _ (hash : Bytes → Bytes32) (addresses : Addresses) (T : TokenProgram) (clock : Clock)
    (accounts : ManageAccounts) where
  open accounts use {
    strategist, share_mint, vault_key, venue_entry_key, venue_entry, vault_venue, target_program,
    executable, remaining,
  }

  -- The constraints on the accounts, and the checks up to the instruction's discriminator.
  unfoldable pub check_manage : ManageArgs → Vault → StrategyPolicy → Outcome ⊤
  check_manage args v p = do
    require_keys_eq share_mint v.share_mint invalid_share_mint
    require_keys_eq vault_venue.vault vault_key invalid_vault
    require_keys_eq vault_venue.venue_entry venue_entry_key invalid_venue_entry
    require_keys_eq p.vault vault_key invalid_strategy_policy
    require_keys_eq p.strategist strategist invalid_strategy_policy
    assert_unpaused_and_initialized v
    assert_bound p vault_key strategist
    assert_policy_active p
    require (args.policy_version == p.version) stale_strategy_policy_version
    assert_entry_active venue_entry
    assert_venue_active vault_venue
    assert_manager_authorized vault_venue v strategist
    require_keys_eq target_program venue_entry.target_program target_program_mismatch
    require_keys_eq target_program vault_venue.target_program target_program_mismatch
    require executable target_program_not_executable
    require (not (target_program == addresses.vault_program)) unsafe_target_program
    require (leb (length args.instruction_data) max_manage_ix_data_len) instruction_data_too_large
    require (leb (length remaining) max_manage_cpi_accounts) too_many_cpi_accounts
    assert_instruction_allowed venue_entry args.instruction_data

  abbrev pub action : ManageArgs → StrategyLeaf
  action args = record {
    vault = vault_key;
    strategist = strategist;
    policy_version = args.policy_version;
    target_program = target_program;
    instruction_data = args.instruction_data;
    accounts = cpi_accounts vault_key remaining;
    operators = args.operators;
  }

  abbrev pub instruction : ManageArgs → Instruction
  instruction args = record {
    program_id = target_program;
    accounts = cpi_accounts vault_key remaining;
    data_bytes = args.instruction_data;
  }

  -- The state that is written out before the call, with the guard against a second one set.
  unfoldable pub prepare : ManageArgs → ManageWorld T → Outcome (ManageWorld T)
  prepare args w = do
    check_manage args w.vault w.policy
    (leaf, limit_amount) ← hash_strategy_leaf hash addresses.vault_program (action args)
    verify_strategy_proof hash leaf args.proof w.policy.merkle_root
    v ← consume_limit_amount w.vault limit_amount clock.slot
    ok (record w { vault = v; policy = record (w.policy) { executing = true } })

  -- The call of the venue's program (`invoke`), and the check that no shares were minted or burnt.
  unfoldable pub manage_vault :
      (Instruction → T.Tokens → Option T.Tokens)
      → ManageArgs
      → ManageWorld T
      → Outcome (ManageWorld T)
  manage_vault invoke args w = do
    flushed ← prepare args w
    tokens' ← ok_or (invoke (instruction args) flushed.tokens) token_program_refused
    require (T.supply tokens' share_mint == T.supply w.tokens share_mint) share_supply_changed
    ok (record flushed { policy = record (flushed.policy) { executing = false }; tokens = tokens' })
