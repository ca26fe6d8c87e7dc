-- ===== src/Tests/Strategy.antt =====
-- A managed call of a venue's program, and changes of the policy that approves it.
use solana_vault_v.Base.{
  ℕ, ◌-◌, ◌%◌, ◌^◌, ◌≡◌, ◌≢◌, ◌⊎◌, ◌++◌, List, [], ◌∷◌, Option, none, ok, true, false, refl, arith,
}
use solana_vault_v.Bytes.{Bytes, drop, from_le_bytes, zeros, to_le_bytes}
use solana_vault_v.State.{
  Bytes32, Vault, VenueEntry, VaultVenue, external_protocol, assert_policy_active,
  assert_not_executing, assert_manager_authorized, assert_unpaused_and_initialized,
  assert_entry_active, assert_venue_active, assert_bound,
}
use solana_vault_v.Limits.{consume_manager_rolling_limit, consume_rolling_limit}
use solana_vault_v.Strategy.Merkle.{
  PolicyOperator, StrategyLeaf, LeafState, ingest_instruction, ingest_account, manager_limit_amount,
  apply_operator, apply_operators, leaf_bytes, hash_strategy_leaf, hash_strategy_node,
  verify_strategy_proof, strategy_leaf_domain,
}
use solana_vault_v.Strategy.Proofs.{
  Collision, Tree, tip, fork, root_of, here, left, verify_strategy_proof-Leaf,
}
use solana_vault_v.Strategy.Binding.{SameAction, LeafInput, hash_strategy_leaf-SameAction}
use solana_vault_v.Strategy.Manage.{
  Instruction, ManageArgs, ManageAccounts, ManageWorld, action, assert_instruction_allowed,
  check_manage, prepare, manage_vault,
}
use solana_vault_v.Strategy.Guarantees.{prepare-guards}
use solana_vault_v.Strategy.Policy.{
  update_strategy_policy, execute_strategy_policy_update, pause_strategy_policy,
  close_strategy_policy,
}
use solana_vault_v.Tests.Policies.{change, queued}
use solana_vault_v.Tests.Data.{addresses, clock, vault, tokens, value_or}
use solana_vault_v.Tests.Requests.{T}

-- A hash of 32 bytes: the bytes as a number, modulo a prime below 2^255.
abbrev hash : Bytes → Bytes32
hash x = from_le_bytes x % (2 ^ 255 - 19)

abbrev managed_vault : Vault
managed_vault = record vault { manager_rolling_limit = 100 }

-- The eight bytes that say which instruction it is.
abbrev discriminator : Bytes
discriminator = 1 ∷ 2 ∷ 3 ∷ 4 ∷ 5 ∷ 6 ∷ 7 ∷ 8 ∷ []

abbrev venue_entry : VenueEntry
venue_entry = record {
  registry_authority = 20;
  venue_id = 21;
  target_program = 700;
  allowed_discriminator_count = 1;
  allowed_discriminators = discriminator ++ zeros 56;
  risk_class = 0;
  venue_type = external_protocol;
  routine_safe = false;
  paused = false;
  bump = 0;
}

abbrev vault_venue : VaultVenue
vault_venue = record {
  vault = 9;
  venue_entry = 22;
  recipient_authority = 23;
  target_program = 700;
  routine_safe = false;
  paused = false;
  position_count = 0;
  approved_at_slot = 10;
  bump = 0;
}

abbrev manage_accounts : ManageAccounts
manage_accounts = record {
  strategist = 5;
  share_mint = 2;
  vault_key = 9;
  venue_entry_key = 22;
  venue_entry = venue_entry;
  vault_venue = vault_venue;
  target_program = 700;
  executable = true;
  remaining = record { key = 9; is_signer = false; is_writable = true } ∷ [];
}

-- The call commits to its first account and to two bytes of its data, and counts the amount of 40.
abbrev operators : List PolicyOperator
operators = ingest_account 0 ∷ ingest_instruction 16 2 ∷ manager_limit_amount 8 ∷ []

abbrev call_bytes : ℕ → Bytes
call_bytes amount = discriminator ++ (to_le_bytes 8 amount ++ (3 ∷ 4 ∷ []))

abbrev args_with : List Bytes32 → ℕ → ManageArgs
args_with proof amount = record {
  policy_version = 1;
  instruction_data = call_bytes amount;
  operators = operators;
  proof = proof;
}

abbrev leaf_of : ℕ → StrategyLeaf
leaf_of amount = action hash addresses T clock manage_accounts (args_with [] amount)

abbrev leaf_state : ℕ → LeafState
leaf_state amount =
    value_or (record { bytes = []; limit_amount = none; ingested = 0 })
      (leaf_bytes 902 (leaf_of amount))

-- The call's leaf beside another one.
abbrev tree : Tree hash
tree = fork (tip (drop 38 (LeafState.bytes (leaf_state 40)))) (tip (9 ∷ 9 ∷ []))

abbrev proof : List Bytes32
proof = root_of hash (tip (9 ∷ 9 ∷ [])) ∷ []

abbrev args : ManageArgs
args = args_with proof 40

abbrev managed : ManageWorld T
managed = record {
  vault = managed_vault;
  policy = record {
    vault = 9;
    strategist = 5;
    merkle_root = root_of hash tree;
    version = 1;
    paused = false;
    executing = false;
    bump = 0;
  };
  tokens = tokens;
}

-- The program called moves 40 units of the vault's account.
abbrev invoke : Instruction → T.Tokens → Option T.Tokens
invoke i t = T.transfer t 3 30 40

abbrev flushed : ManageWorld T
flushed = value_or managed (prepare hash addresses T clock manage_accounts args managed)

prepare_run : prepare hash addresses T clock manage_accounts args managed ≡ ok flushed
unfolding prepare check_manage assert_unpaused_and_initialized assert_bound assert_policy_active
    assert_entry_active assert_venue_active assert_manager_authorized assert_instruction_allowed
    hash_strategy_leaf leaf_bytes apply_operators apply_operator verify_strategy_proof
    hash_strategy_node consume_manager_rolling_limit consume_rolling_limit assert_not_executing
prepare_run = refl

abbrev ran : ManageWorld T
ran = value_or managed (manage_vault hash addresses T clock manage_accounts invoke args managed)

prepare-guards_example :
    (check_manage hash addresses T clock manage_accounts args managed_vault flushed.policy ≢ ok tt)
    × (update_strategy_policy 5 9 managed_vault flushed.policy change ≢ ok managed.policy)
    × (execute_strategy_policy_update 9 50 6_000 managed_vault flushed.policy queued
        ≢ ok managed.policy)
    × (pause_strategy_policy 5 9 managed_vault flushed.policy ≢ ok managed.policy)
    × (close_strategy_policy 5 9 managed_vault flushed.policy ≢ ok tt)
prepare-guards_example =
    prepare-guards hash addresses T clock manage_accounts args managed prepare_run manage_accounts
      args managed_vault 5 9 50 6_000 change queued managed.policy

verify_strategy_proof-Leaf_example :
    verify_strategy_proof hash
      (hash (strategy_leaf_domain ++ (7 ∷ [])))
      (hash (strategy_leaf_domain ++ (9 ∷ 9 ∷ [])) ∷ [])
      (root_of hash (fork (tip (7 ∷ [])) (tip (9 ∷ 9 ∷ []))))
    ≡ ok tt
verify_strategy_proof-Leaf_example =
    verify_strategy_proof-Leaf hash (fork (tip (7 ∷ [])) (tip (9 ∷ 9 ∷ []))) (7 ∷ [])
      (hash (strategy_leaf_domain ++ (9 ∷ 9 ∷ [])) ∷ [])
      (left (tip (7 ∷ [])) (tip (9 ∷ 9 ∷ [])) (7 ∷ []) [] (here (7 ∷ []))) (omega arith)

-- The amount is not part of the leaf: 40 and 41 give the same one.
abbrev hashed : ℕ → Bytes32 × Option ℕ
hashed amount = value_or (0, none) (hash_strategy_leaf hash 902 (leaf_of amount))

hashed_run : hash_strategy_leaf hash 902 (leaf_of 40) ≡ ok (hashed 40)
unfolding hash_strategy_leaf leaf_bytes apply_operators apply_operator
hashed_run = refl

hashed_other_run : hash_strategy_leaf hash 902 (leaf_of 41) ≡ ok (hashed 41)
unfolding hash_strategy_leaf leaf_bytes apply_operators apply_operator
hashed_other_run = refl

hashed_same : (hashed 40).0 ≡ (hashed 41).0
unfolding hash_strategy_leaf leaf_bytes apply_operators apply_operator
hashed_same = refl

hash_strategy_leaf-SameAction_example :
    SameAction (leaf_of 40) (leaf_of 41)
    ⊎ Collision hash (LeafInput 902 (leaf_of 40)) (LeafInput 902 (leaf_of 41))
hash_strategy_leaf-SameAction_example =
    hash_strategy_leaf-SameAction hash 902 (leaf_of 40) (leaf_of 41) hashed_run hashed_other_run
      hashed_same (omega arith) (omega arith, omega arith, omega arith, omega arith)
      (omega arith, omega arith, omega arith, omega arith)
