-- ===== src/Strategy/Merkle.antt =====
-- Merkle proofs of allowed actions (programs/async_vault_v2/src/utils/merkle.rs): the leaf that commits to
-- an action, the node over two hashes, and the check of a proof. SHA-256 is a parameter.
use solana_vault_v.Base.{
  ℕ, Bool, not, ◌+◌, List, [], ◌∷◌, ◌++◌, Option, none, some, ok, ◌>>=◌, ◌>>◌, ltb, leb, ◌==◌,
  if◌then◌else◌, is_some, u64_max, checked_add,
}
use solana_vault_v.Bytes.{
  Bytes, length, take, slice, to_le_bytes, from_le_bytes, to_be_bytes, get_index,
}
use solana_vault_v.Error.{
  Outcome, require, or_fail, invalid_venue_instruction, instruction_data_too_large,
  too_many_cpi_accounts, invalid_policy_operator, policy_operator_out_of_bounds,
  policy_ingestion_limit_exceeded, duplicate_manager_limit_operator, merkle_proof_too_deep,
  merkle_proof_invalid,
}
use solana_vault_v.State.{⊤, Pubkey, Bytes32}

-- b"async-vault-v2/strategy-policy-leaf/v1" and b"async-vault-v2/strategy-policy-node/v1"
abbrev pub strategy_leaf_domain : Bytes
strategy_leaf_domain =
    97 ∷ 115 ∷ 121 ∷ 110 ∷ 99 ∷ 45 ∷ 118 ∷ 97 ∷ 117 ∷ 108 ∷ 116 ∷ 45 ∷ 118 ∷ 50 ∷ 47 ∷ 115 ∷ 116
    ∷ 114 ∷ 97 ∷ 116 ∷ 101 ∷ 103 ∷ 121 ∷ 45 ∷ 112 ∷ 111 ∷ 108 ∷ 105 ∷ 99 ∷ 121 ∷ 45 ∷ 108 ∷ 101 ∷ 97
    ∷ 102 ∷ 47 ∷ 118 ∷ 49 ∷ []

abbrev pub strategy_node_domain : Bytes
strategy_node_domain =
    97 ∷ 115 ∷ 121 ∷ 110 ∷ 99 ∷ 45 ∷ 118 ∷ 97 ∷ 117 ∷ 108 ∷ 116 ∷ 45 ∷ 118 ∷ 50 ∷ 47 ∷ 115 ∷ 116
    ∷ 114 ∷ 97 ∷ 116 ∷ 101 ∷ 103 ∷ 121 ∷ 45 ∷ 112 ∷ 111 ∷ 108 ∷ 105 ∷ 99 ∷ 121 ∷ 45 ∷ 110 ∷ 111
    ∷ 100 ∷ 101 ∷ 47 ∷ 118 ∷ 49 ∷ []

abbrev pub max_merkle_proof_depth : ℕ
max_merkle_proof_depth = 12

abbrev pub max_policy_operators : ℕ
max_policy_operators = 32

abbrev pub max_policy_ingested_instruction_bytes : ℕ
max_policy_ingested_instruction_bytes = 2_048

abbrev pub max_manage_cpi_accounts : ℕ
max_manage_cpi_accounts = 64

abbrev pub max_manage_ix_data_len : ℕ
max_manage_ix_data_len = 1_024

pub data PolicyOperator : Type 0 where
  -- a range of the instruction data: offset, length
  ingest_instruction : ℕ → ℕ → PolicyOperator
  -- an account by its index
  ingest_account : ℕ → PolicyOperator
  -- the offset of an amount that the manager's rolling limit counts
  manager_limit_amount : ℕ → PolicyOperator

pub record PolicyAccountMeta : Type 0 where
  pub key : Pubkey
  pub is_signer : Bool
  pub is_writable : Bool

pub record StrategyLeaf : Type 0 where
  pub vault : Pubkey
  pub strategist : Pubkey
  pub policy_version : ℕ  -- u64
  pub target_program : Pubkey
  pub instruction_data : Bytes
  pub accounts : List PolicyAccountMeta
  pub operators : List PolicyOperator

-- A key or a hash as its 32 bytes, the first the most significant.
abbrev pub as_ref : ℕ → Bytes
as_ref k = to_be_bytes 32 k

-- `u8::from(flag)`
abbrev pub flag_byte : Bool → ℕ
flag_byte b = if b then 1 else 0

-- What the loop over the operators carries.
pub record LeafState : Type 0 where
  pub bytes : Bytes
  pub limit_amount : Option ℕ
  pub ingested : ℕ

-- `slice.get(from..to)`
abbrev pub get_range : ℕ → ℕ → Bytes → Option Bytes
get_range from len xs = if leb (from + len) (length xs) then some (slice from len xs) else none

unfoldable pub apply_operator : StrategyLeaf → PolicyOperator → LeafState → Outcome LeafState
apply_operator input (ingest_instruction offset len) s = do
  require (ltb 0 len) invalid_policy_operator
  selected ← or_fail (get_range offset len input.instruction_data) policy_operator_out_of_bounds
  total ← or_fail (checked_add u64_max s.ingested (length selected)) policy_ingestion_limit_exceeded
  require (leb total max_policy_ingested_instruction_bytes) policy_ingestion_limit_exceeded
  ok (record s {
    bytes = s.bytes ++ (0 ∷ (to_le_bytes 2 offset ++ (to_le_bytes 2 len ++ selected)));
    ingested = total;
  })
apply_operator input (ingest_account index) s = do
  account ← or_fail (get_index index input.accounts) policy_operator_out_of_bounds
  ok (record s {
    bytes =
        s.bytes
        ++ (1
            ∷ index
            ∷ (as_ref account.key
                ++ (flag_byte account.is_signer ∷ flag_byte account.is_writable ∷ [])));
  })
apply_operator input (manager_limit_amount offset) s = do
  require (not (is_some s.limit_amount)) duplicate_manager_limit_operator
  raw ← or_fail (get_range offset 8 input.instruction_data) policy_operator_out_of_bounds
  ok (record s {
    bytes = s.bytes ++ (2 ∷ to_le_bytes 2 offset);
    limit_amount = some (from_le_bytes raw);
  })

unfoldable pub apply_operators : StrategyLeaf → List PolicyOperator → LeafState → Outcome LeafState
apply_operators input [] s = ok s
apply_operators input (o ∷ rest) s = do s' ← apply_operator input o s; apply_operators input rest s'

-- The part of the leaf before the operators.
abbrev pub leaf_prefix : Pubkey → StrategyLeaf → Bytes
leaf_prefix vault_program input =
    strategy_leaf_domain
    ++ (as_ref vault_program
        ++ (as_ref input.vault
            ++ (as_ref input.strategist
                ++ (to_le_bytes 8 input.policy_version
                    ++ (as_ref input.target_program
                        ++ (take 8 input.instruction_data
                            ++ (to_le_bytes 4 (length input.instruction_data)
                                ++ (to_le_bytes 2 (length input.accounts)
                                    ++ (length input.operators ∷ [])))))))))

-- The bytes that are hashed, and the amount for the rolling limit.
unfoldable pub leaf_bytes : Pubkey → StrategyLeaf → Outcome LeafState
leaf_bytes vault_program input = do
  require (leb 8 (length input.instruction_data)) invalid_venue_instruction
  require (leb (length input.instruction_data) max_manage_ix_data_len) instruction_data_too_large
  require (leb (length input.accounts) max_manage_cpi_accounts) too_many_cpi_accounts
  require (leb (length input.operators) max_policy_operators) invalid_policy_operator
  apply_operators input input.operators
      (record { bytes = leaf_prefix vault_program input; limit_amount = none; ingested = 0 })

module _ (hash : Bytes → Bytes32) where
  unfoldable pub hash_strategy_leaf : Pubkey → StrategyLeaf → Outcome (Bytes32 × Option ℕ)
  hash_strategy_leaf vault_program input = do
    s ← leaf_bytes vault_program input
    ok (hash s.bytes, s.limit_amount)

  abbrev pub node_bytes : Bytes32 → Bytes32 → Bytes
  node_bytes left right = strategy_node_domain ++ (as_ref left ++ as_ref right)

  -- The smaller hash stands on the left.
  unfoldable pub hash_strategy_node : Bytes32 → Bytes32 → Bytes32
  hash_strategy_node left right =
      if leb left right then hash (node_bytes left right) else hash (node_bytes right left)

  abbrev pub fold_proof : Bytes32 → List Bytes32 → Bytes32
  fold_proof leaf [] = leaf
  fold_proof leaf (h ∷ rest) = fold_proof (hash_strategy_node leaf h) rest

  unfoldable pub verify_strategy_proof : Bytes32 → List Bytes32 → Bytes32 → Outcome ⊤
  verify_strategy_proof leaf proof root = do
    require (leb (length proof) max_merkle_proof_depth) merkle_proof_too_deep
    require (fold_proof leaf proof == root) merkle_proof_invalid
