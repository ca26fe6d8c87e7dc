-- ===== src/Strategy/Binding.antt =====
-- What the bytes of a leaf determine of the action.
use solana_vault_v.Base.{
  ℕ, ◌≤◌, ◌<◌, ◌≡◌, ◌⊎◌, inl, inr, refl, sym, ap, ◌∙◌, List, [], ◌∷◌, ◌++◌, Option, none, ok, arith,
  >>=-eq-ok, u64_max,
}
use solana_vault_v.Bytes.{
  Bytes, length, take, slice, get_index, drop, capacity, to_be_onto-append, to_be_onto-injective,
  Bytes-cases, to_le_bytes, to_le_bytes-injective, append-injective, length-take, append_assoc,
  append_nil,
}
use solana_vault_v.Error.{or_fail, policy_operator_out_of_bounds}
use solana_vault_v.State.{Pubkey, Bytes32}
use solana_vault_v.Strategy.Merkle.{
  StrategyLeaf, PolicyOperator, ingest_instruction, ingest_account, manager_limit_amount, LeafState,
  as_ref, leaf_prefix, leaf_bytes, apply_operator, apply_operators, hash_strategy_leaf,
  strategy_leaf_domain, flag_byte,
}
use solana_vault_v.Strategy.Proofs.{Collision, Fits32}

apply_operator-extends :
    (input : StrategyLeaf) (o : PolicyOperator) (s : LeafState) {s' : LeafState}
    → apply_operator input o s ≡ ok s'
    → (rest : Bytes) × (s'.bytes ≡ s.bytes ++ rest)
unfolding apply_operator
apply_operator-extends input (ingest_instruction offset len) s h = (
  0 ∷ (to_le_bytes 2 offset ++ (to_le_bytes 2 len ++ slice offset len input.instruction_data)),
  ground arith,
)
apply_operator-extends input (ingest_account index) s h =
    let (account, _, h1) =
      >>=-eq-ok (or_fail (get_index index input.accounts) policy_operator_out_of_bounds) _ h in
    (
      1
          ∷ index
          ∷ (as_ref account.key
              ++ (flag_byte account.is_signer ∷ flag_byte account.is_writable ∷ [])),
      ground arith,
    )
apply_operator-extends input (manager_limit_amount offset) s h =
    (2 ∷ to_le_bytes 2 offset, ground arith)

apply_operators-extends :
    (input : StrategyLeaf) (os : List PolicyOperator) (s : LeafState) {s' : LeafState}
    → apply_operators input os s ≡ ok s'
    → (rest : Bytes) × (s'.bytes ≡ s.bytes ++ rest)
unfolding apply_operators
apply_operators-extends input [] s {s'} h =
    let same : s.bytes ≡ s'.bytes = ground arith in ([], sym same ∙ sym (append_nil s.bytes))
apply_operators-extends input (o ∷ os) s {s'} h =
    let (s1, one, h1) = >>=-eq-ok (apply_operator input o s) _ h in
    let (a, first) = apply_operator-extends input o s one in
    let (b, more) = apply_operators-extends input os s1 {s' = s'} h1 in
    (a ++ b, more ∙ ap (λ x. x ++ b) first ∙ append_assoc s.bytes a b)

abbrev first_byte : Bytes → ℕ
first_byte [] = 0
first_byte (b ∷ _) = b

-- A key stands first in both strings.
peel_key :
    (n m : ℕ) (x y c d : Bytes)
    → Fits32 n
    → Fits32 m
    → (as_ref n ++ x) ++ c ≡ (as_ref m ++ y) ++ d
    → (n ≡ m) × (x ++ c ≡ y ++ d)
peel_key n m x y c d small small' e =
    let e' : as_ref n ++ (x ++ c) ≡ as_ref m ++ (y ++ d) =
      sym (append_assoc (as_ref n) x c) ∙ e ∙ append_assoc (as_ref m) y d in
    to_be_onto-injective 32 n m (x ++ c) (y ++ d) small small'
      (sym (to_be_onto-append 32 n [] (x ++ c)) ∙ e' ∙ to_be_onto-append 32 m [] (y ++ d))

-- A machine integer stands first in both strings.
peel_number :
    (width n m : ℕ) (x y c d : Bytes)
    → n < capacity width
    → m < capacity width
    → (to_le_bytes width n ++ x) ++ c ≡ (to_le_bytes width m ++ y) ++ d
    → (n ≡ m) × (x ++ c ≡ y ++ d)
peel_number width n m x y c d small small' e =
    to_le_bytes-injective width n m (x ++ c) (y ++ d) small small'
      (sym (append_assoc (to_le_bytes width n) x c) ∙ e ∙ append_assoc (to_le_bytes width m) y d)

-- The bytes that a leaf hashes.
abbrev pub LeafInput : Pubkey → StrategyLeaf → Bytes → Type 0
LeafInput vault_program i x = (s : LeafState) × (leaf_bytes vault_program i ≡ ok s) × (x ≡ s.bytes)

-- What Rust's types bound in a leaf.
abbrev pub FitsLeaf : StrategyLeaf → Type 0
FitsLeaf i =
    Fits32 i.vault × Fits32 i.strategist × Fits32 i.target_program × (i.policy_version ≤ u64_max)

-- The parts of an action that every leaf commits to.
abbrev pub SameAction : StrategyLeaf → StrategyLeaf → Type 0
SameAction i j =
    (i.vault ≡ j.vault)
    × (i.strategist ≡ j.strategist)
    × (i.policy_version ≡ j.policy_version)
    × (i.target_program ≡ j.target_program)
    × (take 8 i.instruction_data ≡ take 8 j.instruction_data)
    × (length i.instruction_data ≡ length j.instruction_data)
    × (length i.accounts ≡ length j.accounts)
    × (length i.operators ≡ length j.operators)

-- The lengths that are checked before a leaf is built, and the bytes that it starts with.
leaf_bytes-starts :
    (vault_program : Pubkey) (i : StrategyLeaf) {s : LeafState}
    → leaf_bytes vault_program i ≡ ok s
    → (8 ≤ length i.instruction_data)
      × (length i.instruction_data ≤ 1_024)
      × (length i.accounts ≤ 64)
      × ((rest : Bytes) × (s.bytes ≡ leaf_prefix vault_program i ++ rest))
unfolding leaf_bytes
leaf_bytes-starts vault_program i {s} h =
    let start : LeafState = record {
      bytes = leaf_prefix vault_program i;
      limit_amount = none;
      ingested = 0;
    } in
    let (lower, upper, few, applied) : (8 ≤ length i.instruction_data)
        × (length i.instruction_data ≤ 1_024)
        × (length i.accounts ≤ 64)
        × (apply_operators i i.operators start ≡ ok s) =
      (ground arith, ground arith, ground arith, ground arith) in
    (lower, upper, few, apply_operators-extends i i.operators start applied)

-- What follows each part of the beginning of a leaf.
abbrev after_accounts : StrategyLeaf → Bytes
after_accounts i = length i.operators ∷ []

abbrev after_len : StrategyLeaf → Bytes
after_len i = to_le_bytes 2 (length i.accounts) ++ after_accounts i

abbrev after_head : StrategyLeaf → Bytes
after_head i = to_le_bytes 4 (length i.instruction_data) ++ after_len i

abbrev after_target : StrategyLeaf → Bytes
after_target i = take 8 i.instruction_data ++ after_head i

abbrev after_version : StrategyLeaf → Bytes
after_version i = as_ref i.target_program ++ after_target i

abbrev after_strategist : StrategyLeaf → Bytes
after_strategist i = to_le_bytes 8 i.policy_version ++ after_version i

abbrev after_vault : StrategyLeaf → Bytes
after_vault i = as_ref i.strategist ++ after_strategist i

abbrev after_program : StrategyLeaf → Bytes
after_program i = as_ref i.vault ++ after_vault i

-- Two leaves of the same bytes are of the same action.
same_bytes-SameAction :
    (vault_program : Pubkey) (i j : StrategyLeaf) {s s' : LeafState}
    → leaf_bytes vault_program i ≡ ok s
    → leaf_bytes vault_program j ≡ ok s'
    → Fits32 vault_program
    → FitsLeaf i
    → FitsLeaf j
    → s.bytes ≡ s'.bytes
    → SameAction i j
same_bytes-SameAction vp i j {s} {s'} h k own (iv, is, it, iw) (jv, js, jt, jw) same =
    let (i8, imax, iacc, (c, starts)) = leaf_bytes-starts vp i h in
    let (j8, jmax, jacc, (d, starts')) = leaf_bytes-starts vp j k in
    let e0 : leaf_prefix vp i ++ c ≡ leaf_prefix vp j ++ d = sym starts ∙ same ∙ starts' in
    let (_, e1) =
      peel_key vp vp (after_program i) (after_program j) c d own own (ap (drop 38) e0) in
    let (vault, e2) = peel_key i.vault j.vault (after_vault i) (after_vault j) c d iv jv e1 in
    let (strategist, e3) =
      peel_key i.strategist j.strategist (after_strategist i) (after_strategist j) c d is js e2 in
    let (version, e4) =
      peel_number 8 i.policy_version j.policy_version (after_version i) (after_version j) c d
        (omega arith) (omega arith) e3 in
    let (target, e5) =
      peel_key i.target_program j.target_program (after_target i) (after_target j) c d it jt e4 in
    let heads : length (take 8 i.instruction_data) ≡ length (take 8 j.instruction_data) =
      length-take 8 i.instruction_data i8 ∙ sym (length-take 8 j.instruction_data j8) in
    let (head, e6) =
      append-injective (take 8 i.instruction_data) (take 8 j.instruction_data) (after_head i ++ c)
        (after_head j ++ d) heads
        (sym (append_assoc (take 8 i.instruction_data) (after_head i) c)
          ∙ e5
          ∙ append_assoc (take 8 j.instruction_data) (after_head j) d) in
    let (len, e7) =
      peel_number 4 (length i.instruction_data) (length j.instruction_data) (after_len i)
        (after_len j) c d (omega arith) (omega arith) e6 in
    let (accounts, e8) =
      peel_number 2 (length i.accounts) (length j.accounts) (after_accounts i) (after_accounts j) c
        d (omega arith) (omega arith) e7 in
    let operators : length i.operators ≡ length j.operators = ap first_byte e8 in
    (vault, strategist, version, target, head, len, accounts, operators)

-- Two actions with the same leaf agree in the vault, the strategist, the policy's version, the
-- program called, the first eight bytes of the instruction, and the numbers of data bytes, accounts
-- and operators - or the bytes that the two leaves hash are different and have one hash (for values
-- of the types' sizes).
pub hash_strategy_leaf-SameAction :
    (hash : Bytes → Bytes32) (vault_program : Pubkey) (i j : StrategyLeaf)
    {a b : Bytes32 × Option ℕ}
    → hash_strategy_leaf hash vault_program i ≡ ok a
    → hash_strategy_leaf hash vault_program j ≡ ok b
    → a.0 ≡ b.0
    → Fits32 vault_program
    → FitsLeaf i
    → FitsLeaf j
    → SameAction i j ⊎ Collision hash (LeafInput vault_program i) (LeafInput vault_program j)
unfolding hash_strategy_leaf
hash_strategy_leaf-SameAction hash vp i j {a} {b} h k same own fi fj =
    let (s, built, h1) = >>=-eq-ok (leaf_bytes vp i) _ h in
    let (s', built', k1) = >>=-eq-ok (leaf_bytes vp j) _ k in
    let (left, right) : (hash s.bytes ≡ a.0) × (hash s'.bytes ≡ b.0) =
      (ground arith, ground arith) in
    elim (Bytes-cases s.bytes s'.bytes) [
      | inl equal ↦ inl (same_bytes-SameAction vp i j built built' own fi fj equal)
      | inr other ↦
          inr (
            s.bytes,
            s'.bytes,
            (s, built, refl),
            (s', built', refl),
            other,
            left ∙ same ∙ sym right,
          )
    ]

-- The bytes of a leaf start with its domain.
pub leaf_bytes-domain :
    (vault_program : Pubkey) (i : StrategyLeaf) {s : LeafState}
    → leaf_bytes vault_program i ≡ ok s
    → (rest : Bytes) × (s.bytes ≡ strategy_leaf_domain ++ rest)
leaf_bytes-domain vault_program i h =
    let (_, _, _, (c, starts)) = leaf_bytes-starts vault_program i h in
    ((as_ref vault_program ++ after_program i) ++ c, starts)
