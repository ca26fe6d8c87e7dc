-- ===== src/Strategy/Guarantees.antt =====
-- What a managed call that succeeds has met, and what it leaves.
use solana_vault_v.Base.{ℕ, ◌≡◌, ◌≢◌, ap, true, Option, ok, arith, >>=-eq-ok}
use solana_vault_v.Bytes.{Bytes}
use solana_vault_v.State.{
  Pubkey, Bytes32, Vault, StrategyPolicy, assert_policy_active, assert_not_executing,
}
use solana_vault_v.Runtime.{Addresses, Clock}
use solana_vault_v.Runtime.Token.{TokenProgram}
use solana_vault_v.Strategy.Policy.{
  StrategyPolicyUpdateArgs, PendingStrategyPolicyUpdate, apply_strategy_policy_update,
  update_strategy_policy, pause_strategy_policy, close_strategy_policy,
  execute_strategy_policy_update,
}
use solana_vault_v.Strategy.Merkle.{hash_strategy_leaf, verify_strategy_proof}
use solana_vault_v.Strategy.Manage.{
  ManageArgs, ManageAccounts, ManageWorld, action, check_manage, consume_limit_amount, prepare,
}

module _ (hash : Bytes → Bytes32) (addresses : Addresses) (T : TokenProgram) (clock : Clock)
    (accounts : ManageAccounts) where
  open accounts use {strategist, share_mint, vault_key, venue_entry, vault_venue, target_program}
  open T use {Tokens, supply}

  prepare-steps :
      (args : ManageArgs) (w : ManageWorld T) {w' : ManageWorld T}
      → prepare hash addresses T clock accounts args w ≡ ok w'
      → (leaf : Bytes32) × (limit_amount : Option ℕ) × (v : Vault) × (check_manage hash addresses T
            clock accounts args w.vault w.policy
          ≡ ok tt)
        × (hash_strategy_leaf hash addresses.vault_program
              (action hash addresses T clock accounts args)
            ≡ ok (leaf, limit_amount))
        × (verify_strategy_proof hash leaf args.proof w.policy.merkle_root ≡ ok tt)
        × (consume_limit_amount w.vault limit_amount clock.slot ≡ ok v)
        × (w' ≡ record w { vault = v; policy = record (w.policy) { executing = true } })
  unfolding prepare
  prepare-steps args w h =
      let (_, checked, h1) =
        >>=-eq-ok (check_manage hash addresses T clock accounts args w.vault w.policy) _ h in
      let ((leaf, limit_amount), hashed, h2) =
        >>=-eq-ok
          (hash_strategy_leaf hash addresses.vault_program
            (action hash addresses T clock accounts args))
          _ h1 in
      let (_, verified, h3) =
        >>=-eq-ok (verify_strategy_proof hash leaf args.proof w.policy.merkle_root) _ h2 in
      let (v, consumed, h4) =
        >>=-eq-ok (consume_limit_amount w.vault limit_amount clock.slot) _ h3 in
      (leaf, limit_amount, v, checked, hashed, verified, consumed, ground arith)

  -- While a managed call runs, the policy that was written out before it lets nothing through: no
  -- second managed call, no update at once or from the queue, no pause and no closing succeeds on it,
  -- whoever signs and whatever accounts are passed.
  pub prepare-guards :
      (args : ManageArgs) (w : ManageWorld T) {flushed : ManageWorld T}
      → prepare hash addresses T clock accounts args w ≡ ok flushed
      → (others : ManageAccounts) (again : ManageArgs) (v : Vault) (authority key policy : Pubkey)
        (slot : ℕ) (change : StrategyPolicyUpdateArgs) (queued : PendingStrategyPolicyUpdate)
        (p' : StrategyPolicy)
      → (check_manage hash addresses T clock others again v flushed.policy ≢ ok tt)
        × (update_strategy_policy authority key v flushed.policy change ≢ ok p')
        × (execute_strategy_policy_update key policy slot v flushed.policy queued ≢ ok p')
        × (pause_strategy_policy authority key v flushed.policy ≢ ok p')
        × (close_strategy_policy authority key v flushed.policy ≢ ok tt)
  unfolding update_strategy_policy execute_strategy_policy_update pause_strategy_policy
      close_strategy_policy apply_strategy_policy_update assert_not_executing check_manage
      assert_policy_active
  prepare-guards args w {flushed} h others again v authority key policy slot change queued p' =
      let (_, _, _, _, _, _, _, written) = prepare-steps args w h in
      let busy : flushed.policy.executing ≡ true = ap (λ f. f.policy.executing) written in
      (
        λ k. ground arith,
        λ k. ground arith,
        λ k. ground arith,
        λ k. ground arith,
        λ k. ground arith,
      )
