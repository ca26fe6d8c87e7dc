-- ===== src/Venues/WithdrawLimit.antt =====
-- How much may be withdrawn within the length of a window.
use solana_vault_v.Base.{
  ℕ, ◌+◌, ◌*◌, ◌≤◌, ◌<◌, ◌≡◌, ◌⊎◌, inl, inr, refl, sym, ap, ◌∙◌, List, some, [], ◌∷◌, ok, err,
  arith, Result-cases,
}
use solana_vault_v.Error.{Outcome}
use solana_vault_v.State.{Pubkey, Vault}
use solana_vault_v.Limits.{
  WindowState, consume_rolling_limit, consume_external_withdraw_rolling_limit,
}
use solana_vault_v.Limits.Window.{Attempt, attempt, consumed, Within, consumed-le_twice}
use solana_vault_v.Runtime.{Clock}
use solana_vault_v.Runtime.Token.{TokenProgram}
use solana_vault_v.Requests.Backing.{transfer-covers}
use solana_vault_v.Venues.Withdraw.{WithdrawAccounts, WithdrawWorld, withdraw_assets}

-- The window of withdrawals that a vault keeps.
abbrev pub withdraw_window : Vault → WindowState
withdraw_window v = record {
  start_slot = v.external_withdraw_window_start_slot;
  used = v.external_withdraw_window_amount;
}

-- One call of `withdraw_assets`.
pub record WithdrawCall : Type 0 where
  pub clock : Clock
  pub accounts : WithdrawAccounts
  pub amount : ℕ

module _ (T : TokenProgram) where
  -- A failed call reverts and withdraws nothing.
  abbrev pub settle_call : WithdrawWorld T → ℕ → Outcome (WithdrawWorld T) → WithdrawWorld T × ℕ
  settle_call w amount (ok w') = (w', amount)
  settle_call w amount (err _) = (w, 0)

  unfoldable pub call_withdraw : WithdrawCall → WithdrawWorld T → WithdrawWorld T × ℕ
  call_withdraw c w = settle_call w c.amount (withdraw_assets T c.clock c.accounts c.amount w)

  -- What is left after several calls, and how much they have withdrawn.
  abbrev pub after_calls : List WithdrawCall → WithdrawWorld T → WithdrawWorld T
  after_calls [] w = w
  after_calls (c ∷ rest) w = after_calls rest (call_withdraw c w).0

  abbrev pub withdrawn : List WithdrawCall → WithdrawWorld T → ℕ
  withdrawn [] w = 0
  withdrawn (c ∷ rest) w = (call_withdraw c w).1 + withdrawn rest (call_withdraw c w).0

  -- Every call comes in the `window_slots` slots from `first` on.
  abbrev pub CallsWithin : ℕ → ℕ → List WithdrawCall → Type 0
  CallsWithin window_slots first [] = Unit {0}
  CallsWithin window_slots first (c ∷ rest) =
      (first ≤ c.clock.slot)
      × (c.clock.slot < first + window_slots)
      × CallsWithin window_slots first rest

  -- A call that succeeds has consumed its amount and moved it.
  withdraw_assets-eq_ok :
      (clock : Clock) (accounts : WithdrawAccounts) (amount : ℕ) (w : WithdrawWorld T)
      {w' : WithdrawWorld T}
      → withdraw_assets T clock accounts amount w ≡ ok w'
      → (consume_external_withdraw_rolling_limit w.vault amount clock.slot ≡ ok w'.vault)
        × (T.transfer w.tokens accounts.vault_token_account accounts.recipient_token_account amount
            ≡ some w'.tokens)
  unfolding withdraw_assets
  withdraw_assets-eq_ok clock accounts amount w h = (ground arith, ground arith)

  consume_external_withdraw_rolling_limit-window :
      (v : Vault) (amount slot : ℕ) {v' : Vault}
      → consume_external_withdraw_rolling_limit v amount slot ≡ ok v'
      → (consume_rolling_limit amount slot v.external_withdraw_rolling_limit
            v.rolling_limit_window_slots
            (withdraw_window v)
          ≡ ok (withdraw_window v'))
        × (v'.external_withdraw_rolling_limit ≡ v.external_withdraw_rolling_limit)
        × (v'.rolling_limit_window_slots ≡ v.rolling_limit_window_slots)
  unfolding consume_external_withdraw_rolling_limit
  consume_external_withdraw_rolling_limit-window v amount slot h =
      (ground arith, ground arith, ground arith)

  -- One call is an attempt on the window, or leaves everything as it was.
  record Settled (c : WithdrawCall) (w w' : WithdrawWorld T) (n : ℕ) : Type 0 where
    limit : w'.vault.external_withdraw_rolling_limit ≡ w.vault.external_withdraw_rolling_limit
    slots : w'.vault.rolling_limit_window_slots ≡ w.vault.rolling_limit_window_slots
    window :
        let a : Attempt = record { amount = c.amount; slot = c.clock.slot } in
        let l = w.vault.external_withdraw_rolling_limit in
        let s = w.vault.rolling_limit_window_slots in
        ((n ≡ 0) × (w' ≡ w))
        ⊎ ((attempt l s a (withdraw_window w.vault) ≡ (withdraw_window w'.vault, n)))
    loses : (k : Pubkey) → T.balance w.tokens k ≤ T.balance w'.tokens k + n

  call_withdraw-Settled :
      (c : WithdrawCall) (w : WithdrawWorld T)
      → Settled c w (call_withdraw c w).0 (call_withdraw c w).1
  unfolding call_withdraw attempt
  call_withdraw-Settled c w =
      elim (Result-cases (withdraw_assets T c.clock c.accounts c.amount w)) [
        | inl (w', h) ↦
            let (consumes, moves) = withdraw_assets-eq_ok c.clock c.accounts c.amount w h in
            let (steps, same_limit, same_slots) =
              consume_external_withdraw_rolling_limit-window w.vault c.amount c.clock.slot
                consumes in
            rw h (record {
              limit = same_limit;
              slots = same_slots;
              window = inr (rw steps refl);
              loses = λ k. ground (
                arith,
                transfer-covers T w.tokens w'.tokens c.accounts.vault_token_account
                    c.accounts.recipient_token_account k c.amount moves,
              );
            })
        | inr (e, h) ↦ rw h (record {
          limit = refl;
          slots = refl;
          window = inl (refl, refl);
          loses = λ k. omega arith;
        })
      ]

  -- The attempts that the calls come to.
  attempts :
      (limit window_slots first : ℕ) (calls : List WithdrawCall) (w : WithdrawWorld T)
      → w.vault.external_withdraw_rolling_limit ≡ limit
      → w.vault.rolling_limit_window_slots ≡ window_slots
      → CallsWithin window_slots first calls
      → (made : List Attempt) × Within limit window_slots first made
        × (consumed limit window_slots made (withdraw_window w.vault) ≡ withdrawn calls w)
  unfolding consumed
  attempts limit window_slots first [] w l s within = ([], tt, refl)
  attempts limit window_slots first (c ∷ rest) w l s (lo, hi, within) =
      let step = call_withdraw-Settled c w in
      let (made, inside, same) =
        attempts limit window_slots first rest (call_withdraw c w).0 (step.limit ∙ l)
          (step.slots ∙ s) within in
      elim step.window [
        | inl (nothing, still) ↦
            let window = ap (λ x. withdraw_window x.vault) still in
            (
              made,
              inside,
              ap (consumed limit window_slots made) (sym window) ∙ same ∙ omega (arith, nothing),
            )
        | inr moved ↦
            let a : Attempt = record { amount = c.amount; slot = c.clock.slot } in
            let from = withdraw_window w.vault in
            let tried =
              ap (λ x. attempt x window_slots a from) (sym l)
              ∙ ap (λ x. attempt w.vault.external_withdraw_rolling_limit x a from) (sym s)
              ∙ moved in
            (a ∷ made, (lo, hi, inside), rw tried (omega (arith, same)))
      ]

  calls-lose :
      (calls : List WithdrawCall) (w : WithdrawWorld T) (k : Pubkey)
      → T.balance w.tokens k ≤ T.balance (after_calls calls w).tokens k + withdrawn calls w
  calls-lose [] w k = omega arith
  calls-lose (c ∷ rest) w k =
      let step = call_withdraw-Settled c w in
      omega (arith, step.loses k, calls-lose rest (call_withdraw c w).0 k)

  -- While a limit is set and not exceeded at the start: all the withdrawals that are called for
  -- within any `rolling_limit_window_slots` consecutive slots, to whatever accounts, together take
  -- at most twice the limit, less what is already used; and no token account has lost more.
  pub withdrawn-le_twice :
      (first : ℕ) (calls : List WithdrawCall) (w : WithdrawWorld T) (k : Pubkey)
      → 0 < w.vault.external_withdraw_rolling_limit
      → w.vault.external_withdraw_window_amount ≤ w.vault.external_withdraw_rolling_limit
      → CallsWithin w.vault.rolling_limit_window_slots first calls
      → (withdrawn calls w + w.vault.external_withdraw_window_amount
          ≤ 2 * w.vault.external_withdraw_rolling_limit)
        × (T.balance w.tokens k + w.vault.external_withdraw_window_amount
            ≤ T.balance (after_calls calls w).tokens k
              + 2 * w.vault.external_withdraw_rolling_limit)
  withdrawn-le_twice first calls w k set used within =
      let l = w.vault.external_withdraw_rolling_limit in
      let s = w.vault.rolling_limit_window_slots in
      let (made, inside, same) = attempts l s first calls w refl refl within in
      let bound = consumed-le_twice l s first made (withdraw_window w.vault) set used inside in
      (omega (arith, bound, same), omega (arith, bound, same, calls-lose calls w k))
