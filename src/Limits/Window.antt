-- ===== src/Limits/Window.antt =====
-- What a rolling limit guarantees over any sequence of operations.
use solana_vault_v.Base.{
  ℕ, ◌+◌, ◌*◌, ◌≤◌, ◌<◌, ◌≡◌, ◌⊎◌, inl, inr, Bool-cases, if◌then◌else◌, ok, err, List, [], ◌∷◌,
  arith, u64_max, leb,
}
use solana_vault_v.Error.{Outcome, program, rolling_limit_exceeded}
use solana_vault_v.Limits.{WindowState, current_window, consume_rolling_limit}

-- One attempt to consume: an amount at a slot.
pub record Attempt : Type 0 where
  pub amount : ℕ
  pub slot : ℕ

module _ (limit window_slots : ℕ) where
  -- A failed attempt reverts its transaction: the window is kept and nothing is consumed.
  abbrev pub settle : ℕ → WindowState → Outcome WindowState → WindowState × ℕ
  settle amount w (ok w') = (w', amount)
  settle amount w (err _) = (w, 0)

  unfoldable pub attempt : Attempt → WindowState → WindowState × ℕ
  attempt a w = settle a.amount w (consume_rolling_limit a.amount a.slot limit window_slots w)

  -- The total that a sequence of attempts consumes.
  unfoldable pub consumed : List Attempt → WindowState → ℕ
  consumed [] w = 0
  consumed (a ∷ rest) w = (attempt a w).1 + consumed rest (attempt a w).0

  -- Every attempt lies in the `window_slots` slots from `first` on.
  abbrev pub Within : ℕ → List Attempt → Type 0
  Within first [] = Unit {0}
  Within first (a ∷ rest) = (first ≤ a.slot) × (a.slot < first + window_slots) × Within first rest

  -- Inside a window opened at `first` or later nothing is reset, so the window itself is the bound.
  step_in_window :
      (first : ℕ) (a : Attempt) (w : WindowState)
      → 0 < limit
      → first ≤ w.start_slot
      → w.used ≤ limit
      → first ≤ a.slot
      → a.slot < first + window_slots
      → ((attempt a w).1 + w.used ≤ (attempt a w).0.used)
        × (first ≤ (attempt a w).0.start_slot)
        × ((attempt a w).0.used ≤ limit)
  unfolding attempt consume_rolling_limit
  step_in_window first a w l s u lo hi = ground arith

  -- One step from any window: either the window goes on, or a new one begins at the attempt's slot.
  step_any :
      (first : ℕ) (a : Attempt) (w : WindowState)
      → 0 < limit
      → w.used ≤ limit
      → first ≤ a.slot
      → a.slot < first + window_slots
      → ((attempt a w).0.used ≤ limit)
        × (((attempt a w).1 + w.used ≤ (attempt a w).0.used)
            ⊎ ((first ≤ (attempt a w).0.start_slot) × ((attempt a w).1 ≤ (attempt a w).0.used)))
  unfolding attempt consume_rolling_limit
  step_any first a w l u lo hi = ground arith

  in_window :
      (first : ℕ) (rest : List Attempt) (w : WindowState)
      → 0 < limit
      → first ≤ w.start_slot
      → w.used ≤ limit
      → Within first rest
      → consumed rest w + w.used ≤ limit
  unfolding consumed
  in_window first [] w l s u h = omega arith
  in_window first (a ∷ rest) w l s u (lo, hi, within) =
      let (grows, later, small) = step_in_window first a w l s u lo hi in
      omega (arith, in_window first rest (attempt a w).0 l later small within)

  -- With a limit set and not exceeded at the start, whatever the window is and in whatever order
  -- the attempts come, all attempts within any `window_slots` consecutive slots together consume
  -- at most twice the limit, less what is already used.
  pub consumed-le_twice :
      (first : ℕ) (rest : List Attempt) (w : WindowState)
      → 0 < limit
      → w.used ≤ limit
      → Within first rest
      → consumed rest w + w.used ≤ 2 * limit
  unfolding consumed
  consumed-le_twice first [] w l u h = omega arith
  consumed-le_twice first (a ∷ rest) w l u (lo, hi, within) =
      let (small, next) = step_any first a w l u lo hi in
      elim next [
        | inl goes_on ↦
            omega (arith, consumed-le_twice first rest (attempt a w).0 l small within, goes_on)
        | inr (opened, bounded) ↦
            omega (arith, in_window first rest (attempt a w).0 l opened small within, bounded)
      ]

-- The epoch-window reading of a limit: what is already used in the window that is current at a slot.
abbrev pub used_now : ℕ → ℕ → WindowState → ℕ
used_now current_slot window_slots w =
    if leb (w.start_slot + window_slots) current_slot then 0 else w.used

-- With a limit set, a window length and no u64 overflow, an amount is accepted exactly when it fits
-- into what the current window leaves, and then the window has consumed exactly that much more;
-- otherwise the call fails with `rolling_limit_exceeded`.
pub consume_rolling_limit-eq_epoch :
    (amount current_slot limit window_slots : ℕ) (w : WindowState)
    → 0 < limit
    → 0 < window_slots
    → w.start_slot + window_slots ≤ u64_max
    → w.used + amount ≤ u64_max
    → let used = used_now current_slot window_slots w in
      ((w' : WindowState) × (consume_rolling_limit amount current_slot limit window_slots w ≡ ok w')
        × (w'.used ≡ used + amount)
        × (used + amount ≤ limit))
      ⊎ ((consume_rolling_limit amount current_slot limit window_slots w
            ≡ err (program rolling_limit_exceeded))
          × (limit < used + amount))
unfolding consume_rolling_limit
consume_rolling_limit-eq_epoch amount current_slot limit window_slots w hl hw hs ha =
    elim (Bool-cases (leb (used_now current_slot window_slots w + amount) limit)) [
      | inl fits ↦ inl (
        record {
          start_slot = (current_window current_slot (w.start_slot + window_slots) w).start_slot;
          used = (current_window current_slot (w.start_slot + window_slots) w).used + amount;
        },
        ground arith,
        ground arith,
        ground arith,
      )
      | inr full ↦ inr (ground arith, ground arith)
    ]
