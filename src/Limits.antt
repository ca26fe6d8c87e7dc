-- ===== src/Limits.antt =====
-- Rolling limits (`Vault::consume_rolling_limit` and its callers,
-- programs/async_vault_v2/src/state/async_vault_v2.rs). A window is its start slot and the amount
-- consumed in it. A call that fails makes the transaction fail, so it leaves no window behind.
pub mod Window
use solana_vault_v.Base.{
  ℕ, Bool, ◌&&◌, ◌||◌, ok, ◌>>=◌, ◌>>◌, leb, ltb, ◌==◌, if◌then◌else◌, u64_max, checked_add,
}
use solana_vault_v.Error.{
  Outcome, require, exact, invalid_rolling_limit_config, rolling_limit_exceeded,
}
use solana_vault_v.State.{Vault, VaultAsset, InstantSettlementUser}

-- `&mut window_start_slot` and `&mut window_amount`
pub record WindowState : Type 0 where
  pub start_slot : ℕ
  pub used : ℕ

-- The window after the reset test: opened anew when it was never used or has run out.
abbrev pub current_window : ℕ → ℕ → WindowState → WindowState
current_window current_slot window_end w =
    if w.start_slot == 0 && w.used == 0 || leb window_end current_slot
    then record { start_slot = current_slot; used = 0 }
    else w

unfoldable pub consume_rolling_limit : ℕ → ℕ → ℕ → ℕ → WindowState → Outcome WindowState
consume_rolling_limit amount current_slot limit window_slots w = if limit == 0 then ok w else (do
  require (ltb 0 window_slots) invalid_rolling_limit_config
  window_end ← exact (checked_add u64_max w.start_slot window_slots)
  next_amount ← exact (checked_add u64_max (current_window current_slot window_end w).used amount)
  require (leb next_amount limit) rolling_limit_exceeded
  ok (record {
    start_slot = (current_window current_slot window_end w).start_slot;
    used = next_amount;
  }))

-- `Vault::consume_manager_rolling_limit`
unfoldable pub consume_manager_rolling_limit : Vault → ℕ → ℕ → Outcome Vault
consume_manager_rolling_limit v amount current_slot = do
  w ←
      consume_rolling_limit amount current_slot v.manager_rolling_limit v.rolling_limit_window_slots
        (record { start_slot = v.manager_window_start_slot; used = v.manager_window_amount })
  ok (record v { manager_window_start_slot = w.start_slot; manager_window_amount = w.used })

unfoldable pub consume_external_withdraw_rolling_limit : Vault → ℕ → ℕ → Outcome Vault
consume_external_withdraw_rolling_limit v amount current_slot = do
  w ←
      consume_rolling_limit amount current_slot v.external_withdraw_rolling_limit
        v.rolling_limit_window_slots
        (record {
          start_slot = v.external_withdraw_window_start_slot;
          used = v.external_withdraw_window_amount;
        })
  ok (record v {
    external_withdraw_window_start_slot = w.start_slot;
    external_withdraw_window_amount = w.used;
  })

unfoldable pub consume_redemption_rolling_limit : Vault → ℕ → ℕ → Outcome Vault
consume_redemption_rolling_limit v amount current_slot = do
  w ←
      consume_rolling_limit amount current_slot v.redemption_rolling_limit
        v.rolling_limit_window_slots
        (record { start_slot = v.redemption_window_start_slot; used = v.redemption_window_amount })
  ok (record v { redemption_window_start_slot = w.start_slot; redemption_window_amount = w.used })

-- `VaultAsset::consume_manager_rolling_limit`
unfoldable pub consume_asset_rolling_limit : VaultAsset → ℕ → ℕ → ℕ → ℕ → Outcome VaultAsset
consume_asset_rolling_limit a amount current_slot manager_rolling_limit rolling_limit_window_slots =
    do
      w ←
          consume_rolling_limit amount current_slot manager_rolling_limit rolling_limit_window_slots
            (record { start_slot = a.manager_window_start_slot; used = a.manager_window_amount })
      ok (record a { manager_window_start_slot = w.start_slot; manager_window_amount = w.used })

-- `InstantSettlementUser::consume_deposit_limit`
unfoldable pub consume_deposit_limit :
    InstantSettlementUser → ℕ → ℕ → ℕ → ℕ → Outcome InstantSettlementUser
consume_deposit_limit u amount current_slot limit window_slots = do
  w ←
      consume_rolling_limit amount current_slot limit window_slots
        (record { start_slot = u.deposit_window_start_slot; used = u.deposit_window_amount })
  ok (record u { deposit_window_start_slot = w.start_slot; deposit_window_amount = w.used })

-- `InstantSettlementUser::consume_redeem_limit`
unfoldable pub consume_redeem_limit :
    InstantSettlementUser → ℕ → ℕ → ℕ → ℕ → Outcome InstantSettlementUser
consume_redeem_limit u amount current_slot limit window_slots = do
  w ←
      consume_rolling_limit amount current_slot limit window_slots
        (record { start_slot = u.redeem_window_start_slot; used = u.redeem_window_amount })
  ok (record u { redeem_window_start_slot = w.start_slot; redeem_window_amount = w.used })
