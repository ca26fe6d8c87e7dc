-- ===== src/Tests/Money.antt =====
-- Fees, prices, limits and queues.
use solana_vault_v.Base.{
  ℕ, ◌+◌, ◌*◌, ◌^◌, ◌≤◌, ◌<◌, ◌≡◌, ◌⊎◌, some, List, [], ◌∷◌, ok, err, refl, arith,
}
use solana_vault_v.Error.{program, rolling_limit_exceeded, subscription_queue_out_of_order}
use solana_vault_v.Fee.{
  percentage, fixed_amount, get_fee, split_protocol_fee, get_fee_and_net, get_extension_fee,
  from_fee_type, fee_type,
}
use solana_vault_v.Fee.Bounds.{get_fee-percentage, split_protocol_fee-conserves}
use solana_vault_v.Pricing.{calculate_shares, calculate_assets}
use solana_vault_v.Pricing.RoundTrip.{calculate_assets-calculate_shares}
use solana_vault_v.Limits.{WindowState, consume_rolling_limit}
use solana_vault_v.Limits.Window.{
  Attempt, attempt, consumed, consumed-le_twice, consume_rolling_limit-eq_epoch, used_now,
}
use solana_vault_v.Queue.{FifoQueue, check_and_advance_queue, increment_total}
use solana_vault_v.Queue.Order.{enter_all, process_all, process_all-enter_all}

-- 50 basis points of 999 are 4.995, so 5.
get_fee-percentage_example :
    (fee : ℕ) × (get_fee (percentage 50) 999 ≡ ok fee)
    × (fee ≤ 999)
    × (999 * 50 ≤ fee * 10_000)
    × (fee * 10_000 < 999 * 50 + 10_000)
get_fee-percentage_example = get_fee-percentage 999 50 (omega arith) (omega arith)

split_protocol_fee-conserves_example :
    (protocol recipient : ℕ) × (split_protocol_fee 101 2_500 ≡ ok (protocol, recipient))
    × (protocol + recipient ≡ 101)
    × (101 * 2_500 ≤ protocol * 10_000)
    × (protocol * 10_000 < 101 * 2_500 + 10_000)
split_protocol_fee-conserves_example =
    split_protocol_fee-conserves 101 2_500 (omega arith) (omega arith)

get_fee_and_net_run : get_fee_and_net (some (from_fee_type (fixed_amount 30))) 1_000 ≡ ok (30, 970)
unfolding get_fee_and_net get_extension_fee from_fee_type fee_type get_fee
get_fee_and_net_run = refl

-- At a NAV of 3, 1,000 units are 333 shares, which are 999 units.
shares_run : calculate_shares 3_000_000 6 1_000 ≡ ok 333
unfolding calculate_shares
shares_run = refl

assets_run : calculate_assets 3_000_000 6 333 ≡ ok 999
unfolding calculate_assets
assets_run = refl

calculate_assets-calculate_shares_example :
    (999 ≤ 1_000) × (1_000 * 10 ^ 6 < 999 * 10 ^ 6 + 10 ^ 6 + 3_000_000)
calculate_assets-calculate_shares_example =
    calculate_assets-calculate_shares 3_000_000 6 1_000 shares_run assets_run

shares_back_run : calculate_shares 3_000_000 6 999 ≡ ok 333
unfolding calculate_shares
shares_back_run = refl

-- A window that opened at slot 10 with 70 of 100 used, and attempts at the slots 108 to 111.
abbrev window : WindowState
window = record { start_slot = 10; used = 70 }

abbrev attempts : List Attempt
attempts =
    record { amount = 30; slot = 108 }
    ∷ record { amount = 5; slot = 109 }
    ∷ record { amount = 100; slot = 111 }
    ∷ []

consumed_run : consumed 100 100 attempts window ≡ 130
unfolding consumed attempt consume_rolling_limit
consumed_run = refl

consumed-le_twice_example : consumed 100 100 attempts window + 70 ≤ 2 * 100
consumed-le_twice_example =
    consumed-le_twice 100 100 108 attempts window (omega arith) (omega arith)
      (omega arith, omega arith, (omega arith, omega arith, (omega arith, omega arith, tt)))

consume_rolling_limit-eq_epoch_example :
    let used = used_now 50 100 window in
    ((w' : WindowState) × (consume_rolling_limit 40 50 100 100 window ≡ ok w')
      × (w'.used ≡ used + 40)
      × (used + 40 ≤ 100))
    ⊎ ((consume_rolling_limit 40 50 100 100 window ≡ err (program rolling_limit_exceeded))
        × (100 < used + 40))
consume_rolling_limit-eq_epoch_example =
    consume_rolling_limit-eq_epoch 40 50 100 100 window (omega arith) (omega arith) (omega arith)
      (omega arith)

-- Two requests enter an idle queue that has processed five.
abbrev idle : FifoQueue
idle = record { total = 5; last_processed = 5 }

process_run :
    process_all subscription_queue_out_of_order (some 6 ∷ some 7 ∷ []) (some (enter_all 2 idle).1)
    ≡ ok (some (record { total = 7; last_processed = 7 }))
unfolding enter_all increment_total check_and_advance_queue
process_run = refl

process_all-enter_all_example : some 6 ∷ some 7 ∷ [] ≡ (enter_all 2 idle).0
process_all-enter_all_example =
    process_all-enter_all subscription_queue_out_of_order 2 idle (some 6 ∷ some 7 ∷ []) refl
      (omega arith) process_run refl
