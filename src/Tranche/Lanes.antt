-- ===== src/Tranche/Lanes.antt =====
-- The FIFO lanes of a tranche vault (`TrancheConfig::next_queue_request_id` and
-- `check_and_advance_queue`, programs/async_vault_v2/src/state/async_vault_v2.rs).
use solana_vault_v.Base.{
  ℕ, ◌+◌, ◌%◌, ◌^◌, Bool, true, false, ok, err, ◌>>=◌, ◌>>◌, ◌==◌, if◌then◌else◌,
}
use solana_vault_v.Error.{
  Outcome, program, require, invalid_share_mint, subscription_queue_out_of_order,
  redemption_queue_out_of_order, AsyncVaultError,
}
use solana_vault_v.State.{Pubkey, RequestType, deposit, redeem, TrancheConfig}

-- `u64::wrapping_add(1)`
abbrev pub next_id : ℕ → ℕ
next_id n = (n + 1) % 2 ^ 64

-- `matches!(request_type, RequestType::Deposit)`
abbrev pub is_deposit : RequestType → Bool
is_deposit deposit = true
is_deposit redeem = false

-- The four lanes.
pub data Lane : Type 0 where
  senior_subscription senior_redemption junior_subscription junior_redemption : Lane

unfoldable pub select_lane : TrancheConfig → Pubkey → RequestType → Outcome Lane
select_lane c selected_share_mint request_type =
    if selected_share_mint == c.senior_share_mint
    then ok (if is_deposit request_type then senior_subscription else senior_redemption)
    else if selected_share_mint == c.junior_share_mint
    then ok (if is_deposit request_type then junior_subscription else junior_redemption)
    else err (program invalid_share_mint)

abbrev pub lane_total : TrancheConfig → Lane → ℕ
lane_total c senior_subscription = c.senior_subscription_request_total
lane_total c senior_redemption = c.senior_redemption_request_total
lane_total c junior_subscription = c.junior_subscription_request_total
lane_total c junior_redemption = c.junior_redemption_request_total

abbrev pub lane_last_processed : TrancheConfig → Lane → ℕ
lane_last_processed c senior_subscription = c.senior_subscription_request_last_processed
lane_last_processed c senior_redemption = c.senior_redemption_request_last_processed
lane_last_processed c junior_subscription = c.junior_subscription_request_last_processed
lane_last_processed c junior_redemption = c.junior_redemption_request_last_processed

-- `*total = n`
abbrev pub set_total : TrancheConfig → Lane → ℕ → TrancheConfig
set_total c senior_subscription n = record c { senior_subscription_request_total = n }
set_total c senior_redemption n = record c { senior_redemption_request_total = n }
set_total c junior_subscription n = record c { junior_subscription_request_total = n }
set_total c junior_redemption n = record c { junior_redemption_request_total = n }

-- `*last_processed = n`
abbrev pub set_last_processed : TrancheConfig → Lane → ℕ → TrancheConfig
set_last_processed c senior_subscription n = record c {
  senior_subscription_request_last_processed = n;
}
set_last_processed c senior_redemption n = record c { senior_redemption_request_last_processed = n }
set_last_processed c junior_subscription n = record c {
  junior_subscription_request_last_processed = n;
}
set_last_processed c junior_redemption n = record c { junior_redemption_request_last_processed = n }

abbrev pub out_of_order_error : RequestType → AsyncVaultError
out_of_order_error deposit = subscription_queue_out_of_order
out_of_order_error redeem = redemption_queue_out_of_order

unfoldable pub next_queue_request_id :
    TrancheConfig → Pubkey → RequestType → Outcome (ℕ × TrancheConfig)
next_queue_request_id c selected_share_mint request_type = do
  lane ← select_lane c selected_share_mint request_type
  ok (next_id (lane_total c lane), set_total c lane (next_id (lane_total c lane)))

unfoldable pub check_and_advance_queue :
    TrancheConfig → Pubkey → RequestType → ℕ → Outcome TrancheConfig
check_and_advance_queue c selected_share_mint request_type request_id = do
  lane ← select_lane c selected_share_mint request_type
  require (request_id == next_id (lane_last_processed c lane)) (out_of_order_error request_type)
  ok (set_last_processed c lane request_id)
