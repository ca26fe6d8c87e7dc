-- ===== src/Queue.antt =====
-- The FIFO queues of a vault without tranches: the counters in a vault extension and the number in a
-- request extension (programs/async_vault_v2/src/extensions/fifo_queues/fifo_queue.rs,
-- subscription_queue/processor.rs, redemption_queue/processor.rs). Both queues have the same code and
-- differ in the error they report.
pub mod Order
use solana_vault_v.Base.{ℕ, Option, none, some, ok, err, ◌>>=◌, ◌>>◌, ◌==◌}
use solana_vault_v.Error.{Outcome, AsyncVaultError, require, or_fail, uninitialized_extension}
use solana_vault_v.Tranche.{next_id}

-- `SubscriptionQueue`, `RedemptionQueue`
pub record FifoQueue : Type 0 where
  pub total : ℕ  -- u64
  pub last_processed : ℕ  -- u64

-- `increment_total`
unfoldable pub increment_total : FifoQueue → FifoQueue
increment_total q = record q { total = next_id q.total }

-- A vault without the extension has no queue, and its requests get no number.
unfoldable pub next_queue_request_id : Option FifoQueue → Option ℕ × Option FifoQueue
unfolding increment_total
next_queue_request_id none = (none, none)
next_queue_request_id (some q) = (some (increment_total q).total, some (increment_total q))

unfoldable pub check_and_advance_queue :
    AsyncVaultError → Option FifoQueue → Option ℕ → Outcome (Option FifoQueue)
check_and_advance_queue out_of_order none request_id = ok none
check_and_advance_queue out_of_order (some q) request_id = do
  id ← or_fail request_id uninitialized_extension
  require (id == next_id q.last_processed) out_of_order
  ok (some (record q { last_processed = id }))
