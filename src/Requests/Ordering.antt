-- ===== src/Requests/Ordering.antt =====
-- How a request takes its number and its turn: in the tranche's lane when the vault has tranches and
-- the queue extension, else in the vault's own queue
-- (programs/async_vault_v2/src/utils.rs; the queue steps of the request instructions).
use solana_vault_v.Base.{
  ℕ, Option, none, some, ok, ◌>>=◌, ◌>>◌, List, [], ◌∷◌, if◌then◌else◌, is_some, ok_or,
}
use solana_vault_v.Error.{
  Outcome, or_fail, require, missing_required_account, account_not_deserialized,
  uninitialized_extension,
}
use solana_vault_v.State.{Pubkey, RequestType, deposit, redeem, TrancheConfig}
use solana_vault_v.Runtime.{AccountInfo}
use solana_vault_v.Extensions.{Extensions}
use solana_vault_v.Queue
use solana_vault_v.Queue.{FifoQueue}
use solana_vault_v.Tranche
use solana_vault_v.Tranche.{first, RequestShareMintContext}
use solana_vault_v.Requests.World.{QueueIds}

-- The writable tranche configuration in the first remaining account.
unfoldable pub writable_tranche_config : List AccountInfo → Outcome TrancheConfig
writable_tranche_config remaining_accounts = do
  info ← or_fail (first remaining_accounts) missing_required_account
  require info.is_writable missing_required_account
  ok_or info.as_tranche_config account_not_deserialized

-- `tranche_config.exit(..)`: writes the configuration back to the first remaining account.
unfoldable pub store_tranche_config : TrancheConfig → List AccountInfo → List AccountInfo
store_tranche_config c [] = []
store_tranche_config c (info ∷ rest) = record info { as_tranche_config = some c } ∷ rest

abbrev pub queue_of : Extensions → RequestType → Option FifoQueue
queue_of e deposit = e.subscription_queue
queue_of e redeem = e.redemption_queue

abbrev pub set_queue_of : Extensions → RequestType → Option FifoQueue → Extensions
set_queue_of e deposit q = record e { subscription_queue = q }
set_queue_of e redeem q = record e { redemption_queue = q }

abbrev pub id_of : QueueIds → RequestType → Option ℕ
id_of ids deposit = ids.subscription
id_of ids redeem = ids.redemption

-- `next_tranche_queue_request_id`
unfoldable pub next_tranche_queue_request_id :
    RequestShareMintContext
    → Pubkey
    → RequestType
    → List AccountInfo
    → Outcome (Option ℕ × List AccountInfo)
next_tranche_queue_request_id context selected_share_mint request_type remaining_accounts =
    if is_some context.tranche_info
    then (do
      c ← writable_tranche_config remaining_accounts
      (id, c') ← Tranche.next_queue_request_id c selected_share_mint request_type
      ok (some id, store_tranche_config c' remaining_accounts))
    else ok (none, remaining_accounts)

-- `check_and_advance_tranche_queue`
unfoldable pub check_and_advance_tranche_queue :
    RequestShareMintContext
    → Pubkey
    → RequestType
    → QueueIds
    → List AccountInfo
    → Outcome (List AccountInfo)
check_and_advance_tranche_queue context selected_share_mint request_type ids remaining_accounts =
    if is_some context.tranche_info
    then (do
      info ← or_fail (first remaining_accounts) missing_required_account
      require info.is_writable missing_required_account
      request_id ← or_fail (id_of ids request_type) uninitialized_extension
      c ← ok_or info.as_tranche_config account_not_deserialized
      c' ← Tranche.check_and_advance_queue c selected_share_mint request_type request_id
      ok (store_tranche_config c' remaining_accounts))
    else ok remaining_accounts

-- The last step of the two create instructions: the queue number that the request gets.
unfoldable pub assign_queue_id :
    RequestShareMintContext
    → Pubkey
    → RequestType
    → Extensions
    → List AccountInfo
    → Outcome (Option ℕ × Extensions × List AccountInfo)
assign_queue_id context share_mint request_type e remaining_accounts =
    if is_some context.tranche_info
    then if is_some (queue_of e request_type)
      then (do
        (id, remaining') ←
            next_tranche_queue_request_id context share_mint request_type remaining_accounts
        ok (id, e, remaining'))
      else ok (none, e, remaining_accounts)
    else (let (id, q) = Queue.next_queue_request_id (queue_of e request_type) in
        ok (id, set_queue_of e request_type q, remaining_accounts))

-- `check_fifo_ordering` of reject_request.rs, written out in approve_request.rs and in
-- skip_canceled_queue_request.rs: the request must be the next in its queue.
unfoldable pub check_fifo_ordering :
    RequestShareMintContext
    → Pubkey
    → RequestType
    → QueueIds
    → Extensions
    → List AccountInfo
    → Outcome (Extensions × List AccountInfo)
check_fifo_ordering context share_mint request_type ids e remaining_accounts =
    if is_some context.tranche_info
    then if is_some (queue_of e request_type)
      then (do
        remaining' ←
            check_and_advance_tranche_queue context share_mint request_type ids remaining_accounts
        ok (e, remaining'))
      else ok (e, remaining_accounts)
    else (do
      q ←
          Queue.check_and_advance_queue (Tranche.out_of_order_error request_type)
            (queue_of e request_type) (id_of ids request_type)
      ok (set_queue_of e request_type q, remaining_accounts))
