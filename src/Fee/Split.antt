-- ===== src/Fee/Split.antt =====
-- The protocol's share of a fee (programs/async_vault_v2/src/utils.rs) and the fees of the vault's
-- extensions (programs/async_vault_v2/src/extensions/fee/processor.rs).
use solana_vault_v.Base.{ℕ, ◌||◌, Option, none, some, ok, ◌>>=◌, ◌==◌, if◌then◌else◌, checked_sub}
use solana_vault_v.Error.{Outcome, or_math, exact}
use solana_vault_v.Fee.Types.{percentage, get_fee}
use solana_vault_v.Fee.Codec.{FeeData, fee_type}

-- The protocol's part of a fee, and the rest for the fee recipient.
unfoldable pub split_protocol_fee : ℕ → ℕ → Outcome (ℕ × ℕ)
split_protocol_fee total_fee protocol_fee_bps =
    if total_fee == 0 || protocol_fee_bps == 0 then ok (0, total_fee) else (do
      protocol_fee ← or_math (get_fee (percentage protocol_fee_bps) total_fee)
      fee_recipient_fee ← exact (checked_sub total_fee protocol_fee)
      ok (protocol_fee, fee_recipient_fee))

-- `get_deposit_fee` and `get_withdrawal_fee`: no extension, no fee.
unfoldable pub get_extension_fee : Option FeeData → ℕ → Outcome ℕ
get_extension_fee none _ = ok 0
get_extension_fee (some stored) amount = do f ← fee_type stored; or_math (get_fee f amount)

-- `get_deposit_fee_and_net` and `get_withdrawal_fee_and_net`
unfoldable pub get_fee_and_net : Option FeeData → ℕ → Outcome (ℕ × ℕ)
get_fee_and_net extension amount = do
  fee ← get_extension_fee extension amount
  net ← exact (checked_sub amount fee)
  ok (fee, net)
