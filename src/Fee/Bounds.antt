-- ===== src/Fee/Bounds.antt =====
-- The size of a computed fee and of its parts.
use solana_vault_v.Base.{ℕ, ◌+◌, ◌-◌, ◌*◌, ◌/◌, ◌≤◌, ◌<◌, ◌≡◌, Option, ok, arith, u64_max}
use solana_vault_v.Fee.Types.{percentage, max_bps, get_fee}
use solana_vault_v.Fee.Codec.{FeeData}
use solana_vault_v.Fee.Split.{split_protocol_fee, get_fee_and_net}
use native.Mathlib.Nat.{mul-le-mul, zero-mul, mul-zero}

product-bound :
    (amount bps : ℕ) → amount ≤ u64_max → bps ≤ max_bps → amount * bps ≤ u64_max * max_bps
product-bound amount bps ha hb = mul-le-mul ha hb

scaled-bound : (amount bps : ℕ) → bps ≤ max_bps → amount * bps ≤ amount * max_bps
scaled-bound amount bps hb = grind arith

-- With a valid percentage the fee is the exact product divided by 10,000 and rounded up; it is
-- computed without overflow for every u64 amount, and is at most the amount.
pub get_fee-percentage :
    (amount bps : ℕ)
    → amount ≤ u64_max
    → bps ≤ max_bps
    → (fee : ℕ) × (get_fee (percentage bps) amount ≡ ok fee)
      × (fee ≤ amount)
      × (amount * bps ≤ fee * 10_000)
      × (fee * 10_000 < amount * bps + 10_000)
unfolding get_fee
get_fee-percentage amount bps ha hb = (
  (amount * bps + 9_999) / 10_000,
  ground (arith, product-bound amount bps ha hb, scaled-bound amount bps hb),
  omega (arith, scaled-bound amount bps hb),
  omega arith,
  omega arith,
)

-- For every u64 fee and valid basis points the split succeeds, and the two parts add up to the fee;
-- the protocol's part is the exact share rounded up.
pub split_protocol_fee-conserves :
    (total bps : ℕ)
    → total ≤ u64_max
    → bps ≤ max_bps
    → (protocol recipient : ℕ) × (split_protocol_fee total bps ≡ ok (protocol, recipient))
      × (protocol + recipient ≡ total)
      × (total * bps ≤ protocol * 10_000)
      × (protocol * 10_000 < total * bps + 10_000)
unfolding split_protocol_fee
split_protocol_fee-conserves total bps ht hb =
    let (fee, computed, small, low, high) = get_fee-percentage total bps ht hb in
    (
      fee,
      total - fee,
      ground (arith, computed, small, high, zero-mul bps, mul-zero total),
      omega (arith, small),
      low,
      high,
    )

-- Where they can be computed, a fee and its net amount add up to the amount they were taken from.
pub get_fee_and_net-conserves :
    (extension : Option FeeData) (amount : ℕ) {fee net : ℕ}
    → get_fee_and_net extension amount ≡ ok (fee, net)
    → fee + net ≡ amount
unfolding get_fee_and_net
get_fee_and_net-conserves extension amount h = ground arith
