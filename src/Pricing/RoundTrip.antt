-- ===== src/Pricing/RoundTrip.antt =====
-- Conversions between assets and shares, there and back.
use native.Mathlib.Nat.{div-mul-le_self, pow-suc, le_of_mul-le-mul_right, lt-div-mul-add}
use solana_vault_v.Base.{ℕ, ◌+◌, ◌*◌, ◌^◌, ◌/◌, ◌≤◌, ◌<◌, ◌≡◌, ok, zero, suc, arith}
use solana_vault_v.Pricing.{calculate_shares, calculate_assets}

-- `10 ^ d` is kept as a variable `p` in the arithmetic.
pub pow-pos : (d : ℕ) → 0 < 10 ^ d
pow-pos zero = omega arith
pow-pos (suc d) = rw pow-suc (grind (arith, pow-pos d))

-- What a successful conversion to shares returns.
pub calculate_shares-eq_div :
    (nav decimals amount : ℕ) {shares : ℕ}
    → calculate_shares nav decimals amount ≡ ok shares
    → (0 < nav) × (shares ≡ amount * 10 ^ decimals / nav)
unfolding calculate_shares
calculate_shares-eq_div nav decimals amount h = ground arith

pub calculate_assets-eq_div :
    (nav decimals shares : ℕ) {assets : ℕ}
    → calculate_assets nav decimals shares ≡ ok assets
    → (0 < assets) × (assets ≡ shares * nav / 10 ^ decimals)
unfolding calculate_assets
calculate_assets-eq_div nav decimals shares h = ground arith

-- The arithmetic of a round trip through floors, at a precision `p`.
pub floor_round_trip :
    (a p n : ℕ)
    → 0 < p
    → 0 < n
    → let s = a * p / n in let b = s * n / p in (b * p ≤ a * p) × (a * p < b * p + p + n)
floor_round_trip a p n hp hn =
    let s = a * p / n in
    let down : s * n ≤ a * p = div-mul-le_self (a * p) n in
    let up : a * p < s * n + n = lt-div-mul-add {a = a * p} {b = n} hn in
    let down' : s * n / p * p ≤ s * n = div-mul-le_self (s * n) p in
    let up' : s * n < s * n / p * p + p = lt-div-mul-add {a = s * n} {b = p} hp in
    (omega arith, omega arith)

-- A deposit converted to shares and back never yields more than was deposited, and what is lost
-- is less than one unit of asset plus one share's worth, in units of 10^-decimals.
pub calculate_assets-calculate_shares :
    (nav decimals amount : ℕ) {shares assets : ℕ}
    → calculate_shares nav decimals amount ≡ ok shares
    → calculate_assets nav decimals shares ≡ ok assets
    → (assets ≤ amount) × (amount * 10 ^ decimals < assets * 10 ^ decimals + 10 ^ decimals + nav)
calculate_assets-calculate_shares nav decimals amount h k =
    let (nav_pos, e) = calculate_shares-eq_div nav decimals amount h in
    let (_, f) = calculate_assets-eq_div nav decimals _ k in
    let (low, high) = floor_round_trip amount (10 ^ decimals) nav (pow-pos decimals) nav_pos in
    rw (f, e) (le_of_mul-le-mul_right low (pow-pos decimals), high)

-- Shares redeemed and deposited again at the same NAV never become more shares.
pub calculate_shares-calculate_assets :
    (nav decimals shares : ℕ) {assets back : ℕ}
    → calculate_assets nav decimals shares ≡ ok assets
    → calculate_shares nav decimals assets ≡ ok back
    → back ≤ shares
calculate_shares-calculate_assets nav decimals shares h k =
    let (_, e) = calculate_assets-eq_div nav decimals shares h in
    let (nav_pos, f) = calculate_shares-eq_div nav decimals _ k in
    let (low, _) = floor_round_trip shares nav (10 ^ decimals) nav_pos (pow-pos decimals) in
    rw (f, e) (le_of_mul-le-mul_right low nav_pos)
