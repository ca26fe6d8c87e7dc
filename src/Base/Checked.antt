-- ===== src/Base/Checked.antt =====
-- Rust's checked arithmetic on unsigned machine integers. A `u64` or `u128` is a native number;
-- each operation takes the largest value of its type.
use Prim.Native.Nat.{ℕ, ◌+◌, ◌-◌, ◌*◌, ◌/◌, ◌^◌}
use mathlib.Core.Option.{Option, none, some}
use solana_vault_v.Base.Tests.{leb, ◌==◌, if◌then◌else◌}

abbrev pub u16_max : ℕ
u16_max = 65_535

abbrev pub u64_max : ℕ
u64_max = 18_446_744_073_709_551_615

abbrev pub u128_max : ℕ
u128_max = 340_282_366_920_938_463_463_374_607_431_768_211_455

abbrev pub checked_add : ℕ → ℕ → ℕ → Option ℕ
checked_add top a b = if leb (a + b) top then some (a + b) else none

abbrev pub checked_sub : ℕ → ℕ → Option ℕ
checked_sub a b = if leb b a then some (a - b) else none

abbrev pub checked_mul : ℕ → ℕ → ℕ → Option ℕ
checked_mul top a b = if leb (a * b) top then some (a * b) else none

abbrev pub checked_div : ℕ → ℕ → Option ℕ
checked_div a b = if b == 0 then none else some (a / b)

abbrev pub checked_pow : ℕ → ℕ → ℕ → Option ℕ
checked_pow top a n = if leb (a ^ n) top then some (a ^ n) else none

-- `u64::try_from` and the like
abbrev pub try_from : ℕ → ℕ → Option ℕ
try_from top a = if leb a top then some a else none
