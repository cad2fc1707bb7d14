-- ===== src/Prelude/Checked.antt =====
-- The checked operations of Rust's unsigned integers. A value is a plain number; `bound` is the
-- largest value of its type, `u64_max` or `u128_max`.
use Prim.Native.Nat.{ℕ, ◌+◌, ◌-◌, ◌*◌, ◌/◌, ◌%◌, ◌≤◌, ◌<◌}
use mathlib.Core.Path.{◌≡◌}
use mathlib.Core.Option.{Option, none, some}
use native.Mathlib.Omega.{arith}
use mim_swap_sol.Prelude.Tests.{leb, ◌==◌, if◌then◌else◌}

abbrev pub u8_max : ℕ
u8_max = 255

abbrev pub u64_max : ℕ
u64_max = 18_446_744_073_709_551_615

abbrev pub u128_max : ℕ
u128_max = 340_282_366_920_938_463_463_374_607_431_768_211_455

unfoldable pub checked_add : ℕ → ℕ → ℕ → Option ℕ
checked_add bound a b = if leb (a + b) bound then some (a + b) else none

unfoldable pub checked_mul : ℕ → ℕ → ℕ → Option ℕ
checked_mul bound a b = if leb (a * b) bound then some (a * b) else none

unfoldable pub checked_sub : ℕ → ℕ → Option ℕ
checked_sub a b = if leb b a then some (a - b) else none

unfoldable pub checked_div : ℕ → ℕ → Option ℕ
checked_div a b = if b == 0 then none else some (a / b)

unfoldable pub checked_rem : ℕ → ℕ → Option ℕ
checked_rem a b = if b == 0 then none else some (a % b)

-- `u64::try_from` and the other narrowing conversions.
unfoldable pub narrow : ℕ → ℕ → Option ℕ
narrow bound a = if leb a bound then some a else none

-- What a successful operation has computed, and what it needed.
pub checked_add-eq_some :
    (bound a b : ℕ) {c : ℕ} → checked_add bound a b ≡ some c → (c ≡ a + b) × (a + b ≤ bound)
unfolding checked_add
checked_add-eq_some bound a b h = ground arith

pub checked_mul-eq_some :
    (bound a b : ℕ) {c : ℕ} → checked_mul bound a b ≡ some c → (c ≡ a * b) × (a * b ≤ bound)
unfolding checked_mul
checked_mul-eq_some bound a b h = ground arith

pub checked_sub-eq_some : (a b : ℕ) {c : ℕ} → checked_sub a b ≡ some c → (a ≡ b + c)
unfolding checked_sub
checked_sub-eq_some a b h = ground arith

pub checked_div-eq_some : (a b : ℕ) {c : ℕ} → checked_div a b ≡ some c → (c ≡ a / b) × (0 < b)
unfolding checked_div
checked_div-eq_some a b h = ground arith

pub checked_rem-eq_some : (a b : ℕ) {c : ℕ} → checked_rem a b ≡ some c → (c ≡ a % b) × (0 < b)
unfolding checked_rem
checked_rem-eq_some a b h = ground arith

pub narrow-eq_some : (bound a : ℕ) {c : ℕ} → narrow bound a ≡ some c → (c ≡ a) × (a ≤ bound)
unfolding narrow
narrow-eq_some bound a h = ground arith
