-- ===== src/Prelude/Int.antt =====
-- The integers over the native numbers, as far as an `i64` timestamp needs them.
use Prim.Native.Nat.{ℕ, suc, ◌+◌, ◌-◌, ◌*◌, ◌≤◌}
use mathlib.Core.Bool.{Bool, ◌&&◌}
use mathlib.Core.Option.{Option, none, some}
use mim_swap_sol.Prelude.Tests.{ltb, leb, if◌then◌else◌}

-- `negsuc n` is -(n + 1).
pub data ℤ : Type 0 where
  pos : ℕ → ℤ
  negsuc : ℕ → ℤ

abbrev pub pos_part : ℤ → ℕ
pos_part (pos n) = n
pos_part (negsuc n) = 0

abbrev pub neg_part : ℤ → ℕ
neg_part (pos n) = 0
neg_part (negsuc n) = suc n

-- a - b, as an integer.
abbrev pub sub_ℕ : ℕ → ℕ → ℤ
sub_ℕ a b = if leb b a then pos (a - b) else negsuc (b - a - 1)

infixl 65 ◌+ℤ◌
infix 50 ◌≤ℤ◌
abbrev pub ◌+ℤ◌ : ℤ → ℤ → ℤ
a +ℤ b = sub_ℕ (pos_part a + pos_part b) (neg_part a + neg_part b)

abbrev pub ◌≤ℤ◌ : ℤ → ℤ → Type 0
a ≤ℤ b = pos_part a + neg_part b ≤ pos_part b + neg_part a

abbrev pub leb_ℤ : ℤ → ℤ → Bool
leb_ℤ a b = leb (pos_part a + neg_part b) (pos_part b + neg_part a)

abbrev pub i64_half : ℕ
i64_half = 9_223_372_036_854_775_808

-- `x as i64` on a `u64`: the same bits, read in two's complement.
unfoldable pub as_i64 : ℕ → ℤ
as_i64 n = if ltb n i64_half then pos n else negsuc (2 * i64_half - 1 - n)

-- `i64::checked_add`
unfoldable pub checked_add_i64 : ℤ → ℤ → Option ℤ
checked_add_i64 a b =
    if ltb (pos_part (a +ℤ b)) i64_half && leb (neg_part (a +ℤ b)) i64_half
    then some (a +ℤ b)
    else none
