-- ===== src/States/StatusLaws.antt =====
-- The status bits of a pool (programs/cp-swap/src/states/pool.rs) switch one operation each.
use Prim.Native.Nat.{bit_and}
use mim_swap_sol.Prelude.{
  ℕ, zero, suc, ◌≤◌, ◌<◌, ◌==◌, ◌≡◌, refl, if◌then◌else◌, Bool, true, false, u8_max, arith,
}
use mim_swap_sol.States.Pool.{
  PoolState, PoolStatusBitIndex, PoolStatusBitFlag, bit_mask, with_bit, set_status_by_bit,
  get_status_by_bit,
}

-- A test that passes for every status below a bound.
passes_below : (ℕ → Bool) → ℕ → Bool
passes_below test zero = true
passes_below test (suc bound) = if test bound then passes_below test bound else false

passes_below_lem :
    (test : ℕ → Bool) (bound status : ℕ)
    → status < bound
    → passes_below test bound ≡ true
    → test status ≡ true
unfolding passes_below
passes_below_lem test zero status below passed = absurd (omega arith)
passes_below_lem test (suc bound) status below passed =
    ground (arith, passes_below_lem test bound status)

-- The flag that a bit was set to, as `get_status_by_bit` reports it.
abbrev pub is_enabled : PoolStatusBitFlag → Bool
is_enabled PoolStatusBitFlag.enable = true
is_enabled PoolStatusBitFlag.disable = false

abbrev pub same_bit : PoolStatusBitIndex → PoolStatusBitIndex → Bool
same_bit PoolStatusBitIndex.deposit PoolStatusBitIndex.deposit = true
same_bit PoolStatusBitIndex.withdraw PoolStatusBitIndex.withdraw = true
same_bit PoolStatusBitIndex.swap PoolStatusBitIndex.swap = true
same_bit _ _ = false

abbrev bool_eq : Bool → Bool → Bool
bool_eq true b = b
bool_eq false true = false
bool_eq false false = true

bool_eq-true : (a b : Bool) → bool_eq a b ≡ true → a ≡ b
bool_eq-true true true h = refl
bool_eq-true true false h = cc
bool_eq-true false true h = cc
bool_eq-true false false h = refl

abbrev reads : PoolStatusBitIndex → ℕ → Bool
reads bit status = bit_and status (bit_mask bit) == 0

abbrev expected : PoolStatusBitIndex → PoolStatusBitFlag → PoolStatusBitIndex → ℕ → Bool
expected bit flag other status = if same_bit bit other then is_enabled flag else reads other status

abbrev check : PoolStatusBitIndex → PoolStatusBitFlag → PoolStatusBitIndex → ℕ → Bool
check bit flag other status =
    bool_eq (reads other (with_bit bit flag status)) (expected bit flag other status)

table :
    (bit : PoolStatusBitIndex) (flag : PoolStatusBitFlag) (other : PoolStatusBitIndex)
    → passes_below (check bit flag other) 256 ≡ true
unfolding passes_below with_bit bit_mask
table PoolStatusBitIndex.deposit PoolStatusBitFlag.enable PoolStatusBitIndex.deposit = refl
table PoolStatusBitIndex.deposit PoolStatusBitFlag.enable PoolStatusBitIndex.withdraw = refl
table PoolStatusBitIndex.deposit PoolStatusBitFlag.enable PoolStatusBitIndex.swap = refl
table PoolStatusBitIndex.deposit PoolStatusBitFlag.disable PoolStatusBitIndex.deposit = refl
table PoolStatusBitIndex.deposit PoolStatusBitFlag.disable PoolStatusBitIndex.withdraw = refl
table PoolStatusBitIndex.deposit PoolStatusBitFlag.disable PoolStatusBitIndex.swap = refl
table PoolStatusBitIndex.withdraw PoolStatusBitFlag.enable PoolStatusBitIndex.deposit = refl
table PoolStatusBitIndex.withdraw PoolStatusBitFlag.enable PoolStatusBitIndex.withdraw = refl
table PoolStatusBitIndex.withdraw PoolStatusBitFlag.enable PoolStatusBitIndex.swap = refl
table PoolStatusBitIndex.withdraw PoolStatusBitFlag.disable PoolStatusBitIndex.deposit = refl
table PoolStatusBitIndex.withdraw PoolStatusBitFlag.disable PoolStatusBitIndex.withdraw = refl
table PoolStatusBitIndex.withdraw PoolStatusBitFlag.disable PoolStatusBitIndex.swap = refl
table PoolStatusBitIndex.swap PoolStatusBitFlag.enable PoolStatusBitIndex.deposit = refl
table PoolStatusBitIndex.swap PoolStatusBitFlag.enable PoolStatusBitIndex.withdraw = refl
table PoolStatusBitIndex.swap PoolStatusBitFlag.enable PoolStatusBitIndex.swap = refl
table PoolStatusBitIndex.swap PoolStatusBitFlag.disable PoolStatusBitIndex.deposit = refl
table PoolStatusBitIndex.swap PoolStatusBitFlag.disable PoolStatusBitIndex.withdraw = refl
table PoolStatusBitIndex.swap PoolStatusBitFlag.disable PoolStatusBitIndex.swap = refl

-- For a pool whose status is a byte: after one bit is set to a flag, that bit reads as the flag
-- says (enabled or not), and each other bit reads as before.
pub get-set_status_by_bit :
    (bit : PoolStatusBitIndex) (flag : PoolStatusBitFlag) (other : PoolStatusBitIndex)
    (pool : PoolState)
    → pool.status ≤ u8_max
    → get_status_by_bit other (set_status_by_bit bit flag pool)
      ≡ (if same_bit bit other then is_enabled flag else get_status_by_bit other pool)
unfolding get_status_by_bit set_status_by_bit
get-set_status_by_bit bit flag other pool h =
    bool_eq-true _ _
      (passes_below_lem (check bit flag other) 256 pool.status (omega arith) (table bit flag other))
