-- ===== src/States/OracleLaws.antt =====
-- The ring of observations (programs/cp-swap/src/states/oracle.rs): what an update writes, and that it
-- stays in bounds.
use mim_swap_sol.Prelude.{
  ℕ, ◌+◌, ◌%◌, ◌^◌, ◌*◌, ◌-◌, ◌≤◌, ◌<◌, ◌≡◌, ◌∙◌, ◌≢◌, ◌==◌, inl, inr, refl, ◌||◌, true, some,
  u128_max, checked_mul, ok, err, panic, arith, Bool-cases, Option-cases,
}
use mim_swap_sol.Errors.{ErrorCode, code, Result}
use mim_swap_sol.States.Oracle.{
  Observation, ObservationState, get_elem?, next_index, start, accumulate, accrue, with_last_update,
  advance, update,
}
use mim_swap_sol.States.OracleRing.{
  length-set, get_elem?-set_self, get_elem?-set_other, get_elem?_in_range, IsRing, is_young, slot,
  stamp, written, slot_lt, write-eq-written, written-IsRing,
}

-- Where the observation stands and the time it bears, the time since the last observation being
-- `now - last.block_timestamp`: under 15 seconds it replaces the last observation and keeps that
-- one's time, otherwise it is in the next of the 100 slots, which comes round to 0, and bears `now`.
pub data Placed (now : ℕ) (last : Observation) (before index time : ℕ) : Type 0 where
  replaced :
      now - last.block_timestamp < 15
      → index ≡ before
      → time ≡ last.block_timestamp
      → Placed now last before index time
  appended :
      15 ≤ now - last.block_timestamp
      → index ≡ (before + 1) % 100
      → time ≡ now
      → Placed now last before index time

-- What an update writes: the cumulative prices of `last` grow by price times elapsed time modulo
-- 2 ^ 128, in one slot; the other slots, the pool and the flag stay.
pub record Accumulates (now price_0 price_1 : ℕ) (last : Observation) (o o' : ObservationState)
    : Type 0 where
  pub observation : Observation
  pub found : get_elem? o'.observations o'.observation_index ≡ some observation
  pub sum_0 :
      observation.cumulative_token_0_price_x32
      ≡ (last.cumulative_token_0_price_x32 + price_0 * (now - o.last_update_timestamp)) % 2 ^ 128
  pub sum_1 :
      observation.cumulative_token_1_price_x32
      ≡ (last.cumulative_token_1_price_x32 + price_1 * (now - o.last_update_timestamp)) % 2 ^ 128
  pub placed : Placed now last o.observation_index o'.observation_index observation.block_timestamp
  pub others :
      (i : ℕ) → i ≢ o'.observation_index → get_elem? o'.observations i ≡ get_elem? o.observations i
  pub updated : o'.last_update_timestamp ≡ now
  pub pool_same : o'.pool_id ≡ o.pool_id
  pub still_initialized : o'.initialized ≡ true

written-Placed :
    (now : ℕ) (last : Observation) (o : ObservationState)
    → IsRing o
    → Placed now last o.observation_index (slot now last o) (stamp now last)
unfolding next_index
written-Placed now last o v = elim (Bool-cases (is_young now last)) [
  | inl young ↦ Placed.replaced (ground arith) (rw young refl) (rw young refl)
  | inr old ↦
      Placed.appended (ground arith) (rw old (next_mod o.observation_index v.in_ring)) (rw old refl)
]
  where
    next_mod : (i : ℕ) → i < 100 → next_index i ≡ (i + 1) % 100
    next_mod i h = ground arith

-- For an initialized ring whose last update is set and lies, like its last observation, before
-- `now`, and prices whose product with the time since the last update fits a `u128`: the update
-- succeeds, and the result is a ring, last updated now, whose current observation holds the last
-- observation's cumulative prices plus price times the time since the last update, modulo 2 ^ 128.
-- While the last observation is younger than 15 seconds the new one stands in its slot with its
-- time; otherwise it stands in the next of the 100 slots, in a circle, with the time `now`. All other
-- slots, the pool and the flag are as before.
pub update-Accumulates :
    (now price_0 price_1 : ℕ) (o : ObservationState) (last : Observation)
    → IsRing o
    → o.initialized ≡ true
    → get_elem? o.observations o.observation_index ≡ some last
    → o.last_update_timestamp ≢ 0
    → o.last_update_timestamp < now
    → last.block_timestamp < now
    → price_0 * (now - o.last_update_timestamp) ≤ u128_max
    → price_1 * (now - o.last_update_timestamp) ≤ u128_max
    → (o' : ObservationState) × (update now price_0 price_1 o ≡ ok o')
      × IsRing o'
      × Accumulates now price_0 price_1 last o o'
unfolding update advance accrue with_last_update checked_mul accumulate
update-Accumulates now price_0 price_1 o last v init found set_before later later' fit_0 fit_1 =
    let delta_0 = price_0 * (now - o.last_update_timestamp) in
    let delta_1 = price_1 * (now - o.last_update_timestamp) in
    (
      written now delta_0 delta_1 last o,
      ground (arith, write-eq-written now delta_0 delta_1 last o v),
      written-IsRing now delta_0 delta_1 last o v,
      record {
        observation = accumulate (stamp now last) delta_0 delta_1 last;
        found =
            get_elem?-set_self o.observations (slot now last o) _
              (omega (arith, slot_lt now last o v, v.full));
        sum_0 = refl;
        sum_1 = refl;
        placed = written-Placed now last o v;
        others = λ i apart. get_elem?-set_other o.observations (slot now last o) i _ apart;
        updated = refl;
        pool_same = refl;
        still_initialized = init;
      },
    )

-- A result that is a ring, or the overflow of a price times the elapsed time; never a panic.
abbrev pub IsSafe : Result ObservationState → Type 0
IsSafe (ok o) = IsRing o
IsSafe (err e) = e ≡ code ErrorCode.math_overflow
IsSafe panic = ⊥

accrue-IsSafe :
    (now elapsed price_0 price_1 : ℕ) (last : Observation) (o : ObservationState)
    → IsRing o
    → IsSafe (accrue now elapsed price_0 price_1 last o)
unfolding accrue
accrue-IsSafe now elapsed price_0 price_1 last o v =
    elim (Option-cases (checked_mul u128_max price_0 elapsed)) [
      | inl e ↦ rw e refl
      | inr (d0, e) ↦ elim (Option-cases (checked_mul u128_max price_1 elapsed)) [
        | inl e' ↦ rw (e, e') refl
        | inr (d1, e') ↦
            rw (e, e')
              (rw (write-eq-written now d0 d1 last o v) (written-IsRing now d0 d1 last o v))
      ]
    ]

with_last_update-IsRing :
    (last : Observation) (o : ObservationState) → IsRing o → IsRing (with_last_update last o)
unfolding with_last_update
with_last_update-IsRing last o v = ground arith

advance-IsSafe :
    (now price_0 price_1 : ℕ) (o : ObservationState)
    → IsRing o
    → IsSafe (advance now price_0 price_1 o)
unfolding advance
advance-IsSafe now price_0 price_1 o v =
    let (last, e) = get_elem?_in_range o.observations o.observation_index (omega arith) in
    let base = with_last_update last o in
    let ring = with_last_update-IsRing last o v in
    let elapsed = now - base.last_update_timestamp in
    elim (Bool-cases (elapsed == 0 || now - last.block_timestamp == 0)) [
      | inl idle ↦ rw e (rw idle ring)
      | inr due ↦ rw e (rw due (accrue-IsSafe now elapsed price_0 price_1 last base ring))
    ]

start-IsSafe : (now : ℕ) (o : ObservationState) → IsRing o → IsSafe (start now o)
unfolding start
start-IsSafe now o v =
    let (last, e) = get_elem?_in_range o.observations o.observation_index (omega arith) in
    rw e (record { full = length-set o.observations _ _ ∙ v.full; in_ring = v.in_ring })

-- Every update of a ring gives a ring or fails with `MathOverflow`: it never reads or writes out of
-- bounds, whatever the clock and the prices are.
pub update-IsSafe :
    (now price_0 price_1 : ℕ) (o : ObservationState)
    → IsRing o
    → IsSafe (update now price_0 price_1 o)
unfolding update
update-IsSafe now price_0 price_1 o v = elim (Bool-cases o.initialized) [
  | inl on ↦ simp on (advance-IsSafe now price_0 price_1 o v)
  | inr off ↦ simp off (start-IsSafe now o v)
]
