-- ===== src/States/Oracle.antt =====
-- programs/cp-swap/src/states/oracle.rs: the ring of price observations.
use mim_swap_sol.Prelude.{
  ℕ, zero, suc, ◌+◌, ◌-◌, ◌%◌, ◌==◌, ltb, if◌then◌else◌, ◌||◌, Bool, true, false, List, [], ◌∷◌,
  Option, none, some, u128_max, checked_mul, ok, unwrap, ok_or, ◌>>=◌, ◌>>◌,
}
use mim_swap_sol.Errors.{Pubkey, default_pubkey, ErrorCode, code, Result}

abbrev pub observation_num : ℕ
observation_num = 100

abbrev pub observation_update_duration_default : ℕ
observation_update_duration_default = 15

pub record Observation : Type 0 where
  pub block_timestamp : ℕ
  pub cumulative_token_0_price_x32 : ℕ
  pub cumulative_token_1_price_x32 : ℕ

pub record ObservationState : Type 0 where
  pub initialized : Bool
  pub observation_index : ℕ
  pub pool_id : Pubkey
  pub observations : List Observation
  pub last_update_timestamp : ℕ

module _ {ℓ} {A : Type ℓ} where
  abbrev pub length : List A → ℕ
  length [] = 0
  length (_ ∷ xs) = suc (length xs)

  abbrev pub get_elem? : List A → ℕ → Option A
  get_elem? [] i = none
  get_elem? (x ∷ xs) zero = some x
  get_elem? (x ∷ xs) (suc i) = get_elem? xs i

  abbrev pub set : List A → ℕ → A → List A
  set [] i v = []
  set (x ∷ xs) zero v = v ∷ xs
  set (x ∷ xs) (suc i) v = x ∷ set xs i v

  abbrev pub replicate : ℕ → A → List A
  replicate zero a = []
  replicate (suc n) a = a ∷ replicate n a

abbrev pub default_observation : Observation
default_observation = record {
  block_timestamp = 0;
  cumulative_token_0_price_x32 = 0;
  cumulative_token_1_price_x32 = 0;
}

unfoldable pub default : ObservationState
default = record {
  initialized = false;
  observation_index = 0;
  pool_id = default_pubkey;
  observations = replicate observation_num default_observation;
  last_update_timestamp = 0;
}

-- `u128::wrapping_add`
abbrev pub wrapping_add : ℕ → ℕ → ℕ
wrapping_add a b = (a + b) % (u128_max + 1)

-- `a[i]` and `a[i] = v`, which panic out of bounds.
abbrev pub at : List Observation → ℕ → Result Observation
at xs i = unwrap (get_elem? xs i)

unfoldable pub next_index : ℕ → ℕ
next_index i = if i == observation_num - 1 then 0 else i + 1

-- The first update only fixes the time.
unfoldable pub start : ℕ → ObservationState → Result ObservationState
start now self = do
  at self.observations self.observation_index
  ok (record self {
    initialized = true;
    observations = set self.observations self.observation_index (record {
      block_timestamp = now;
      cumulative_token_0_price_x32 = 0;
      cumulative_token_1_price_x32 = 0;
    });
    last_update_timestamp = now;
  })

-- The last observation with `deltas` added to its cumulative prices.
unfoldable pub accumulate : ℕ → ℕ → ℕ → Observation → Observation
accumulate now delta_0 delta_1 last = record {
  block_timestamp = now;
  cumulative_token_0_price_x32 = wrapping_add last.cumulative_token_0_price_x32 delta_0;
  cumulative_token_1_price_x32 = wrapping_add last.cumulative_token_1_price_x32 delta_1;
}

-- The write: into the slot of the last observation while it is young, else into the next slot.
unfoldable pub write : ℕ → ℕ → ℕ → Observation → ObservationState → Result ObservationState
write now delta_0 delta_1 last self =
    let next = next_index self.observation_index in
    let young = ok (record self {
      observations =
          set self.observations self.observation_index
            (accumulate last.block_timestamp delta_0 delta_1 last);
      last_update_timestamp = now;
    }) in
    let old =
      at self.observations next
      >> ok (record self {
        observations = set self.observations next (accumulate now delta_0 delta_1 last);
        observation_index = next;
        last_update_timestamp = now;
      }) in
    if ltb (now - last.block_timestamp) observation_update_duration_default then young else old

-- The deltas of the cumulative prices over the elapsed time, and the write.
unfoldable pub accrue : ℕ → ℕ → ℕ → ℕ → Observation → ObservationState → Result ObservationState
accrue now elapsed price_0 price_1 last self = do
  delta_0 ← ok_or (checked_mul u128_max price_0 elapsed) (code ErrorCode.math_overflow)
  delta_1 ← ok_or (checked_mul u128_max price_1 elapsed) (code ErrorCode.math_overflow)
  write now delta_0 delta_1 last self

-- A legacy account has no time of its last update: it takes that of its last observation.
unfoldable pub with_last_update : Observation → ObservationState → ObservationState
with_last_update last self =
    if self.last_update_timestamp == 0
    then record self { last_update_timestamp = last.block_timestamp }
    else self

-- An update of an initialized oracle. `-` on ℕ is `saturating_sub`.
unfoldable pub advance : ℕ → ℕ → ℕ → ObservationState → Result ObservationState
advance now price_0 price_1 self = do
  last ← at self.observations self.observation_index
  let base = with_last_update last self
  let elapsed = now - base.last_update_timestamp
  if elapsed == 0 || now - last.block_timestamp == 0
      then ok base
      else accrue now elapsed price_0 price_1 last base

unfoldable pub update : ℕ → ℕ → ℕ → ObservationState → Result ObservationState
update now price_0 price_1 self =
    if self.initialized then advance now price_0 price_1 self else start now self
