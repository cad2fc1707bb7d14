-- ===== src/States/OracleRing.antt =====
-- The ring of observations (programs/cp-swap/src/states/oracle.rs): a list of fixed length with an index
-- into it, and the one slot that a write changes.
use mim_swap_sol.Prelude.{
  ℕ, zero, suc, ◌-◌, ◌<◌, ◌≡◌, ◌∙◌, ◌≢◌, inl, inr, refl, ltb, if◌then◌else◌, Bool, some, List, [],
  ◌∷◌, ok, arith, Bool-cases, ap,
}
use mim_swap_sol.States.Oracle.{
  Observation, ObservationState, observation_num, observation_update_duration_default, length,
  get_elem?, set, default, next_index, accumulate, write,
}

pub length-set {ℓ} : {A : Type ℓ} (xs : List A) (i : ℕ) (v : A) → length (set xs i v) ≡ length xs
length-set [] i v = refl
length-set (x ∷ xs) zero v = refl
length-set (x ∷ xs) (suc i) v = ap suc (length-set xs i v)

pub get_elem?-set_self {ℓ} :
    {A : Type ℓ} (xs : List A) (i : ℕ) (v : A) → i < length xs → get_elem? (set xs i v) i ≡ some v
get_elem?-set_self [] i v h = absurd (omega arith)
get_elem?-set_self (x ∷ xs) zero v h = refl
get_elem?-set_self (x ∷ xs) (suc i) v h = get_elem?-set_self xs i v (omega arith)

pub get_elem?-set_other {ℓ} :
    {A : Type ℓ} (xs : List A) (i j : ℕ) (v : A) → j ≢ i → get_elem? (set xs i v) j ≡ get_elem? xs j
get_elem?-set_other [] i j v apart = refl
get_elem?-set_other (x ∷ xs) zero zero v apart = absurd (apart refl)
get_elem?-set_other (x ∷ xs) zero (suc j) v apart = refl
get_elem?-set_other (x ∷ xs) (suc i) zero v apart = refl
get_elem?-set_other (x ∷ xs) (suc i) (suc j) v apart =
    get_elem?-set_other xs i j v (λ e. apart (ap suc e))

pub get_elem?_in_range {ℓ} :
    {A : Type ℓ} (xs : List A) (i : ℕ) → i < length xs → (v : A) × (get_elem? xs i ≡ some v)
get_elem?_in_range [] i h = absurd (omega arith)
get_elem?_in_range (x ∷ xs) zero h = (x, refl)
get_elem?_in_range (x ∷ xs) (suc i) h = get_elem?_in_range xs i (omega arith)

-- The ring has its full length, and the index of the last observation is in it.
pub record IsRing (o : ObservationState) : Type 0 where
  pub full : length o.observations ≡ observation_num
  pub in_ring : o.observation_index < observation_num

pub default-IsRing : IsRing default
unfolding default
default-IsRing = omega arith

pub next_index_lt : (i : ℕ) → i < observation_num → next_index i < observation_num
unfolding next_index
next_index_lt i h = ground arith

-- While the last observation is younger than the update duration.
abbrev pub is_young : ℕ → Observation → Bool
is_young now last = ltb (now - last.block_timestamp) observation_update_duration_default

-- The slot that an update writes, and the time that it puts there.
abbrev pub slot : ℕ → Observation → ObservationState → ℕ
slot now last o = if is_young now last then o.observation_index else next_index o.observation_index

abbrev pub stamp : ℕ → Observation → ℕ
stamp now last = if is_young now last then last.block_timestamp else now

abbrev pub written : ℕ → ℕ → ℕ → Observation → ObservationState → ObservationState
written now delta_0 delta_1 last o = record o {
  observation_index = slot now last o;
  observations =
      set o.observations (slot now last o) (accumulate (stamp now last) delta_0 delta_1 last);
  last_update_timestamp = now;
}

pub slot_lt :
    (now : ℕ) (last : Observation) (o : ObservationState)
    → IsRing o
    → slot now last o < observation_num
slot_lt now last o v = ground (arith, next_index_lt o.observation_index)

pub write-eq-written :
    (now delta_0 delta_1 : ℕ) (last : Observation) (o : ObservationState)
    → IsRing o
    → write now delta_0 delta_1 last o ≡ ok (written now delta_0 delta_1 last o)
unfolding write
write-eq-written now delta_0 delta_1 last o v = elim (Bool-cases (is_young now last)) [
  | inl young ↦ rw young
  | inr old ↦
      let (w, e) =
        get_elem?_in_range o.observations (next_index o.observation_index)
          (omega (arith, next_index_lt o.observation_index v.in_ring, v.full)) in
      rw old (rw e)
]

pub written-IsRing :
    (now delta_0 delta_1 : ℕ) (last : Observation) (o : ObservationState)
    → IsRing o
    → IsRing (written now delta_0 delta_1 last o)
written-IsRing now delta_0 delta_1 last o v = record {
  full = length-set o.observations _ _ ∙ v.full;
  in_ring = slot_lt now last o v;
}
