-- ===== src/Treasury/Requests.antt =====
-- The open redemption requests (programs/mana-treasury/src/lib.rs, `RedemptionRequest`) and what
-- they add up to.
use mim_swap_sol.Prelude.{
  false, sym, ◌∙◌, ◌≢◌, ℕ, ◌+◌, ◌≤◌, ◌≡◌, ◌==◌, true, refl, none, some, List, [], ◌∷◌, arith,
  Bool-cases, inl, inr,
}
use mathlib.Core.Path.{subst₂}
use mathlib.Core.Option.{some-injective}
use mim_swap_sol.Errors.{Pubkey}
use mim_swap_sol.Treasury.Accounts.{find}
use mim_swap_sol.Treasury.Staking.{close}

pub key_of : (k j : Pubkey) → (k == j) ≡ true → j ≡ k
key_of k j h = ground arith

module _ {A : Type 0} (weight : A → ℕ) where
  abbrev pub total : List (Pubkey × A) → ℕ
  total [] = 0
  total ((_, a) ∷ rest) = weight a + total rest

  pub total-close :
      (k : Pubkey) (xs : List (Pubkey × A)) {a : A}
      → find k xs ≡ some a
      → total xs ≡ total (close k xs) + weight a
  unfolding find close
  total-close k [] {a} h = absurd (let no : ⊥ = cc in no)
  total-close k ((j, b) ∷ rest) {a} h = elim (Bool-cases (k == j)) [
    | inl here ↦
        let same : b ≡ a = some-injective _ _ (rw here at h) in rw here (rw same (omega arith))
    | inr there ↦ let ih = total-close k rest {a = a} (rw there at h) in rw there (omega arith)
  ]

  pub weight-le-total :
      (k : Pubkey) (xs : List (Pubkey × A)) {a : A} → find k xs ≡ some a → weight a ≤ total xs
  weight-le-total k xs {a} h = omega (arith, total-close k xs {a = a} h)

-- Another key's account stays.
pub find-close_apart :
    {A : Type 0} (j k : Pubkey) (xs : List (Pubkey × A)) → j ≢ k → find j (close k xs) ≡ find j xs
unfolding find close
find-close_apart j k [] apart = refl
find-close_apart j k ((i, b) ∷ rest) apart = elim (Bool-cases (k == i)) [
  | inl gone ↦
      let other : (j == i) ≡ false = ground (arith, key_of k i gone) in rw gone (rw other refl)
  | inr stays ↦ rw stays (elim (Bool-cases (j == i)) [
    | inl here ↦ rw here refl
    | inr there ↦ rw there (find-close_apart j k rest apart)
  ])
]

-- So does the account of a key that is there when one is added under a new key.
pub find-cons_apart :
    {A : Type 0} (j k : Pubkey) (b : A) (xs : List (Pubkey × A)) {a : A}
    → find k xs ≡ none
    → find j xs ≡ some a
    → find j ((k, b) ∷ xs) ≡ some a
unfolding find
find-cons_apart j k b xs {a} fresh h = elim (Bool-cases (j == k)) [
  | inl same ↦
      let clash : none ≡ some a = sym fresh ∙ (rw (key_of j k same) h) in
      absurd (let no : ⊥ = cc in no)
  | inr differs ↦ rw differs h
]

-- Every account is at its own key, and no key twice.
module _ {A : Type 0} (P : Pubkey → A → Type 0) where
  abbrev pub AllAt : List (Pubkey × A) → Type 0
  AllAt [] = Unit
  AllAt ((k, a) ∷ rest) = P k a × (find k rest ≡ none) × AllAt rest

  pub AllAt-find :
      (k : Pubkey) (xs : List (Pubkey × A)) {a : A} → AllAt xs → find k xs ≡ some a → P k a
  unfolding find
  AllAt-find k [] all h = absurd (let no : ⊥ = cc in no)
  AllAt-find k ((j, b) ∷ rest) {a} all h = elim (Bool-cases (k == j)) [
    | inl here ↦
        let same : b ≡ a = some-injective _ _ (rw here at h) in
        subst₂ P (key_of k j here) same all.0
    | inr there ↦ AllAt-find k rest all.2 (rw there at h)
  ]

  pub find-close_self :
      (k : Pubkey) (xs : List (Pubkey × A)) → AllAt xs → find k (close k xs) ≡ none
  unfolding find close
  find-close_self k [] all = refl
  find-close_self k ((j, b) ∷ rest) all = elim (Bool-cases (k == j)) [
    | inl here ↦ rw here (rw (key_of k j here) at all.1)
    | inr there ↦ rw there (rw there (find-close_self k rest all.2))
  ]

  pub find-close_other :
      (j k : Pubkey) (xs : List (Pubkey × A)) → find j xs ≡ none → find j (close k xs) ≡ none
  unfolding find close
  find-close_other j k [] h = refl
  find-close_other j k ((i, b) ∷ rest) h = elim (Bool-cases (j == i)) [
    | inl here ↦ absurd (let e : some b ≡ none = (rw here at h) in let no : ⊥ = cc in no)
    | inr there ↦
        let tail : find j rest ≡ none = rw there at h in
        elim (Bool-cases (k == i)) [
          | inl gone ↦ rw gone tail
          | inr stays ↦ rw stays (rw there (find-close_other j k rest tail))
        ]
  ]

  pub AllAt-close : (k : Pubkey) (xs : List (Pubkey × A)) → AllAt xs → AllAt (close k xs)
  unfolding close
  AllAt-close k [] all = tt
  AllAt-close k ((j, b) ∷ rest) all = elim (Bool-cases (k == j)) [
    | inl here ↦ rw here all.2
    | inr there ↦ rw there (all.0, find-close_other j k rest all.1, AllAt-close k rest all.2)
  ]
