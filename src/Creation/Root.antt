-- ===== src/Creation/Root.antt =====
-- The numbers of a new pool (programs/cp-swap/src/instructions/initialize.rs): when it opens, and its
-- first supply of lp tokens.
use mim_swap_sol.Prelude.{
  ℕ, Option, some, narrow-eq_some, ◌+◌, ◌*◌, ◌≤◌, ◌<◌, ◌≡◌, u64_max, u128_max, unwrap, checked_add,
  checked_mul, ok, sym, ap, ◌∙◌, arith, >>=-elim,
}
use mim_swap_sol.Errors.{Error, ErrorCode, code, Result}
use mim_swap_sol.Curve.Calculator.{validate_supply}
use mim_swap_sol.Creation.Accounts.{Program}
use mim_swap_sol.Creation.Handlers.{opening, initial_liquidity}

pub opening-later : (open_time now : ℕ) {opens : ℕ} → opening open_time now ≡ ok opens → now < opens
unfolding opening checked_add
opening-later open_time now {opens} h = ground arith

-- The documented behaviour of `integer_sqrt`.
abbrev pub IsSqrt : (ℕ → ℕ) → Type 0
IsSqrt root = (n : ℕ) → (root n * root n ≤ n) × (n < (root n + 1) * (root n + 1))

module _ (program : Program) (root : IsSqrt program.integer_sqrt) where
  pub initial_liquidity-root :
      (x y : ℕ) {liquidity : ℕ}
      → initial_liquidity program x y ≡ ok liquidity
      → (0 < x)
        × (0 < y)
        × (liquidity * liquidity ≤ x * y)
        × (x * y < (liquidity + 1) * (liquidity + 1))
  unfolding initial_liquidity validate_supply checked_mul
  initial_liquidity-root x y {liquidity} h =
      let below = (root (x * y)).0 in
      >>=-elim (validate_supply (code ErrorCode.empty_supply) x y) _ h λ _ e0 h0.
        >>=-elim (product_of x y) _ h0 λ product e1 h1.
          let is_product : x * y ≡ product = ground arith in
          let is_root : program.integer_sqrt (x * y) ≡ liquidity =
            ap (λ n. program.integer_sqrt n) is_product
            ∙ sym (narrow-eq_some u64_max (program.integer_sqrt product) (fits _ h1)).0 in
          (ground arith, ground arith, rw (← is_root) below, rw (← is_root) (root (x * y)).1)
    where
      fits : (o : Option ℕ) {n : ℕ} → unwrap {E = Error} o ≡ ok n → o ≡ some n
      fits o e = ground arith

      product_of : ℕ → ℕ → Result ℕ
      product_of a b = unwrap (checked_mul u128_max a b)
