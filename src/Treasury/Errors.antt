-- ===== src/Treasury/Errors.antt =====
-- `TreasuryError` of programs/mana-treasury/src/lib.rs, and the errors that the treasury program
-- returns beside its own.
use mim_swap_sol.Prelude.{Option, none, some, Outcome, ok, err}
use mim_swap_sol.Errors.{AnchorError}

pub data TreasuryError : Type 0 where
  invalid_amount invalid_mim_mint math_overflow exceeded_slippage zero_mana_out zero_mim_out
        invalid_treasury_balance invalid_authority invalid_asset_mint invalid_asset_vault
        swap_router_not_set invalid_swap_router invalid_swap_result cooldown_active
        already_finalized invalid_redemption_owner :
      TreasuryError

-- `external` is an error of a program that is called: a token program, the system program (which
-- refuses to create an account that exists), or the swap router.
pub data Failure : Type 0 where
  treasury : TreasuryError → Failure
  anchor : AnchorError → Failure
  external : Failure

abbrev pub Attempt {ℓ} : Type ℓ → Type ℓ
Attempt A = Outcome Failure A

-- `?` on the call of another program.
abbrev pub invoke {ℓ} : {A : Type ℓ} → Option A → Attempt A
invoke none = err external
invoke (some a) = ok a
