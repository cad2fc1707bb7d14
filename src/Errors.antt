-- ===== src/Errors.antt =====
-- programs/cp-swap/src/error.rs, and the errors that the swap program returns beside its own.
use mim_swap_sol.Prelude.{ℕ, Option, none, some, Outcome, ok, err}

-- A public key is only compared, so it is a number; `Pubkey::default()` is all zeros.
abbrev pub Pubkey : Type 0
Pubkey = ℕ

abbrev pub default_pubkey : Pubkey
default_pubkey = 0

pub data ErrorCode : Type 0 where
  not_approved invalid_owner empty_supply invalid_input incorrect_lp_mint exceeded_slippage
        zero_trading_tokens not_support_mint invalid_vault init_lp_amount_too_less
        transfer_fee_calculate_not_match math_overflow insufficient_vault invalid_fee_model
        no_fee_collect invalid_fee_recipient invalid_treasury_fee_config :
      ErrorCode

-- Anchor's own errors: those of `require_eq!`, `require_gt!`, `require_gte!` and
-- `require_keys_neq!` without a code, those of account constraints without a code, and that of an
-- account that is not there.
pub data AnchorError : Type 0 where
  require_eq_violated require_gt_violated require_gte_violated require_keys_neq_violated
        constraint_address constraint_raw constraint_token_owner constraint_token_mint
        constraint_mint_token_program constraint_seeds account_not_initialized :
      AnchorError

-- `external` is an error of a program that is called, such as a token program.
pub data Error : Type 0 where
  code : ErrorCode → Error
  anchor : AnchorError → Error
  external : Error

abbrev pub Result {ℓ} : Type ℓ → Type ℓ
Result A = Outcome Error A

-- `?` on the call of another program.
abbrev pub call {ℓ} : {A : Type ℓ} → Option A → Result A
call none = err external
call (some a) = ok a
