-- ===== src/Swap/Accounts.antt =====
-- What the swap program's instructions work on: the pool, its oracle and the token ledger; and the
-- accounts of a swap with Anchor's constraints on them
-- (programs/cp-swap/src/instructions/swap_base_input.rs, `Swap`). That `payer` is a signer, that
-- `authority` is the derived address and that accounts have their types is Anchor's.
use mim_swap_sol.Prelude.{ℕ, ◌==◌, ◌||◌, Bool, require, ◌>>◌}
use mim_swap_sol.Errors.{Pubkey, AnchorError, anchor, Result}
use mim_swap_sol.Token.Interface.{TokenProgram}
use mim_swap_sol.States.Pool.{PoolState}
use mim_swap_sol.States.Oracle.{ObservationState}

-- `unix_timestamp` is the clock's, as the `u64` that the program reads.
pub record Clock : Type 0 where
  pub unix_timestamp : ℕ
  pub epoch : ℕ

pub record World (t : TokenProgram) : Type 0 where
  pub pool : PoolState
  pub observation : ObservationState
  pub ledger : t.Ledger

pub record SwapAccounts : Type 0 where
  pub payer : Pubkey
  pub authority : Pubkey
  pub amm_config : Pubkey
  pub pool_state : Pubkey
  pub input_token_account : Pubkey
  pub output_token_account : Pubkey
  pub input_vault : Pubkey
  pub output_vault : Pubkey
  pub input_token_program : Pubkey
  pub output_token_program : Pubkey
  pub input_token_mint : Pubkey
  pub output_token_mint : Pubkey
  pub observation_state : Pubkey

-- `SwapEvent` of programs/cp-swap/src/states/events.rs.
pub record SwapEvent : Type 0 where
  pub pool_id : Pubkey
  pub input_vault_before : ℕ
  pub output_vault_before : ℕ
  pub input_amount : ℕ
  pub output_amount : ℕ
  pub input_transfer_fee : ℕ
  pub output_transfer_fee : ℕ
  pub base_input : Bool
  pub input_mint : Pubkey
  pub output_mint : Pubkey
  pub trade_fee : ℕ
  pub creator_fee : ℕ
  pub creator_fee_on_input : Bool

module _ (t : TokenProgram) where
  -- The constraints of `Swap`, in their order.
  unfoldable pub validate_swap : SwapAccounts → World t → Result (Unit {0})
  validate_swap a w = do
    require (a.amm_config == w.pool.amm_config) (anchor AnchorError.constraint_address)
    require (a.input_vault == w.pool.token_0_vault || a.input_vault == w.pool.token_1_vault)
        (anchor AnchorError.constraint_raw)
    require (a.output_vault == w.pool.token_0_vault || a.output_vault == w.pool.token_1_vault)
        (anchor AnchorError.constraint_raw)
    require (a.input_token_mint == (t.account w.ledger a.input_vault).mint)
        (anchor AnchorError.constraint_address)
    require (a.output_token_mint == (t.account w.ledger a.output_vault).mint)
        (anchor AnchorError.constraint_address)
    require (a.observation_state == w.pool.observation_key) (anchor AnchorError.constraint_address)
