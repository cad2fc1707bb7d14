-- ===== src/Swap/Settle.antt =====
-- What `swap_base_input` and `swap_base_output` share
-- (programs/cp-swap/src/instructions/swap_base_input.rs, swap_base_output.rs): the gate at their
-- beginning, and all that follows once the amounts are known.
use mim_swap_sol.Prelude.{
  ℕ, ltb, leb, ◌||◌, not, if◌then◌else◌, Bool, u64_max, narrow, ok, err, unwrap, require, ◌>>=◌,
  ◌>>◌,
}
use mim_swap_sol.Errors.{ErrorCode, AnchorError, code, anchor, Result}
use mim_swap_sol.Curve.Calculator.{SwapResult, Rates}
use mim_swap_sol.Token.Interface.{TokenProgram, Transfer}
use mim_swap_sol.Token.Calls.{transfer_from_user_to_pool_vault, transfer_from_pool_vault_to_user}
use mim_swap_sol.States.Pool.{PoolState, PoolStatusBitIndex, get_status_by_bit}
use mim_swap_sol.States.PoolFees.{SwapParams, get_swap_params, adjust_creator_fee_rate, update_fees}
use mim_swap_sol.States.Config.{AmmConfig}
use mim_swap_sol.States.Oracle.{update}
use mim_swap_sol.Swap.Accounts.{Clock, World, SwapAccounts, SwapEvent}

-- A swap whose amounts are known: the pool's parameters, the calculator's result, and what moves.
pub record Quote : Type 0 where
  pub params : SwapParams
  pub result : SwapResult
  pub input_transfer_amount : ℕ
  pub input_transfer_fee : ℕ
  pub output_transfer_amount : ℕ
  pub output_transfer_fee : ℕ
  pub base_input : Bool

unfoldable pub check_open : Clock → PoolState → Result (Unit {0})
check_open clock pool =
    if not (get_status_by_bit PoolStatusBitIndex.swap pool)
      || ltb clock.unix_timestamp pool.open_time
    then err (code ErrorCode.not_approved)
    else ok tt

-- The rates of a swap.
abbrev pub rates_of : AmmConfig → PoolState → Rates
rates_of config pool = record {
  trade = config.trade_fee_rate;
  creator = adjust_creator_fee_rate config.creator_fee_rate pool;
  protocol = config.protocol_fee_rate;
  fund = config.fund_fee_rate;
}

-- `u64::try_from(x).unwrap()`
abbrev pub to_u64 : ℕ → Result ℕ
to_u64 n = unwrap (narrow u64_max n)

abbrev pub input_transfer : SwapAccounts → Transfer
input_transfer a = record {
  program = a.input_token_program;
  authority = a.payer;
  from = a.input_token_account;
  to = a.input_vault;
  mint = a.input_token_mint;
}

abbrev pub output_transfer : SwapAccounts → Transfer
output_transfer a = record {
  program = a.output_token_program;
  authority = a.authority;
  from = a.output_vault;
  to = a.output_token_account;
  mint = a.output_token_mint;
}

unfoldable pub swap_event : SwapAccounts → Quote → Result SwapEvent
swap_event a q = do
  input_amount ← to_u64 q.result.input_amount
  output_amount ← to_u64 q.result.output_amount
  trade_fee ← to_u64 q.result.trade_fee
  creator_fee ← to_u64 q.result.creator_fee
  ok (record {
    pool_id = a.pool_state;
    input_vault_before = q.params.total_input_token_amount;
    output_vault_before = q.params.total_output_token_amount;
    input_amount = input_amount;
    output_amount = output_amount;
    input_transfer_fee = q.input_transfer_fee;
    output_transfer_fee = q.output_transfer_fee;
    base_input = q.base_input;
    input_mint = a.input_token_mint;
    output_mint = a.output_token_mint;
    trade_fee = trade_fee;
    creator_fee = creator_fee;
    creator_fee_on_input = q.params.is_creator_fee_on_input;
  })

module _ (t : TokenProgram) where
  abbrev pub params_of : SwapAccounts → World t → Result SwapParams
  params_of a w =
      get_swap_params a.input_vault a.output_vault (t.account w.ledger a.input_vault).amount
        (t.account w.ledger a.output_vault).amount w.pool

  -- The two transfers. Anchor read the mints before the handler began, so both decimals are those of
  -- the ledger at its start.
  unfoldable pub move_tokens : Clock → SwapAccounts → ℕ → ℕ → t.Ledger → Result t.Ledger
  move_tokens clock a input_amount output_amount ledger = do
    paid ←
        transfer_from_user_to_pool_vault t clock.epoch (input_transfer a) input_amount
          (t.mint ledger a.input_token_mint).decimals ledger
    transfer_from_pool_vault_to_user t clock.epoch (output_transfer a) output_amount
        (t.mint ledger a.output_token_mint).decimals paid

  -- The fees are booked, the tokens move, the oracle takes the price from before the swap.
  -- The products of the vaults have been computed by the caller.
  unfoldable pub settle :
      Clock → SwapAccounts → Quote → ℕ → ℕ → World t → Result (World t × SwapEvent)
  settle clock a q constant_before constant_after w = do
    protocol_fee ← to_u64 q.result.protocol_fee
    fund_fee ← to_u64 q.result.fund_fee
    creator_fee ← to_u64 q.result.creator_fee
    pool ← update_fees protocol_fee fund_fee creator_fee q.params.trade_direction w.pool
    event ← swap_event a q
    require (leb constant_before constant_after) (anchor AnchorError.require_gte_violated)
    ledger ← move_tokens clock a q.input_transfer_amount q.output_transfer_amount w.ledger
    observation ←
        update clock.unix_timestamp q.params.token_0_price_x64 q.params.token_1_price_x64
          w.observation
    ok (
      record {
        pool = record pool { recent_epoch = clock.epoch };
        observation = observation;
        ledger = ledger;
      },
      event,
    )
