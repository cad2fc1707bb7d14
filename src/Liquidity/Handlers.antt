-- ===== src/Liquidity/Handlers.antt =====
-- programs/cp-swap/src/instructions/deposit.rs and withdraw.rs. Anchor reads the accounts and mints
-- before a handler begins, so the amounts and decimals are those of the ledger at its start.
use mim_swap_sol.Prelude.{
  ℕ, ◌-◌, ◌==◌, ltb, leb, ◌||◌, not, min, u64_max, checked_add, checked_sub, ok, unwrap, ok_or,
  require, ◌>>=◌, ◌>>◌,
}
use mim_swap_sol.Errors.{ErrorCode, AnchorError, code, anchor, Result}
use mim_swap_sol.Curve.ConstantProduct.{RoundDirection, lp_tokens_to_trading_tokens}
use mim_swap_sol.Token.Interface.{TokenProgram}
use mim_swap_sol.Token.Calls.{
  get_transfer_fee, get_transfer_inverse_fee, transfer_from_user_to_pool_vault,
  transfer_from_pool_vault_to_user, token_mint_to, token_burn,
}
use mim_swap_sol.States.Pool.{PoolState, PoolStatusBitIndex, get_status_by_bit}
use mim_swap_sol.States.PoolFees.{vault_amount_without_fee}
use mim_swap_sol.Swap.Accounts.{Clock, World}
use mim_swap_sol.Swap.Settle.{to_u64}
use mim_swap_sol.Liquidity.Accounts.{
  LpAccounts, LpChangeEvent, validate_deposit, validate_withdraw, into_0, into_1, out_of_0,
  out_of_1,
}

-- What the vaults hold beside the fees, and what the lp tokens are worth of it.
pub record Entitled : Type 0 where
  pub total_token_0_amount : ℕ
  pub total_token_1_amount : ℕ
  pub token_0_amount : ℕ
  pub token_1_amount : ℕ

-- The amounts of the tokens that move, their transfer fees included, and the fees.
pub record Parts : Type 0 where
  pub amount_0 : ℕ
  pub fee_0 : ℕ
  pub amount_1 : ℕ
  pub fee_1 : ℕ

-- The two zero tests and what precedes them.
unfoldable pub entitled :
    PoolStatusBitIndex → RoundDirection → ℕ → ℕ → ℕ → PoolState → Result Entitled
entitled bit round_direction lp_token_amount vault_0 vault_1 pool = do
  require (get_status_by_bit bit pool) (code ErrorCode.not_approved)
  totals ← vault_amount_without_fee vault_0 vault_1 pool
  results ←
      ok_or
        (lp_tokens_to_trading_tokens lp_token_amount pool.lp_supply totals.0 totals.1
          round_direction)
        (code ErrorCode.zero_trading_tokens)
  require (not (results.token_0_amount == 0 || results.token_1_amount == 0))
      (code ErrorCode.zero_trading_tokens)
  ok (record {
    total_token_0_amount = totals.0;
    total_token_1_amount = totals.1;
    token_0_amount = results.token_0_amount;
    token_1_amount = results.token_1_amount;
  })

module _ (t : TokenProgram) where
  -- What a deposit pays: the shares, grossed up by the transfer fees.
  unfoldable pub deposit_parts : Clock → LpAccounts → Entitled → World t → Result Parts
  deposit_parts clock a e w = do
    token_0_amount ← to_u64 e.token_0_amount
    fee_0 ← get_transfer_inverse_fee t clock.epoch (t.mint w.ledger a.vault_0_mint) token_0_amount
    amount_0 ← unwrap (checked_add u64_max token_0_amount fee_0)
    token_1_amount ← to_u64 e.token_1_amount
    fee_1 ← get_transfer_inverse_fee t clock.epoch (t.mint w.ledger a.vault_1_mint) token_1_amount
    amount_1 ← unwrap (checked_add u64_max token_1_amount fee_1)
    ok (record { amount_0 = amount_0; fee_0 = fee_0; amount_1 = amount_1; fee_1 = fee_1 })

  -- The two transfers into the vaults.
  unfoldable pub deposit_moves : Clock → LpAccounts → Parts → World t → Result t.Ledger
  deposit_moves clock a parts w = do
    paid_0 ←
        transfer_from_user_to_pool_vault t clock.epoch (into_0 t a w) parts.amount_0
          (t.mint w.ledger a.vault_0_mint).decimals w.ledger
    transfer_from_user_to_pool_vault t clock.epoch (into_1 t a w) parts.amount_1
        (t.mint w.ledger a.vault_1_mint).decimals paid_0

  unfoldable pub deposit :
      Clock → LpAccounts → ℕ → ℕ → ℕ → World t → Result (World t × LpChangeEvent)
  deposit clock a lp_token_amount maximum_0 maximum_1 w = do
    validate_deposit t a w
    require (ltb 0 lp_token_amount) (anchor AnchorError.require_gt_violated)
    e ←
        entitled PoolStatusBitIndex.deposit RoundDirection.ceiling lp_token_amount
          (t.account w.ledger a.token_0_vault).amount (t.account w.ledger a.token_1_vault).amount
          w.pool
    parts ← deposit_parts clock a e w
    require (not (ltb maximum_0 parts.amount_0 || ltb maximum_1 parts.amount_1))
        (code ErrorCode.exceeded_slippage)
    paid ← deposit_moves clock a parts w
    lp_supply ← unwrap (checked_add u64_max w.pool.lp_supply lp_token_amount)
    ledger ← token_mint_to t a.authority a.lp_mint a.owner_lp_token lp_token_amount paid
    ok (
      record w {
        pool = record (w.pool) { lp_supply = lp_supply; recent_epoch = clock.epoch };
        ledger = ledger;
      },
      record {
        pool_id = a.pool_state;
        lp_amount_before = w.pool.lp_supply;
        token_0_vault_before = e.total_token_0_amount;
        token_1_vault_before = e.total_token_1_amount;
        token_0_amount = e.token_0_amount;
        token_1_amount = e.token_1_amount;
        token_0_transfer_fee = parts.fee_0;
        token_1_transfer_fee = parts.fee_1;
        change_type = 0;
      },
    )

  -- What a withdrawal takes: the shares, no more than the vaults hold beside the fees.
  unfoldable pub withdraw_parts : Clock → LpAccounts → Entitled → World t → Result Parts
  withdraw_parts clock a e w = do
    share_0 ← to_u64 e.token_0_amount
    let amount_0 = min e.total_token_0_amount share_0 in
        do
          fee_0 ← get_transfer_fee t clock.epoch (t.mint w.ledger a.vault_0_mint) amount_0
          unwrap (checked_sub amount_0 fee_0)
          share_1 ← to_u64 e.token_1_amount
          let amount_1 = min e.total_token_1_amount share_1 in
              do
                fee_1 ← get_transfer_fee t clock.epoch (t.mint w.ledger a.vault_1_mint) amount_1
                unwrap (checked_sub amount_1 fee_1)
                ok (record {
                  amount_0 = amount_0;
                  fee_0 = fee_0;
                  amount_1 = amount_1;
                  fee_1 = fee_1;
                })

  -- The lp tokens are burnt, and the two transfers leave the vaults.
  unfoldable pub withdraw_moves : Clock → LpAccounts → ℕ → Parts → World t → Result t.Ledger
  withdraw_moves clock a lp_token_amount parts w = do
    burnt ← token_burn t a.owner a.lp_mint a.owner_lp_token lp_token_amount w.ledger
    left_0 ←
        transfer_from_pool_vault_to_user t clock.epoch (out_of_0 t a w) parts.amount_0
          (t.mint w.ledger a.vault_0_mint).decimals burnt
    transfer_from_pool_vault_to_user t clock.epoch (out_of_1 t a w) parts.amount_1
        (t.mint w.ledger a.vault_1_mint).decimals left_0

  unfoldable pub withdraw :
      Clock → LpAccounts → ℕ → ℕ → ℕ → World t → Result (World t × LpChangeEvent)
  withdraw clock a lp_token_amount minimum_0 minimum_1 w = do
    validate_withdraw t a w
    require (ltb 0 lp_token_amount) (anchor AnchorError.require_gt_violated)
    require (leb lp_token_amount (t.account w.ledger a.owner_lp_token).amount)
        (anchor AnchorError.require_gte_violated)
    e ←
        entitled PoolStatusBitIndex.withdraw RoundDirection.floor lp_token_amount
          (t.account w.ledger a.token_0_vault).amount (t.account w.ledger a.token_1_vault).amount
          w.pool
    parts ← withdraw_parts clock a e w
    let received_0 = parts.amount_0 - parts.fee_0 in
        let received_1 = parts.amount_1 - parts.fee_1 in
        do
          require (not (ltb received_0 minimum_0 || ltb received_1 minimum_1))
              (code ErrorCode.exceeded_slippage)
          lp_supply ← unwrap (checked_sub w.pool.lp_supply lp_token_amount)
          ledger ← withdraw_moves clock a lp_token_amount parts w
          ok (
            record w {
              pool = record (w.pool) { lp_supply = lp_supply; recent_epoch = clock.epoch };
              ledger = ledger;
            },
            record {
              pool_id = a.pool_state;
              lp_amount_before = w.pool.lp_supply;
              token_0_vault_before = e.total_token_0_amount;
              token_1_vault_before = e.total_token_1_amount;
              token_0_amount = received_0;
              token_1_amount = received_1;
              token_0_transfer_fee = parts.fee_0;
              token_1_transfer_fee = parts.fee_1;
              change_type = 1;
            },
          )
