-- ===== src/Tests/Shares.antt =====
-- A deposit and a withdrawal on the sample pool.
use mim_swap_sol.Prelude.{
  ◌+◌, ◌≤◌, ◌≡◌, refl, checked_add, checked_mul, checked_sub, checked_div, checked_rem, narrow, ok,
  arith,
}
use mim_swap_sol.Curve.ConstantProduct.{
  lp_tokens_to_trading_tokens, floor_share, ceiling_share, round_shares,
}
use mim_swap_sol.Token.Calls.{
  get_transfer_fee, get_transfer_inverse_fee, inverse_fee, transfer_from_user_to_pool_vault,
  transfer_from_pool_vault_to_user, token_mint_to, token_burn,
}
use mim_swap_sol.Token.Simple.{
  simple, simple-TransferLaws, simple-SupplyLaws, transfer_checked, mint_to, burn,
}
use mim_swap_sol.States.Pool.{get_status_by_bit, bit_mask}
use mim_swap_sol.States.PoolFees.{total_fees, vault_amount_without_fee}
use mim_swap_sol.Swap.Accounts.{World}
use mim_swap_sol.Swap.SettleLaws.{amount}
use mim_swap_sol.Liquidity.Accounts.{
  LpAccounts, LpChangeEvent, validate_vaults, validate_deposit, validate_withdraw,
}
use mim_swap_sol.Liquidity.Handlers.{
  entitled, deposit_parts, deposit_moves, deposit, withdraw_parts, withdraw_moves, withdraw,
}
use mim_swap_sol.Liquidity.Shares.{IsLpApart, KeepsShare}
use mim_swap_sol.Liquidity.Deposits.{deposit-KeepsShare, deposit-exact}
use mim_swap_sol.Liquidity.Withdrawals.{withdraw-KeepsShare, withdraw-exact}
use mim_swap_sol.Tests.Sample.{clock, world, outcome}

abbrev accounts : LpAccounts
accounts = record {
  owner = 6;
  authority = 1;
  pool_state = 9;
  owner_lp_token = 14;
  token_0_account = 12;
  token_1_account = 13;
  token_0_vault = 10;
  token_1_vault = 11;
  token_program = 1;
  token_program_2022 = 5;
  vault_0_mint = 20;
  vault_1_mint = 21;
  lp_mint = 22;
}

accounts-IsLpApart : IsLpApart accounts
accounts-IsLpApart = record {
  vaults = λ e. omega (arith, e);
  token_0_vault_0 = λ e. omega (arith, e);
  token_0_vault_1 = λ e. omega (arith, e);
  token_1_vault_0 = λ e. omega (arith, e);
  token_1_vault_1 = λ e. omega (arith, e);
  tokens = λ e. omega (arith, e);
  lp_vault_0 = λ e. omega (arith, e);
  lp_vault_1 = λ e. omega (arith, e);
  lp_token_0 = λ e. omega (arith, e);
  lp_token_1 = λ e. omega (arith, e);
}

abbrev no_event : LpChangeEvent
no_event = record {
  pool_id = 0;
  lp_amount_before = 0;
  token_0_vault_before = 0;
  token_1_vault_before = 0;
  token_0_amount = 0;
  token_1_amount = 0;
  token_0_transfer_fee = 0;
  token_1_transfer_fee = 0;
  change_type = 0;
}

abbrev deposit_run : World simple × LpChangeEvent
deposit_run = outcome (world, no_event) (deposit simple clock accounts 7_777 8_000 16_000 world)

abbrev withdraw_run : World simple × LpChangeEvent
withdraw_run = outcome (world, no_event) (withdraw simple clock accounts 7_777 7_000 15_000 world)

deposit_runs :
    deposit simple clock accounts 7_777 8_000 16_000 world ≡ ok (deposit_run.0, deposit_run.1)
unfolding deposit validate_deposit validate_vaults entitled get_status_by_bit bit_mask
    vault_amount_without_fee total_fees lp_tokens_to_trading_tokens floor_share ceiling_share
    round_shares deposit_parts get_transfer_inverse_fee inverse_fee deposit_moves
    transfer_from_user_to_pool_vault token_mint_to transfer_checked mint_to checked_add checked_mul
    checked_sub checked_div checked_rem narrow
deposit_runs = refl

withdraw_runs :
    withdraw simple clock accounts 7_777 7_000 15_000 world ≡ ok (withdraw_run.0, withdraw_run.1)
unfolding withdraw validate_withdraw validate_vaults entitled get_status_by_bit bit_mask
    vault_amount_without_fee total_fees lp_tokens_to_trading_tokens floor_share round_shares
    withdraw_parts get_transfer_fee withdraw_moves transfer_from_pool_vault_to_user token_burn
    transfer_checked burn checked_add checked_mul checked_sub checked_div narrow
withdraw_runs = refl

deposit-KeepsShare_example : KeepsShare simple world deposit_run.0
deposit-KeepsShare_example =
    deposit-KeepsShare simple simple-TransferLaws simple-SupplyLaws clock accounts world 7_777 8_000
      16_000 accounts-IsLpApart deposit_runs

withdraw-KeepsShare_example : KeepsShare simple world withdraw_run.0
withdraw-KeepsShare_example =
    withdraw-KeepsShare simple simple-TransferLaws simple-SupplyLaws clock accounts world 7_777
      7_000 15_000 accounts-IsLpApart withdraw_runs

deposit-exact_example :
    (amount simple world.ledger 12 ≤ amount simple deposit_run.0.ledger 12 + 8_000)
    × (amount simple world.ledger 13 ≤ amount simple deposit_run.0.ledger 13 + 16_000)
    × (amount simple deposit_run.0.ledger 14 ≡ amount simple world.ledger 14 + 7_777)
    × (deposit_run.0.pool.lp_supply ≡ 1_007_777)
    × ((deposit_run.0.ledger.mints 22).supply ≡ 1_007_777)
deposit-exact_example =
    deposit-exact simple simple-TransferLaws simple-SupplyLaws clock accounts world 7_777 8_000
      16_000 accounts-IsLpApart deposit_runs

withdraw-exact_example :
    (amount simple world.ledger 12 + 7_000 ≤ amount simple withdraw_run.0.ledger 12)
    × (amount simple world.ledger 13 + 15_000 ≤ amount simple withdraw_run.0.ledger 13)
    × (amount simple world.ledger 14 ≡ amount simple withdraw_run.0.ledger 14 + 7_777)
    × (1_000_000 ≡ withdraw_run.0.pool.lp_supply + 7_777)
    × (1_000_000 ≡ (withdraw_run.0.ledger.mints 22).supply + 7_777)
withdraw-exact_example =
    withdraw-exact simple simple-TransferLaws simple-SupplyLaws clock accounts world 7_777 7_000
      15_000 accounts-IsLpApart withdraw_runs
