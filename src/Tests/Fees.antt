-- ===== src/Tests/Fees.antt =====
-- Collections of fees from the sample pool.
use mim_swap_sol.Prelude.{◌+◌, ◌≡◌, refl, checked_sub, ok, arith}
use mim_swap_sol.Token.Calls.{transfer_from_pool_vault_to_user}
use mim_swap_sol.Token.Simple.{simple, simple-TransferLaws, transfer_checked}
use mim_swap_sol.States.PoolLaws.{IsSolvent}
use mim_swap_sol.States.Config.{validate_treasury_config, treasury_authority, expected_fee_receiver}
use mim_swap_sol.Swap.Accounts.{World}
use mim_swap_sol.Swap.Safety.{vault_0, vault_1}
use mim_swap_sol.FeeCollection.Accounts.{
  CollectAccounts, TokenPrograms, CreatorPrograms, validate_collect, validate_collect_creator,
  validate_fee_recipient,
}
use mim_swap_sol.FeeCollection.Handlers.{
  take_protocol_fees, take_fund_fees, take_creator_fees, pay_out, validate_recipients,
  collect_protocol_fee, collect_fund_fee, collect_creator_fee,
}
use mim_swap_sol.FeeCollection.Payout.{IsCollectApart, KeepsReserves}
use mim_swap_sol.FeeCollection.Recipients.{PaysTreasury}
use mim_swap_sol.FeeCollection.Safety.{
  collect_protocol_fee-KeepsReserves, collect_fund_fee-KeepsReserves,
  collect_creator_fee-KeepsReserves,
}
use mim_swap_sol.Tests.Sample.{clock, config, world, addresses, outcome}

abbrev to_treasury : CollectAccounts
to_treasury = record {
  authority = 1;
  amm_config = 2;
  token_0_vault = 10;
  token_1_vault = 11;
  vault_0_mint = 20;
  vault_1_mint = 21;
  recipient_token_0_account = 30;
  recipient_token_1_account = 31;
}

abbrev to_creator : CollectAccounts
to_creator = record to_treasury { recipient_token_0_account = 40; recipient_token_1_account = 41 }

abbrev programs : TokenPrograms
programs = record { token_program = 1; token_program_2022 = 5 }

abbrev creator_programs : CreatorPrograms
creator_programs = record { token_0_program = 1; token_1_program = 5 }

to_treasury-IsCollectApart : IsCollectApart to_treasury
to_treasury-IsCollectApart = record {
  vaults = λ e. omega (arith, e);
  recipient_0_vault_0 = λ e. omega (arith, e);
  recipient_0_vault_1 = λ e. omega (arith, e);
  recipient_1_vault_0 = λ e. omega (arith, e);
  recipient_1_vault_1 = λ e. omega (arith, e);
}

to_creator-IsCollectApart : IsCollectApart to_creator
to_creator-IsCollectApart = record {
  vaults = λ e. omega (arith, e);
  recipient_0_vault_0 = λ e. omega (arith, e);
  recipient_0_vault_1 = λ e. omega (arith, e);
  recipient_1_vault_0 = λ e. omega (arith, e);
  recipient_1_vault_1 = λ e. omega (arith, e);
}

world-IsSolvent : IsSolvent (vault_0 simple world) (vault_1 simple world) world.pool
world-IsSolvent = record {
  covers_0 = omega arith;
  covers_1 = omega arith;
  fits_0 = omega arith;
  fits_1 = omega arith;
}

abbrev protocol_run : World simple
protocol_run =
    outcome world
      (collect_protocol_fee simple clock addresses config to_treasury programs 60 1_000 world)

abbrev fund_run : World simple
fund_run =
    outcome world (collect_fund_fee simple clock addresses config to_treasury programs 60 10 world)

abbrev creator_run : World simple
creator_run = outcome world (collect_creator_fee simple clock 3 to_creator creator_programs world)

protocol_runs :
    collect_protocol_fee simple clock addresses config to_treasury programs 60 1_000 world
    ≡ ok protocol_run
unfolding collect_protocol_fee validate_collect validate_recipients validate_fee_recipient
    treasury_authority expected_fee_receiver validate_treasury_config take_protocol_fees pay_out
    transfer_from_pool_vault_to_user transfer_checked checked_sub
protocol_runs = refl

fund_runs :
    collect_fund_fee simple clock addresses config to_treasury programs 60 10 world ≡ ok fund_run
unfolding collect_fund_fee validate_collect validate_recipients validate_fee_recipient
    treasury_authority expected_fee_receiver validate_treasury_config take_fund_fees pay_out
    transfer_from_pool_vault_to_user transfer_checked checked_sub
fund_runs = refl

creator_runs : collect_creator_fee simple clock 3 to_creator creator_programs world ≡ ok creator_run
unfolding collect_creator_fee validate_collect_creator validate_collect take_creator_fees pay_out
    transfer_from_pool_vault_to_user transfer_checked
creator_runs = refl

collect_protocol_fee-KeepsReserves_example :
    KeepsReserves simple world protocol_run
    × PaysTreasury simple clock to_treasury world protocol_run addresses config 60 200
    × (100 ≡ protocol_run.pool.protocol_fees_token_0 + 60)
    × (200 ≡ protocol_run.pool.protocol_fees_token_1 + 200)
collect_protocol_fee-KeepsReserves_example =
    collect_protocol_fee-KeepsReserves simple clock to_treasury world simple-TransferLaws addresses
      config programs 60 1_000 to_treasury-IsCollectApart (λ e. omega (arith, e)) world-IsSolvent
      protocol_runs

collect_fund_fee-KeepsReserves_example :
    KeepsReserves simple world fund_run
    × PaysTreasury simple clock to_treasury world fund_run addresses config 30 10
    × (30 ≡ fund_run.pool.fund_fees_token_0 + 30)
    × (40 ≡ fund_run.pool.fund_fees_token_1 + 10)
collect_fund_fee-KeepsReserves_example =
    collect_fund_fee-KeepsReserves simple clock to_treasury world simple-TransferLaws addresses
      config programs 60 10 to_treasury-IsCollectApart (λ e. omega (arith, e)) world-IsSolvent
      fund_runs

collect_creator_fee-KeepsReserves_example :
    KeepsReserves simple world creator_run
    × (3 ≡ world.pool.pool_creator)
    × (creator_run.pool.creator_fees_token_0 ≡ 0)
    × (creator_run.pool.creator_fees_token_1 ≡ 0)
collect_creator_fee-KeepsReserves_example =
    collect_creator_fee-KeepsReserves simple clock to_creator world simple-TransferLaws 3
      creator_programs to_creator-IsCollectApart world-IsSolvent creator_runs
