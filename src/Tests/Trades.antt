-- ===== src/Tests/Trades.antt =====
-- A swap on the sample pool and a change of its status.
use mim_swap_sol.Prelude.{◌≡◌, refl, ok, arith}
use mim_swap_sol.Token.Simple.{simple, simple-TransferLaws, simple-SupplyLaws}
use mim_swap_sol.States.Pool.{set_status}
use mim_swap_sol.States.PoolLaws.{IsSolvent}
use mim_swap_sol.Swap.Accounts.{World}
use mim_swap_sol.Swap.Safety.{vault_0, vault_1}
use mim_swap_sol.FeeCollection.Handlers.{update_pool_status}
use mim_swap_sol.Trading.{Step, Reach, KeepsValue}
use mim_swap_sol.Trading.Value.{Reach-KeepsValue}
use mim_swap_sol.Tests.Sample.{clock, config, world}
use mim_swap_sol.Tests.Swaps.{accounts, accounts-IsApart, input_run, input_runs}

abbrev swapped : World simple
swapped = input_run.0

abbrev closed : World simple
closed = record swapped { pool = record (swapped.pool) { status = 4; recent_epoch = 8 } }

closes : update_pool_status 5 5 8 4 swapped.pool ≡ ok closed.pool
unfolding update_pool_status set_status
closes = refl

trades : Reach simple world closed
trades =
    Reach.later
      (Step.swaps_input config clock accounts 10_000 19_000 input_run.1 (omega arith)
        accounts-IsApart input_runs)
      (Reach.later (Step.sets_status 5 5 8 4 closed.pool closes) Reach.here)

world-IsSolvent : IsSolvent (vault_0 simple world) (vault_1 simple world) world.pool
world-IsSolvent = record {
  covers_0 = omega arith;
  covers_1 = omega arith;
  fits_0 = omega arith;
  fits_1 = omega arith;
}

Reach-KeepsValue_example : KeepsValue simple world closed
Reach-KeepsValue_example =
    Reach-KeepsValue simple simple-TransferLaws simple-SupplyLaws trades world-IsSolvent
      (omega arith)
