-- ===== src/Tests/Configs.antt =====
-- A configuration that is made and updated, the status bits, and the price oracle.
use mim_swap_sol.Prelude.{◌≡◌, refl, true, none, ◌∷◌, checked_add, ok, arith}
use mim_swap_sol.States.Pool.{
  PoolState, PoolStatusBitIndex, PoolStatusBitFlag, set_status_by_bit, get_status_by_bit,
}
use mim_swap_sol.States.StatusLaws.{get-set_status_by_bit}
use mim_swap_sol.States.Config.{
  AmmConfig, ConfigParams, assert_rates, create_amm_config, update_amm_config, update_param,
  update_trade_fee_rate,
}
use mim_swap_sol.States.ConfigLaws.{IsValid, create_amm_config-IsValid, update_amm_config-IsValid}
use mim_swap_sol.States.Oracle.{
  Observation, ObservationState, default, default_observation, update, replicate,
}
use mim_swap_sol.States.OracleRing.{IsRing, default-IsRing}
use mim_swap_sol.States.OracleLaws.{IsSafe, update-Accumulates, update-IsSafe, Accumulates}
use mim_swap_sol.Errors.{Pubkey}
use mim_swap_sol.Tests.Sample.{pool, outcome, config}

abbrev admin : Pubkey
admin = 77

abbrev params : ConfigParams
params = record {
  index = 3;
  trade_fee_rate = 2_500;
  protocol_fee_rate = 120_000;
  fund_fee_rate = 40_000;
  create_pool_fee = 15;
  creator_fee_rate = 1_000;
  treasury_program = 901;
  treasury_state = 902;
  mim_mint = 20;
}

abbrev made : AmmConfig
made = outcome config (create_amm_config admin admin 254 params)

made_runs : create_amm_config admin admin 254 params ≡ ok made
unfolding create_amm_config assert_rates checked_add
made_runs = refl

create_amm_config-IsValid_example : IsValid made × (admin ≡ admin)
create_amm_config-IsValid_example = create_amm_config-IsValid admin admin 254 params made_runs

config-IsValid : IsValid config
config-IsValid = record {
  charge_below_one = omega arith;
  parts_at_most_one = omega arith;
  program_set = λ e. omega (arith, e);
  state_set = λ e. omega (arith, e);
  mim_mint_set = λ e. omega (arith, e);
}

abbrev cheaper : AmmConfig
cheaper = record config { trade_fee_rate = 100 }

cheaper_runs : update_amm_config admin admin 0 100 none config ≡ ok cheaper
unfolding update_amm_config update_param update_trade_fee_rate checked_add
cheaper_runs = refl

update_amm_config-IsValid_example : IsValid cheaper × (admin ≡ admin)
update_amm_config-IsValid_example =
    update_amm_config-IsValid admin admin 0 100 none config config-IsValid cheaper_runs

abbrev closed : PoolState
closed = record pool { status = 6 }

get-set_status_by_bit_example :
    get_status_by_bit PoolStatusBitIndex.withdraw
      (set_status_by_bit PoolStatusBitIndex.swap PoolStatusBitFlag.enable closed)
    ≡ get_status_by_bit PoolStatusBitIndex.withdraw closed
get-set_status_by_bit_example =
    get-set_status_by_bit PoolStatusBitIndex.swap PoolStatusBitFlag.enable
      PoolStatusBitIndex.withdraw closed (omega arith)

update-IsSafe_example : IsSafe (update 1_000 5 6 default)
update-IsSafe_example = update-IsSafe 1_000 5 6 default default-IsRing

-- An oracle that was last updated at 1000.
abbrev last : Observation
last = record {
  block_timestamp = 1_000;
  cumulative_token_0_price_x32 = 70;
  cumulative_token_1_price_x32 = 90;
}

abbrev ring : ObservationState
ring = record {
  initialized = true;
  observation_index = 0;
  pool_id = 9;
  observations = last ∷ replicate 99 default_observation;
  last_update_timestamp = 1_000;
}

update-Accumulates_example :
    (o' : ObservationState) × (update 1_020 5 6 ring ≡ ok o')
    × IsRing o'
    × Accumulates 1_020 5 6 last ring o'
update-Accumulates_example =
    update-Accumulates 1_020 5 6 ring last (omega arith) refl refl (λ e. omega (arith, e))
      (omega arith) (omega arith) (omega arith) (omega arith)
