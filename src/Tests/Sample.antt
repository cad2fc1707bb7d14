-- ===== src/Tests/Sample.antt =====
-- A pool of two mints on the concrete ledger of `Token.Simple`: mint 0 is a classic one, mint 1 has a
-- transfer fee of 3.
use mim_swap_sol.Prelude.{ℕ, ◌==◌, if◌then◌else◌, true, false, none, some, [], ok, err, panic}
use mim_swap_sol.Errors.{Pubkey, Result}
use mim_swap_sol.Token.Interface.{TokenAccount, Mint}
use mim_swap_sol.Token.Simple.{simple, classic_id}
use mim_swap_sol.States.Pool.{PoolState}
use mim_swap_sol.States.Config.{AmmConfig, TreasuryAddresses}
use mim_swap_sol.States.Oracle.{default}
use mim_swap_sol.Swap.Accounts.{Clock, World}

abbrev pub clock : Clock
clock = record { unix_timestamp = 1000; epoch = 7 }

abbrev pub config : AmmConfig
config = record {
  bump = 255;
  disable_create_pool = false;
  index = 0;
  trade_fee_rate = 2_500;
  protocol_fee_rate = 120_000;
  fund_fee_rate = 40_000;
  create_pool_fee = 0;
  protocol_owner = 900;
  fund_owner = 900;
  creator_fee_rate = 1_000;
  treasury_program = 901;
  treasury_state = 902;
  mim_mint = 20;
}

abbrev pub pool : PoolState
pool = record {
  amm_config = 2;
  pool_creator = 3;
  token_0_vault = 10;
  token_1_vault = 11;
  lp_mint = 22;
  token_0_mint = 20;
  token_1_mint = 21;
  token_0_program = classic_id;
  token_1_program = 5;
  observation_key = 4;
  auth_bump = 254;
  status = 0;
  lp_mint_decimals = 9;
  mint_0_decimals = 6;
  mint_1_decimals = 6;
  lp_supply = 1_000_000;
  protocol_fees_token_0 = 100;
  protocol_fees_token_1 = 200;
  fund_fees_token_0 = 30;
  fund_fees_token_1 = 40;
  open_time = 0;
  recent_epoch = 6;
  creator_fee_on = 0;
  enable_creator_fee = true;
  creator_fees_token_0 = 5;
  creator_fees_token_1 = 0;
}

abbrev token : Pubkey → Pubkey → ℕ → TokenAccount
token mint owner amount = record { mint = mint; owner = owner; amount = amount }

-- Vaults 10 and 11, the user's accounts 12, 13 and 14, the treasury's 30 and 31, the creator's 40
-- and 41.
abbrev accounts : Pubkey → TokenAccount
accounts k =
    if k == 10
    then token 20 1 1_000_135
    else if k == 11
    then token 21 1 2_000_240
    else if k == 12
    then token 20 6 50_000
    else if k == 13
    then token 21 6 50_000
    else if k == 14
    then token 22 6 20_000
    else if k == 30
    then token 20 800 0
    else if k == 31
    then token 21 800 0
    else if k == 40
    then token 20 3 0
    else if k == 41
    then token 21 3 0
    else token 0 0 0

abbrev mints : Pubkey → Mint ℕ
mints k =
    if k == 21
    then record {
      token_program = 5;
      decimals = 6;
      supply = 0;
      transfer_fee = some 3;
      extensions = some [];
    }
    else record {
      token_program = classic_id;
      decimals = 6;
      supply = 1_000_000;
      transfer_fee = none;
      extensions = some [];
    }

abbrev pub world : World simple
world = record {
  pool = pool;
  observation = default;
  ledger = record { accounts = accounts; mints = mints };
}

-- The treasury's authority is 800, its vault for MIM (mint 20) is 30, for mint 21 it is 31.
abbrev pub addresses : TreasuryAddresses
addresses = record {
  authority = λ state program. 800;
  active_mim_vault = λ state program. 30;
  asset_token_vault = λ state mint program. 31;
}

-- What a run left, where it succeeded.
abbrev pub outcome {ℓ} : {A : Type ℓ} → A → Result A → A
outcome a (ok b) = b
outcome a (err _) = a
outcome a panic = a
