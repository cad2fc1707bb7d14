-- ===== src/States/Config.antt =====
-- `AmmConfig` of programs/cp-swap/src/states/config.rs, with the instructions that write it:
-- `create_amm_config` (programs/cp-swap/src/lib.rs and instructions/admin/create_config.rs) and
-- `update_amm_config` (instructions/admin/update_config.rs). That `owner` is a signer is Anchor's.
use mim_swap_sol.Prelude.{
  ℕ, zero, suc, ◌==◌, ltb, leb, not, if◌then◌else◌, Bool, true, false, Option, u64_max, checked_add,
  ok, err, unwrap, ok_or, require, assert, ◌>>=◌, ◌>>◌,
}
use mim_swap_sol.Curve.Fees.{fee_rate_denominator_value}
use mim_swap_sol.Errors.{
  Pubkey, default_pubkey, Error, ErrorCode, AnchorError, code, anchor, Result,
}

pub record AmmConfig : Type 0 where
  pub bump : ℕ
  pub disable_create_pool : Bool
  pub index : ℕ
  pub trade_fee_rate : ℕ
  pub protocol_fee_rate : ℕ
  pub fund_fee_rate : ℕ
  pub create_pool_fee : ℕ
  pub protocol_owner : Pubkey
  pub fund_owner : Pubkey
  pub creator_fee_rate : ℕ
  pub treasury_program : Pubkey
  pub treasury_state : Pubkey
  pub mim_mint : Pubkey

-- `require_keys_neq!(key, Pubkey::default(), e)`
abbrev pub require_set : Pubkey → Error → Result (Unit {0})
require_set key e = require (not (key == default_pubkey)) e

unfoldable pub validate_treasury_config : AmmConfig → Result (Unit {0})
validate_treasury_config self = do
  require_set self.treasury_program (code ErrorCode.invalid_treasury_fee_config)
  require_set self.treasury_state (code ErrorCode.invalid_treasury_fee_config)
  require_set self.mim_mint (code ErrorCode.invalid_treasury_fee_config)

-- The program-derived addresses of the treasury program, by their seeds: the authority, the active
-- MIM vault, and the vault of an asset. Each takes the treasury's state and the program.
pub record TreasuryAddresses : Type 0 where
  pub authority : Pubkey → Pubkey → Pubkey
  pub active_mim_vault : Pubkey → Pubkey → Pubkey
  pub asset_token_vault : Pubkey → Pubkey → Pubkey → Pubkey

module _ (derive : TreasuryAddresses) where
  unfoldable pub treasury_authority : AmmConfig → Result Pubkey
  treasury_authority self = do
    validate_treasury_config self
    ok (derive.authority self.treasury_state self.treasury_program)

  unfoldable pub expected_fee_receiver : Pubkey → AmmConfig → Result Pubkey
  expected_fee_receiver mint self = do
    validate_treasury_config self
    ok (
        if mint == self.mim_mint
        then derive.active_mim_vault self.treasury_state self.treasury_program
        else derive.asset_token_vault self.treasury_state mint self.treasury_program)

-- The arguments of `create_amm_config`.
pub record ConfigParams : Type 0 where
  pub index : ℕ
  pub trade_fee_rate : ℕ
  pub protocol_fee_rate : ℕ
  pub fund_fee_rate : ℕ
  pub create_pool_fee : ℕ
  pub creator_fee_rate : ℕ
  pub treasury_program : Pubkey
  pub treasury_state : Pubkey
  pub mim_mint : Pubkey

-- The assertions with which `create_amm_config` of lib.rs begins.
unfoldable pub assert_rates : ConfigParams → Result (Unit {0})
assert_rates p = do
  charged ← unwrap (checked_add u64_max p.trade_fee_rate p.creator_fee_rate)
  assert (ltb charged fee_rate_denominator_value)
  assert (leb p.protocol_fee_rate fee_rate_denominator_value)
  assert (leb p.fund_fee_rate fee_rate_denominator_value)
  parts ← unwrap (checked_add u64_max p.fund_fee_rate p.protocol_fee_rate)
  assert (leb parts fee_rate_denominator_value)

-- `admin` is the address that `crate::admin::ID` names, `bump` the bump of the account's address.
unfoldable pub create_amm_config : Pubkey → Pubkey → ℕ → ConfigParams → Result AmmConfig
create_amm_config admin owner bump p = do
  require (owner == admin) (code ErrorCode.invalid_owner)
  assert_rates p
  require_set p.treasury_program (code ErrorCode.invalid_treasury_fee_config)
  require_set p.treasury_state (code ErrorCode.invalid_treasury_fee_config)
  require_set p.mim_mint (code ErrorCode.invalid_treasury_fee_config)
  ok (record {
    bump = bump;
    disable_create_pool = false;
    index = p.index;
    trade_fee_rate = p.trade_fee_rate;
    protocol_fee_rate = p.protocol_fee_rate;
    fund_fee_rate = p.fund_fee_rate;
    create_pool_fee = p.create_pool_fee;
    protocol_owner = owner;
    fund_owner = owner;
    creator_fee_rate = p.creator_fee_rate;
    treasury_program = p.treasury_program;
    treasury_state = p.treasury_state;
    mim_mint = p.mim_mint;
  })

unfoldable pub update_protocol_fee_rate : ℕ → AmmConfig → Result AmmConfig
update_protocol_fee_rate rate c = do
  assert (leb rate fee_rate_denominator_value)
  sum ← unwrap (checked_add u64_max rate c.fund_fee_rate)
  assert (leb sum fee_rate_denominator_value)
  ok (record c { protocol_fee_rate = rate })

unfoldable pub update_trade_fee_rate : ℕ → AmmConfig → Result AmmConfig
update_trade_fee_rate rate c = do
  sum ← unwrap (checked_add u64_max rate c.creator_fee_rate)
  assert (ltb sum fee_rate_denominator_value)
  ok (record c { trade_fee_rate = rate })

unfoldable pub update_fund_fee_rate : ℕ → AmmConfig → Result AmmConfig
update_fund_fee_rate rate c = do
  assert (leb rate fee_rate_denominator_value)
  sum ← unwrap (checked_add u64_max rate c.protocol_fee_rate)
  assert (leb sum fee_rate_denominator_value)
  ok (record c { fund_fee_rate = rate })

unfoldable pub update_creator_fee_rate : ℕ → AmmConfig → Result AmmConfig
update_creator_fee_rate rate c = do
  sum ← unwrap (checked_add u64_max rate c.trade_fee_rate)
  assert (ltb sum fee_rate_denominator_value)
  ok (record c { creator_fee_rate = rate })

-- The key of the first remaining account, which must be there and must not be the default key.
unfoldable pub new_key : Option Pubkey → Result Pubkey
new_key remaining = do
  key ← ok_or remaining (code ErrorCode.invalid_input)
  require_set key (anchor AnchorError.require_keys_neq_violated)
  ok key

-- The body of `update_amm_config`, on the number of the parameter.
unfoldable pub update_param : ℕ → ℕ → Option Pubkey → AmmConfig → Result AmmConfig
update_param zero value remaining c = update_trade_fee_rate value c
update_param (suc zero) value remaining c = update_protocol_fee_rate value c
update_param (suc (suc zero)) value remaining c = update_fund_fee_rate value c
update_param (suc (suc (suc zero))) value remaining c = do
  key ← new_key remaining
  ok (record c { protocol_owner = key })
update_param (suc (suc (suc (suc zero)))) value remaining c = do
  key ← new_key remaining
  ok (record c { fund_owner = key })
update_param (suc (suc (suc (suc (suc zero))))) value remaining c =
    ok (record c { create_pool_fee = value })
update_param (suc (suc (suc (suc (suc (suc zero)))))) value remaining c =
    ok (record c { disable_create_pool = if value == 0 then false else true })
update_param (suc (suc (suc (suc (suc (suc (suc zero))))))) value remaining c =
    update_creator_fee_rate value c
update_param (suc (suc (suc (suc (suc (suc (suc (suc zero)))))))) value remaining c = do
  key ← new_key remaining
  ok (record c { treasury_program = key })
update_param (suc (suc (suc (suc (suc (suc (suc (suc (suc zero))))))))) value remaining c = do
  key ← new_key remaining
  ok (record c { treasury_state = key })
update_param (suc (suc (suc (suc (suc (suc (suc (suc (suc (suc zero)))))))))) value remaining c = do
  key ← new_key remaining
  ok (record c { mim_mint = key })
update_param _ value remaining c = err (code ErrorCode.invalid_input)

unfoldable pub update_amm_config :
    Pubkey → Pubkey → ℕ → ℕ → Option Pubkey → AmmConfig → Result AmmConfig
update_amm_config admin owner param value remaining c = do
  require (owner == admin) (code ErrorCode.invalid_owner)
  update_param param value remaining c
