-- ===== src/States/ConfigLaws.antt =====
-- The rates that a configuration can hold (instructions/admin/create_config.rs, update_config.rs).
use mim_swap_sol.Prelude.{ℕ, zero, suc, ◌+◌, ◌≤◌, ◌<◌, ◌≡◌, ◌≢◌, Option, checked_add, ok, arith}
use mim_swap_sol.Curve.Fees.{fee_rate_denominator_value}
use mim_swap_sol.Errors.{Pubkey, default_pubkey}
use mim_swap_sol.States.Config.{
  AmmConfig, ConfigParams, assert_rates, create_amm_config, update_protocol_fee_rate,
  update_trade_fee_rate, update_fund_fee_rate, update_creator_fee_rate, new_key, update_param,
  update_amm_config,
}

-- The fee on a swap is less than the whole, its parts are at most the fee, and the treasury that
-- fees are routed to is set.
pub record IsValid (c : AmmConfig) : Type 0 where
  pub charge_below_one : c.trade_fee_rate + c.creator_fee_rate < fee_rate_denominator_value
  pub parts_at_most_one : c.protocol_fee_rate + c.fund_fee_rate ≤ fee_rate_denominator_value
  pub program_set : c.treasury_program ≢ default_pubkey
  pub state_set : c.treasury_state ≢ default_pubkey
  pub mim_mint_set : c.mim_mint ≢ default_pubkey

-- A configuration that `create_amm_config` makes is valid, and only the admin makes one.
pub create_amm_config-IsValid :
    (admin owner : Pubkey) (bump : ℕ) (p : ConfigParams) {c : AmmConfig}
    → create_amm_config admin owner bump p ≡ ok c
    → IsValid c × (owner ≡ admin)
unfolding create_amm_config assert_rates checked_add
create_amm_config-IsValid admin owner bump p {c} h = ground arith

new_key_set :
    (remaining : Option Pubkey) {k : Pubkey} → new_key remaining ≡ ok k → k ≢ default_pubkey
unfolding new_key
new_key_set remaining {k} h = ground arith

update_param-IsValid :
    (param value : ℕ) (remaining : Option Pubkey) (c : AmmConfig) {c' : AmmConfig}
    → IsValid c
    → update_param param value remaining c ≡ ok c'
    → IsValid c'
unfolding update_param new_key update_trade_fee_rate update_protocol_fee_rate update_fund_fee_rate
    update_creator_fee_rate checked_add
update_param-IsValid zero value remaining c {c'} v h = ground arith
update_param-IsValid (suc zero) value remaining c v h = ground arith
update_param-IsValid (suc (suc zero)) value remaining c v h = ground arith
update_param-IsValid (suc (suc (suc zero))) value remaining c v h = ground arith
update_param-IsValid (suc (suc (suc (suc zero)))) value remaining c v h = ground arith
update_param-IsValid (suc (suc (suc (suc (suc zero))))) value remaining c v h = ground arith
update_param-IsValid (suc (suc (suc (suc (suc (suc zero)))))) value remaining c v h = ground arith
update_param-IsValid (suc (suc (suc (suc (suc (suc (suc zero))))))) value remaining c v h =
    ground arith
update_param-IsValid (suc (suc (suc (suc (suc (suc (suc (suc zero)))))))) value remaining c v h =
    ground arith
update_param-IsValid (suc (suc (suc (suc (suc (suc (suc (suc (suc zero))))))))) value remaining c v
      h =
    ground arith
update_param-IsValid (suc (suc (suc (suc (suc (suc (suc (suc (suc (suc zero)))))))))) value
      remaining c v h =
    ground arith
update_param-IsValid (suc (suc (suc (suc (suc (suc (suc (suc (suc (suc (suc n))))))))))) value
      remaining c v h =
    ground arith

-- Every update of a valid configuration that succeeds leaves it valid, and is by the admin: the owner
-- that the configuration names cannot make it unless that is the admin.
pub update_amm_config-IsValid :
    (admin owner : Pubkey) (param value : ℕ) (remaining : Option Pubkey) (c : AmmConfig)
    {c' : AmmConfig}
    → IsValid c
    → update_amm_config admin owner param value remaining c ≡ ok c'
    → IsValid c' × (owner ≡ admin)
unfolding update_amm_config
update_amm_config-IsValid admin owner param value remaining c {c'} v h =
    ground (arith, update_param-IsValid param value remaining c {c' = c'} v)
