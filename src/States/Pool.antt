-- ===== src/States/Pool.antt =====
-- `PoolState` of programs/cp-swap/src/states/pool.rs, with its enumerations, status bits and supply.
-- The padding of the account is left out.
use Prim.Native.Nat.{bit_and, bit_or, bit_xor}
use mim_swap_sol.Prelude.{
  ℕ, zero, suc, ◌==◌, Bool, true, false, u8_max, u64_max, checked_add, checked_sub, ok, err, ok_or,
  ◌>>=◌,
}
use mim_swap_sol.Errors.{Pubkey, ErrorCode, code, Result}

abbrev pub q32 : ℕ
q32 = 4_294_967_296

pub data PoolStatusBitIndex : Type 0 where
  deposit withdraw swap : PoolStatusBitIndex

pub data PoolStatusBitFlag : Type 0 where
  enable disable : PoolStatusBitFlag

pub data CreatorFeeOn : Type 0 where
  both_token only_token_0 only_token_1 : CreatorFeeOn

unfoldable pub from_u8 : ℕ → Result CreatorFeeOn
from_u8 zero = ok CreatorFeeOn.both_token
from_u8 (suc zero) = ok CreatorFeeOn.only_token_0
from_u8 (suc (suc zero)) = ok CreatorFeeOn.only_token_1
from_u8 _ = err (code ErrorCode.invalid_fee_model)

unfoldable pub to_u8 : CreatorFeeOn → ℕ
to_u8 CreatorFeeOn.both_token = 0
to_u8 CreatorFeeOn.only_token_0 = 1
to_u8 CreatorFeeOn.only_token_1 = 2

pub record PoolState : Type 0 where
  pub amm_config : Pubkey
  pub pool_creator : Pubkey
  pub token_0_vault : Pubkey
  pub token_1_vault : Pubkey
  pub lp_mint : Pubkey
  pub token_0_mint : Pubkey
  pub token_1_mint : Pubkey
  pub token_0_program : Pubkey
  pub token_1_program : Pubkey
  pub observation_key : Pubkey
  pub auth_bump : ℕ
  pub status : ℕ
  pub lp_mint_decimals : ℕ
  pub mint_0_decimals : ℕ
  pub mint_1_decimals : ℕ
  pub lp_supply : ℕ
  pub protocol_fees_token_0 : ℕ
  pub protocol_fees_token_1 : ℕ
  pub fund_fees_token_0 : ℕ
  pub fund_fees_token_1 : ℕ
  pub open_time : ℕ
  pub recent_epoch : ℕ
  pub creator_fee_on : ℕ
  pub enable_creator_fee : Bool
  pub creator_fees_token_0 : ℕ
  pub creator_fees_token_1 : ℕ

-- What `initialize` reads of a mint: its key, the program that owns it, its decimals.
pub record MintInfo : Type 0 where
  pub key : Pubkey
  pub owner : Pubkey
  pub decimals : ℕ

pub record PoolKeys : Type 0 where
  pub pool_creator : Pubkey
  pub amm_config : Pubkey
  pub token_0_vault : Pubkey
  pub token_1_vault : Pubkey
  pub lp_mint : Pubkey
  pub observation_key : Pubkey

-- `PoolState::initialize` on the zeroed account `self`; `epoch` is the clock's. The status is kept.
unfoldable pub initialize :
    ℕ → ℕ → ℕ → ℕ → PoolKeys → MintInfo → MintInfo → ℕ → CreatorFeeOn → Bool → PoolState → PoolState
initialize epoch auth_bump lp_supply open_time keys token_0_mint token_1_mint lp_mint_decimals
      creator_fee_on enable_creator_fee self =
    record self {
      amm_config = keys.amm_config;
      pool_creator = keys.pool_creator;
      token_0_vault = keys.token_0_vault;
      token_1_vault = keys.token_1_vault;
      lp_mint = keys.lp_mint;
      token_0_mint = token_0_mint.key;
      token_1_mint = token_1_mint.key;
      token_0_program = token_0_mint.owner;
      token_1_program = token_1_mint.owner;
      observation_key = keys.observation_key;
      auth_bump = auth_bump;
      lp_mint_decimals = lp_mint_decimals;
      mint_0_decimals = token_0_mint.decimals;
      mint_1_decimals = token_1_mint.decimals;
      lp_supply = lp_supply;
      protocol_fees_token_0 = 0;
      protocol_fees_token_1 = 0;
      fund_fees_token_0 = 0;
      fund_fees_token_1 = 0;
      open_time = open_time;
      recent_epoch = epoch;
      creator_fee_on = to_u8 creator_fee_on;
      enable_creator_fee = enable_creator_fee;
      creator_fees_token_0 = 0;
      creator_fees_token_1 = 0;
    }

-- `1 << (bit as u8)`
unfoldable pub bit_mask : PoolStatusBitIndex → ℕ
bit_mask PoolStatusBitIndex.deposit = 1
bit_mask PoolStatusBitIndex.withdraw = 2
bit_mask PoolStatusBitIndex.swap = 4

unfoldable pub set_status : ℕ → PoolState → PoolState
set_status status self = record self { status = status }

-- `set_status_by_bit` on the status itself.
unfoldable pub with_bit : PoolStatusBitIndex → PoolStatusBitFlag → ℕ → ℕ
unfolding bit_mask
with_bit bit PoolStatusBitFlag.disable status = bit_or status (bit_mask bit)
with_bit bit PoolStatusBitFlag.enable status = bit_and status (bit_xor u8_max (bit_mask bit))

unfoldable pub set_status_by_bit : PoolStatusBitIndex → PoolStatusBitFlag → PoolState → PoolState
set_status_by_bit bit flag self = record self { status = with_bit bit flag self.status }

unfoldable pub get_status_by_bit : PoolStatusBitIndex → PoolState → Bool
unfolding bit_mask
get_status_by_bit bit self = bit_and self.status (bit_mask bit) == 0

unfoldable pub update_lp_supply : ℕ → Bool → ℕ → PoolState → Result PoolState
update_lp_supply liquidity_delta true recent_epoch self = do
  lp_supply ←
      ok_or (checked_add u64_max self.lp_supply liquidity_delta) (code ErrorCode.math_overflow)
  ok (record self { lp_supply = lp_supply; recent_epoch = recent_epoch })
update_lp_supply liquidity_delta false recent_epoch self = do
  lp_supply ← ok_or (checked_sub self.lp_supply liquidity_delta) (code ErrorCode.math_overflow)
  ok (record self { lp_supply = lp_supply; recent_epoch = recent_epoch })
