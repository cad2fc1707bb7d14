-- ===== src/Treasury/State.antt =====
-- The accounts of the treasury program (programs/mana-treasury/src/lib.rs), and the two prices at
-- which Mana is minted and redeemed.
use mim_swap_sol.Prelude.{
  ℕ, ◌==◌, ltb, if◌then◌else◌, Bool, List, u64_max, u128_max, checked_mul, checked_sub, checked_div,
  narrow, ok, ok_or, require, ◌>>=◌, ◌>>◌,
}
use mim_swap_sol.Prelude.Int.{ℤ}
use mim_swap_sol.Errors.{Pubkey}
use mim_swap_sol.Token.Interface.{TokenProgram}
use mim_swap_sol.Treasury.Errors.{TreasuryError, treasury, Attempt}

abbrev pub default_cooldown_seconds : ℕ
default_cooldown_seconds = 259_200

-- The base58 key of `MIM_MINT`, as a number.
abbrev pub mim_mint_key : Pubkey
mim_mint_key = 0x6a1a6327_21942544_3aceeb3b_78d79864_bffabb6c_18022263_711f8218_5e8b9a9f

pub record TreasuryState : Type 0 where
  pub authority : Pubkey
  pub pending_authority : Pubkey
  pub mim_mint : Pubkey
  pub mana_mint : Pubkey
  pub active_mim_vault : Pubkey
  pub pending_mim_vault : Pubkey
  pub pending_mana_vault : Pubkey
  pub cooldown_seconds : ℕ
  pub swap_router : Pubkey
  pub pending_mana_supply : ℕ
  pub bump : ℕ
  pub authority_bump : ℕ

pub record AssetVault : Type 0 where
  pub treasury : Pubkey
  pub mint : Pubkey
  pub token_account : Pubkey
  pub bump : ℕ

pub record RedemptionRequest : Type 0 where
  pub owner : Pubkey
  pub treasury : Pubkey
  pub mana_amount : ℕ
  pub reserved_mim_amount : ℕ
  pub unlock_timestamp : ℤ
  pub finalized : Bool
  pub bump : ℕ

-- What the instructions work on. `key` is the address of the treasury's state. A request's address
-- is derived from its owner, and an asset vault's from its mint, so both are kept by these.
pub record Treasury (t : TokenProgram) : Type 0 where
  pub key : Pubkey
  pub state : TreasuryState
  pub requests : List (Pubkey × RedemptionRequest)
  pub asset_vaults : List (Pubkey × AssetVault)
  pub ledger : t.Ledger

-- `unix_timestamp` is an `i64`.
pub record Clock : Type 0 where
  pub unix_timestamp : ℤ
  pub epoch : ℕ

unfoldable pub active_mana_supply : ℕ → TreasuryState → Attempt ℕ
active_mana_supply total_mana_supply self =
    ok_or (checked_sub total_mana_supply self.pending_mana_supply)
      (treasury TreasuryError.math_overflow)

unfoldable pub require_authority : TreasuryState → Pubkey → Attempt (Unit {0})
require_authority state authority =
    require (authority == state.authority) (treasury TreasuryError.invalid_authority)

unfoldable pub calculate_mana_for_deposit : ℕ → ℕ → ℕ → Attempt ℕ
calculate_mana_for_deposit amount active_mim_balance active_mana_supply =
    if active_mana_supply == 0 then ok amount else do
      require (ltb 0 active_mim_balance) (treasury TreasuryError.invalid_treasury_balance)
      product ←
          ok_or (checked_mul u128_max amount active_mana_supply)
            (treasury TreasuryError.math_overflow)
      mana_out ←
          ok_or (checked_div product active_mim_balance) (treasury TreasuryError.math_overflow)
      ok_or (narrow u64_max mana_out) (treasury TreasuryError.math_overflow)

unfoldable pub calculate_mim_for_redemption : ℕ → ℕ → ℕ → Attempt ℕ
calculate_mim_for_redemption mana_amount active_mim_balance active_mana_supply = do
  require (ltb 0 active_mana_supply) (treasury TreasuryError.invalid_treasury_balance)
  product ←
      ok_or (checked_mul u128_max mana_amount active_mim_balance)
        (treasury TreasuryError.math_overflow)
  mim_out ← ok_or (checked_div product active_mana_supply) (treasury TreasuryError.math_overflow)
  ok_or (narrow u64_max mim_out) (treasury TreasuryError.math_overflow)
