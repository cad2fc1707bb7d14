-- ===== src/Token/Interface.antt =====
-- The token programs (SPL Token and Token-2022) as the swap and the treasury see them. Their code
-- is not part of the repository, so they are a parameter: a ledger of token accounts and mints, the
-- calls that change it, and the arithmetic of the transfer-fee extension.
use mim_swap_sol.Prelude.{ℕ, Option, List}
use mim_swap_sol.Errors.{Pubkey}

pub record TokenAccount : Type 0 where
  pub mint : Pubkey
  pub owner : Pubkey
  pub amount : ℕ

-- The extensions that the code names; `other` is any other, by its number.
pub data ExtensionType : Type 0 where
  transfer_fee_config metadata_pointer token_metadata interest_bearing_config scaled_ui_amount :
      ExtensionType
  other : ℕ → ExtensionType

-- `token_program` is the owner of the mint's account; `extensions` is `none` where the extension data
-- of the account cannot be read.
pub record Mint (Config : Type 0) : Type 0 where
  pub token_program : Pubkey
  pub decimals : ℕ
  pub supply : ℕ
  pub transfer_fee : Option Config
  pub extensions : Option (List ExtensionType)

-- The accounts of one transfer.
pub record Transfer : Type 0 where
  pub program : Pubkey
  pub authority : Pubkey
  pub from : Pubkey
  pub to : Pubkey
  pub mint : Pubkey

-- A call returns `none` where the token program refuses it. The epoch, which the token program
-- reads from the clock, selects the transfer fee.
pub record TokenProgram : Type 1 where
  pub Ledger : Type 0
  pub Config : Type 0
  pub account : Ledger → Pubkey → TokenAccount
  pub mint : Ledger → Pubkey → Mint Config
  pub transfer_checked : Transfer → ℕ → ℕ → ℕ → Ledger → Option Ledger
  pub mint_to : Pubkey → Pubkey → Pubkey → ℕ → Ledger → Option Ledger
  pub burn : Pubkey → Pubkey → Pubkey → ℕ → Ledger → Option Ledger
  pub token_id : Pubkey
  pub basis_points : Config → ℕ → ℕ
  pub maximum_fee : Config → ℕ → ℕ
  pub calculate_epoch_fee : Config → ℕ → ℕ → Option ℕ
  pub calculate_inverse_epoch_fee : Config → ℕ → ℕ → Option ℕ
