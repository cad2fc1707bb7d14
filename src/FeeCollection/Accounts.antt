-- ===== src/FeeCollection/Accounts.antt =====
-- The accounts of the instructions that collect fees, with Anchor's constraints on them
-- (programs/cp-swap/src/instructions/admin/collect_protocol_fee.rs, admin/collect_fund_fee.rs and
-- collect_creator_fee.rs). That the receiving accounts of a creator are the creator's associated
-- accounts, found or created, is Anchor's.
use mim_swap_sol.Prelude.{◌==◌, if◌then◌else◌, require, ◌>>=◌, ◌>>◌}
use mim_swap_sol.Errors.{Pubkey, ErrorCode, AnchorError, code, anchor, Result}
use mim_swap_sol.Token.Interface.{TokenProgram, TokenAccount, Transfer}
use mim_swap_sol.States.Config.{
  AmmConfig, TreasuryAddresses, treasury_authority, expected_fee_receiver,
}
use mim_swap_sol.Swap.Accounts.{World}

-- What the three instructions share: the vaults, their mints, and the accounts that receive.
pub record CollectAccounts : Type 0 where
  pub authority : Pubkey
  pub amm_config : Pubkey
  pub token_0_vault : Pubkey
  pub token_1_vault : Pubkey
  pub vault_0_mint : Pubkey
  pub vault_1_mint : Pubkey
  pub recipient_token_0_account : Pubkey
  pub recipient_token_1_account : Pubkey

-- The token programs that `collect_protocol_fee` and `collect_fund_fee` are given.
pub record TokenPrograms : Type 0 where
  pub token_program : Pubkey
  pub token_program_2022 : Pubkey

-- `token_0_program` and `token_1_program` of `CollectCreatorFee`.
pub record CreatorPrograms : Type 0 where
  pub token_0_program : Pubkey
  pub token_1_program : Pubkey

module _ (t : TokenProgram) where
  unfoldable pub validate_collect : CollectAccounts → World t → Result (Unit {0})
  validate_collect a w = do
    require (a.amm_config == w.pool.amm_config) (anchor AnchorError.constraint_address)
    require (a.token_0_vault == w.pool.token_0_vault) (anchor AnchorError.constraint_raw)
    require (a.token_1_vault == w.pool.token_1_vault) (anchor AnchorError.constraint_raw)
    require (a.vault_0_mint == (t.account w.ledger a.token_0_vault).mint)
        (anchor AnchorError.constraint_address)
    require (a.vault_1_mint == (t.account w.ledger a.token_1_vault).mint)
        (anchor AnchorError.constraint_address)

  unfoldable pub validate_collect_creator : Pubkey → CollectAccounts → World t → Result (Unit {0})
  validate_collect_creator creator a w = do
    require (creator == w.pool.pool_creator) (anchor AnchorError.constraint_address)
    validate_collect a w

  -- The token account of the recipient by its key and what it holds.
  unfoldable pub validate_fee_recipient :
      TreasuryAddresses → AmmConfig → Pubkey → TokenAccount → Pubkey → Result (Unit {0})
  validate_fee_recipient derive config key recipient vault_mint = do
    require (recipient.mint == vault_mint) (code ErrorCode.invalid_fee_recipient)
    authority ← treasury_authority derive config
    require (recipient.owner == authority) (code ErrorCode.invalid_fee_recipient)
    receiver ← expected_fee_receiver derive vault_mint config
    require (key == receiver) (code ErrorCode.invalid_fee_recipient)

  abbrev pub program_of : TokenPrograms → Pubkey → World t → Pubkey
  program_of p mint w =
      if (t.mint w.ledger mint).token_program == p.token_program
      then p.token_program
      else p.token_program_2022

abbrev pub payment_0 : Pubkey → CollectAccounts → Transfer
payment_0 program a = record {
  program = program;
  authority = a.authority;
  from = a.token_0_vault;
  to = a.recipient_token_0_account;
  mint = a.vault_0_mint;
}

abbrev pub payment_1 : Pubkey → CollectAccounts → Transfer
payment_1 program a = record {
  program = program;
  authority = a.authority;
  from = a.token_1_vault;
  to = a.recipient_token_1_account;
  mint = a.vault_1_mint;
}
