-- ===== src/Liquidity/Accounts.antt =====
-- The accounts of a deposit and of a withdrawal with Anchor's constraints on them
-- (programs/cp-swap/src/instructions/deposit.rs, `Deposit`, and withdraw.rs, `Withdraw`). That `owner`
-- is a signer, that `authority` is the derived address and that programs are the right ones is
-- Anchor's.
use mim_swap_sol.Prelude.{ℕ, ◌==◌, if◌then◌else◌, require, ◌>>◌}
use mim_swap_sol.Errors.{Pubkey, ErrorCode, AnchorError, code, anchor, Result}
use mim_swap_sol.Token.Interface.{TokenProgram, TokenAccount, Transfer}
use mim_swap_sol.Swap.Accounts.{World}

pub record LpAccounts : Type 0 where
  pub owner : Pubkey
  pub authority : Pubkey
  pub pool_state : Pubkey
  pub owner_lp_token : Pubkey
  pub token_0_account : Pubkey
  pub token_1_account : Pubkey
  pub token_0_vault : Pubkey
  pub token_1_vault : Pubkey
  pub token_program : Pubkey
  pub token_program_2022 : Pubkey
  pub vault_0_mint : Pubkey
  pub vault_1_mint : Pubkey
  pub lp_mint : Pubkey

-- `LpChangeEvent` of programs/cp-swap/src/states/events.rs.
pub record LpChangeEvent : Type 0 where
  pub pool_id : Pubkey
  pub lp_amount_before : ℕ
  pub token_0_vault_before : ℕ
  pub token_1_vault_before : ℕ
  pub token_0_amount : ℕ
  pub token_1_amount : ℕ
  pub token_0_transfer_fee : ℕ
  pub token_1_transfer_fee : ℕ
  pub change_type : ℕ

-- `token::authority = authority`
abbrev pub owned_by : Pubkey → TokenAccount → Result (Unit {0})
owned_by authority account =
    require (account.owner == authority) (anchor AnchorError.constraint_token_owner)

-- `token::mint = mint`
abbrev pub of_mint : Pubkey → TokenAccount → Result (Unit {0})
of_mint mint account = require (account.mint == mint) (anchor AnchorError.constraint_token_mint)

module _ (t : TokenProgram) where
  -- The constraints on the vaults and the mints, which both instructions end with.
  unfoldable pub validate_vaults : LpAccounts → World t → Result (Unit {0})
  validate_vaults a w = do
    require (a.token_0_vault == w.pool.token_0_vault) (anchor AnchorError.constraint_raw)
    require (a.token_1_vault == w.pool.token_1_vault) (anchor AnchorError.constraint_raw)
    require (a.vault_0_mint == (t.account w.ledger a.token_0_vault).mint)
        (anchor AnchorError.constraint_address)
    require (a.vault_1_mint == (t.account w.ledger a.token_1_vault).mint)
        (anchor AnchorError.constraint_address)
    require (a.lp_mint == w.pool.lp_mint) (code ErrorCode.incorrect_lp_mint)

  unfoldable pub validate_deposit : LpAccounts → World t → Result (Unit {0})
  validate_deposit a w = do
    owned_by a.owner (t.account w.ledger a.owner_lp_token)
    owned_by a.owner (t.account w.ledger a.token_0_account)
    of_mint (t.account w.ledger a.token_0_vault).mint (t.account w.ledger a.token_0_account)
    owned_by a.owner (t.account w.ledger a.token_1_account)
    of_mint (t.account w.ledger a.token_1_vault).mint (t.account w.ledger a.token_1_account)
    validate_vaults a w

  unfoldable pub validate_withdraw : LpAccounts → World t → Result (Unit {0})
  validate_withdraw a w = do
    owned_by a.owner (t.account w.ledger a.owner_lp_token)
    of_mint (t.account w.ledger a.token_0_vault).mint (t.account w.ledger a.token_0_account)
    of_mint (t.account w.ledger a.token_1_vault).mint (t.account w.ledger a.token_1_account)
    validate_vaults a w

  -- The token program that a mint belongs to, of the two that the instruction is given.
  abbrev pub program_for : LpAccounts → Pubkey → World t → Pubkey
  program_for a mint w =
      if (t.mint w.ledger mint).token_program == a.token_program
      then a.token_program
      else a.token_program_2022

  -- The accounts of the four transfers: into the vaults by the owner, and out of them by the
  -- authority.
  abbrev pub into_0 : LpAccounts → World t → Transfer
  into_0 a w = record {
    program = program_for a a.vault_0_mint w;
    authority = a.owner;
    from = a.token_0_account;
    to = a.token_0_vault;
    mint = a.vault_0_mint;
  }

  abbrev pub into_1 : LpAccounts → World t → Transfer
  into_1 a w = record {
    program = program_for a a.vault_1_mint w;
    authority = a.owner;
    from = a.token_1_account;
    to = a.token_1_vault;
    mint = a.vault_1_mint;
  }

  abbrev pub out_of_0 : LpAccounts → World t → Transfer
  out_of_0 a w = record {
    program = program_for a a.vault_0_mint w;
    authority = a.authority;
    from = a.token_0_vault;
    to = a.token_0_account;
    mint = a.vault_0_mint;
  }

  abbrev pub out_of_1 : LpAccounts → World t → Transfer
  out_of_1 a w = record {
    program = program_for a a.vault_1_mint w;
    authority = a.authority;
    from = a.token_1_vault;
    to = a.token_1_account;
    mint = a.vault_1_mint;
  }
