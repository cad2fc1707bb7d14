-- ===== src/Creation/Accounts.antt =====
-- The accounts of `initialize` and `initialize_with_permission`
-- (programs/cp-swap/src/instructions/initialize.rs, initialize_with_permission.rs), and what both take
-- from outside the repository.
use mim_swap_sol.Prelude.{ℕ, Bool}
use mim_swap_sol.Errors.{Pubkey}
use mim_swap_sol.Token.Interface.{Transfer}

-- What the program takes from elsewhere: its id, the addresses that are derived from seeds, the
-- account that `crate::create_pool_fee_reveiver::ID` names, and the square root of the `uint` crate.
pub record Program : Type 0 where
  pub id : Pubkey
  pub support_mint_address : Pubkey → Pubkey
  pub permission_address : Pubkey → Pubkey
  pub pool_address : Pubkey → Pubkey → Pubkey → Pubkey
  pub create_pool_fee_receiver : Pubkey
  pub integer_sqrt : ℕ → ℕ

-- `Permission` of programs/cp-swap/src/states/permission.rs.
pub record Permission : Type 0 where
  pub authority : Pubkey

-- In `initialize` the creator pays: `payer` and `creator` are one account.
pub record CreationAccounts : Type 0 where
  pub payer : Pubkey
  pub creator : Pubkey
  pub amm_config : Pubkey
  pub authority : Pubkey
  pub pool_state : Pubkey
  pub pool_state_is_signer : Bool
  pub token_0_mint : Pubkey
  pub token_1_mint : Pubkey
  pub lp_mint : Pubkey
  pub payer_token_0 : Pubkey
  pub payer_token_1 : Pubkey
  pub payer_lp_token : Pubkey
  pub token_0_vault : Pubkey
  pub token_1_vault : Pubkey
  pub create_pool_fee : Pubkey
  pub observation_state : Pubkey
  pub token_program : Pubkey
  pub token_0_program : Pubkey
  pub token_1_program : Pubkey
  pub authority_bump : ℕ

abbrev pub payment_0 : CreationAccounts → Transfer
payment_0 a = record {
  program = a.token_0_program;
  authority = a.payer;
  from = a.payer_token_0;
  to = a.token_0_vault;
  mint = a.token_0_mint;
}

abbrev pub payment_1 : CreationAccounts → Transfer
payment_1 a = record {
  program = a.token_1_program;
  authority = a.payer;
  from = a.payer_token_1;
  to = a.token_1_vault;
  mint = a.token_1_mint;
}
