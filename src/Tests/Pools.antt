-- ===== src/Tests/Pools.antt =====
-- A pool that is created on the concrete ledger of `Token.Simple`.
use mim_swap_sol.Prelude.{
  ℕ, zero, suc, ◌+◌, ◌*◌, ◌≡◌, leb, if◌then◌else◌, true, false, ap, Option, refl, some, [],
  checked_add, narrow, none, ◌==◌, checked_mul, checked_sub, ok, arith, Bool-cases, inl, inr,
}
use mim_swap_sol.Errors.{Pubkey}
use mim_swap_sol.Curve.Calculator.{validate_supply}
use mim_swap_sol.Token.Calls.{
  support_mint_associated_is_initialized, is_supported_mint, transfer_from_user_to_pool_vault,
  token_mint_to,
}
use mim_swap_sol.Token.Simple.{
  SimpleLedger, simple, classic_id, update, simple-TransferLaws, simple-SupplyLaws,
  transfer_checked, mint_to,
}
use mim_swap_sol.States.Pool.{CreatorFeeOn}
use mim_swap_sol.Swap.Accounts.{World}
use mim_swap_sol.Creation.System.{
  SystemProgram, create_or_allocate_account, token_account_space, create_token_account, create_pool,
}
use mim_swap_sol.Creation.Accounts.{Program, Permission, CreationAccounts}
use mim_swap_sol.Creation.Handlers.{
  opening, initial_liquidity, validate_creation, check_mints, fill_vaults, charge_pool_fee,
  found_pool, handle_initialize, handle_initialize_with_permission,
}
use mim_swap_sol.Creation.Root.{IsSqrt}
use mim_swap_sol.Creation.SystemLaws.{SystemLaws}
use mim_swap_sol.Creation.Founding.{
  IsCreationApart, IsFounded, handle_initialize-IsFounded,
  handle_initialize_with_permission-IsFounded,
}
use mim_swap_sol.Tests.Sample.{clock, config, world, outcome}

-- The square root rounded down, counted up.
unfoldable root : ℕ → ℕ
root zero = 0
root (suc n) =
    let below = root n in if leb ((below + 1) * (below + 1)) (suc n) then below + 1 else below

root-IsSqrt : IsSqrt root
unfolding root
root-IsSqrt zero = omega arith
root-IsSqrt (suc n) =
    let (low, high) = root-IsSqrt n in
    elim (Bool-cases (leb ((root n + 1) * (root n + 1)) (suc n))) [
      | inl up ↦ rw up (ground arith)
      | inr same ↦ rw same (ground arith)
    ]

abbrev system : SystemProgram simple
system = record {
  id = 11;
  token_2022_id = 5;
  lamports = λ l k. 0;
  owner = λ l k. 11;
  minimum_balance = λ space. space + 128;
  create_account = λ payer account lamports space program l. some l;
  transfer = λ from to lamports l. some l;
  allocate = λ account space l. some l;
  assign = λ account program l. some l;
  initialize_account3 = λ program account mint owner l. some (record l {
    accounts = update l.accounts account (record { mint = mint; owner = owner; amount = 0 });
  });
  account_len = λ extensions. some 200;
  sync_native = λ program account l. some l;
}

system-SystemLaws : SystemLaws simple system
system-SystemLaws = record {
  transfer_accounts = λ from to lamports l k h. ap (λ x. simple.account x k) (some_same h);
  transfer_mints = λ from to lamports l m h. ap (λ x. simple.mint x m) (some_same h);
  sync_others = λ program account l k h apart. ap (λ x. simple.account x k) (some_same h);
  sync_mints = λ program account l m h. ap (λ x. simple.mint x m) (some_same h);
  create_mints =
      λ payer account lamports space program l m h. ap (λ x. simple.mint x m) (some_same h);
  allocate_mints = λ account space l m h. ap (λ x. simple.mint x m) (some_same h);
  assign_mints = λ account program l m h. ap (λ x. simple.mint x m) (some_same h);
  initialize_mints = λ program account mint owner l m h. ap (λ x. simple.mint x m) (some_same h);
}
  where
    some_same : {l l' : SimpleLedger} → ◌≡◌ {A = Option SimpleLedger} (some l) (some l') → l' ≡ l
    some_same h = cc

abbrev program : Program
program = record {
  id = 1;
  support_mint_address = λ mint. 0;
  permission_address = λ payer. payer + 70;
  pool_address = λ config mint_0 mint_1. 9;
  create_pool_fee_receiver = 90;
  integer_sqrt = root;
}

-- Mint 20 is classic, mint 21 has a transfer fee of 3.
abbrev accounts : CreationAccounts
accounts = record {
  payer = 6;
  creator = 6;
  amm_config = 2;
  authority = 1;
  pool_state = 9;
  pool_state_is_signer = false;
  token_0_mint = 20;
  token_1_mint = 21;
  lp_mint = 23;
  payer_token_0 = 12;
  payer_token_1 = 13;
  payer_lp_token = 15;
  token_0_vault = 60;
  token_1_vault = 61;
  create_pool_fee = 90;
  observation_state = 4;
  token_program = classic_id;
  token_0_program = classic_id;
  token_1_program = 5;
  authority_bump = 254;
}

accounts-IsCreationApart : IsCreationApart simple system accounts
accounts-IsCreationApart = record {
  lp_vault_0 = λ e. omega (arith, e);
  lp_vault_1 = λ e. omega (arith, e);
  fee_vault_0 = λ e. omega (arith, e);
  fee_vault_1 = λ e. omega (arith, e);
}

abbrev founded : World simple
founded =
    outcome world
      (handle_initialize simple system program config clock accounts [] 120 123 0 world.ledger)

founds :
    handle_initialize simple system program config clock accounts [] 120 123 0 world.ledger
    ≡ ok founded
unfolding handle_initialize found_pool validate_creation check_mints
    support_mint_associated_is_initialized is_supported_mint opening fill_vaults
    create_token_account token_account_space create_or_allocate_account create_pool
    transfer_from_user_to_pool_vault transfer_checked initial_liquidity validate_supply root
    token_mint_to mint_to charge_pool_fee checked_add checked_mul checked_sub narrow
founds = refl

handle_initialize-IsFounded_example :
    IsFounded simple system system-SystemLaws program config clock 6 false world.ledger founded
handle_initialize-IsFounded_example =
    handle_initialize-IsFounded simple system system-SystemLaws program config clock
      simple-TransferLaws simple-SupplyLaws root-IsSqrt accounts [] 120 123 0 world.ledger
      accounts-IsCreationApart founds

-- The permission of account 6.
abbrev permissions : Pubkey → Option Permission
permissions k = if k == 76 then some (record { authority = 6 }) else none

abbrev permitted : World simple
permitted = outcome world (
    handle_initialize_with_permission simple system program config clock permissions 76 accounts []
      120 123 5_000 CreatorFeeOn.only_token_0 world.ledger)

permits :
    handle_initialize_with_permission simple system program config clock permissions 76 accounts []
      120 123 5_000 CreatorFeeOn.only_token_0 world.ledger
    ≡ ok permitted
unfolding handle_initialize_with_permission found_pool validate_creation check_mints
    support_mint_associated_is_initialized is_supported_mint opening fill_vaults
    create_token_account token_account_space create_or_allocate_account create_pool
    transfer_from_user_to_pool_vault transfer_checked initial_liquidity validate_supply root
    token_mint_to mint_to charge_pool_fee checked_add checked_mul checked_sub narrow
permits = refl

handle_initialize_with_permission-IsFounded_example :
    IsFounded simple system system-SystemLaws program config clock 6 true world.ledger permitted
    × (p : Permission) × (permissions 76 ≡ some p)
handle_initialize_with_permission-IsFounded_example =
    handle_initialize_with_permission-IsFounded simple system system-SystemLaws program config clock
      simple-TransferLaws simple-SupplyLaws root-IsSqrt permissions 76 accounts [] 120 123 5_000
      CreatorFeeOn.only_token_0 world.ledger accounts-IsCreationApart permits
