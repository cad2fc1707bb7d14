-- ===== src/Creation/Handlers.antt =====
-- programs/cp-swap/src/instructions/initialize.rs and initialize_with_permission.rs. The ledger is
-- the one after Anchor has created the lp mint, the lp token account and the oracle's account.
use mim_swap_sol.Prelude.{
  ℕ, ◌==◌, ltb, leb, if◌then◌else◌, not, ◌&&◌, Bool, true, false, Option, List, u64_max, u128_max,
  checked_add, checked_mul, checked_sub, narrow, ok, err, panic, ok_or, unwrap, require, ◌>>=◌,
  ◌>>◌,
}
use mim_swap_sol.Errors.{Pubkey, default_pubkey, ErrorCode, AnchorError, code, anchor, Result, call}
use mim_swap_sol.Curve.Calculator.{validate_supply}
use mim_swap_sol.Token.Interface.{TokenAccount, TokenProgram}
use mim_swap_sol.Token.Calls.{
  AccountInfo, support_mint_associated_is_initialized, is_supported_mint,
  transfer_from_user_to_pool_vault, token_mint_to,
}
use mim_swap_sol.States.Pool.{PoolState, CreatorFeeOn, MintInfo, PoolKeys, initialize}
use mim_swap_sol.States.Oracle.{default}
use mim_swap_sol.States.Config.{AmmConfig}
use mim_swap_sol.Swap.Accounts.{Clock, World}
use mim_swap_sol.Creation.System.{SystemProgram, create_token_account, create_pool}
use mim_swap_sol.Creation.Accounts.{Program, Permission, CreationAccounts, payment_0, payment_1}

abbrev pub lock_lp_amount : ℕ
lock_lp_amount = 100

-- The account of the pool as it is allocated.
abbrev pub zeroed : PoolState
zeroed = record {
  amm_config = default_pubkey;
  pool_creator = default_pubkey;
  token_0_vault = default_pubkey;
  token_1_vault = default_pubkey;
  lp_mint = default_pubkey;
  token_0_mint = default_pubkey;
  token_1_mint = default_pubkey;
  token_0_program = default_pubkey;
  token_1_program = default_pubkey;
  observation_key = default_pubkey;
  auth_bump = 0;
  status = 0;
  lp_mint_decimals = 0;
  mint_0_decimals = 0;
  mint_1_decimals = 0;
  lp_supply = 0;
  protocol_fees_token_0 = 0;
  protocol_fees_token_1 = 0;
  fund_fees_token_0 = 0;
  fund_fees_token_1 = 0;
  open_time = 0;
  recent_epoch = 0;
  creator_fee_on = 0;
  enable_creator_fee = false;
  creator_fees_token_0 = 0;
  creator_fees_token_1 = 0;
}

-- An opening time that is not in the future becomes the next second.
unfoldable pub opening : ℕ → ℕ → Result ℕ
opening open_time block_timestamp =
    if leb open_time block_timestamp
    then unwrap (checked_add u64_max block_timestamp 1)
    else ok open_time

-- `U128::as_u64` panics where the number does not fit.
unfoldable pub initial_liquidity : Program → ℕ → ℕ → Result ℕ
initial_liquidity program amount_0 amount_1 = do
  validate_supply (code ErrorCode.empty_supply) amount_0 amount_1
  product ← unwrap (checked_mul u128_max amount_0 amount_1)
  unwrap (narrow u64_max (program.integer_sqrt product))

-- `.unwrap()` on a result: an error becomes a panic.
abbrev unwrap_result : Result Bool → Result Bool
unwrap_result (ok b) = ok b
unwrap_result (err e) = panic
unwrap_result panic = panic

module _ (t : TokenProgram) (s : SystemProgram t) (program : Program) (config : AmmConfig)
    (clock : Clock) where
  abbrev owned : Pubkey → Pubkey → TokenAccount → Result (Unit {0})
  owned mint authority account = do
    require (account.owner == authority) (anchor AnchorError.constraint_token_owner)
    require (account.mint == mint) (anchor AnchorError.constraint_token_mint)

  unfoldable pub validate_creation : CreationAccounts → t.Ledger → Result (Unit {0})
  validate_creation a ledger = do
    require ((t.mint ledger a.token_0_mint).token_program == a.token_0_program)
        (anchor AnchorError.constraint_mint_token_program)
    require (ltb a.token_0_mint a.token_1_mint) (anchor AnchorError.constraint_raw)
    require ((t.mint ledger a.token_1_mint).token_program == a.token_1_program)
        (anchor AnchorError.constraint_mint_token_program)
    owned a.token_0_mint a.payer (t.account ledger a.payer_token_0)
    owned a.token_1_mint a.payer (t.account ledger a.payer_token_1)
    require (a.create_pool_fee == program.create_pool_fee_receiver)
        (anchor AnchorError.constraint_address)

  unfoldable pub check_mints : CreationAccounts → List AccountInfo → t.Ledger → Result (Unit {0})
  check_mints a remaining_accounts ledger = do
    mint_0_associated ←
        support_mint_associated_is_initialized program.id
          (program.support_mint_address a.token_0_mint) a.token_0_mint remaining_accounts
    mint_1_associated ←
        support_mint_associated_is_initialized program.id
          (program.support_mint_address a.token_1_mint) a.token_1_mint remaining_accounts
    mint_0_supported ←
        unwrap_result
          (is_supported_mint t a.token_0_mint (t.mint ledger a.token_0_mint) mint_0_associated)
    mint_1_supported ←
        if mint_0_supported
        then unwrap_result
            (is_supported_mint t a.token_1_mint (t.mint ledger a.token_1_mint) mint_1_associated)
        else ok false
    require (mint_0_supported && mint_1_supported) (code ErrorCode.not_support_mint)

  -- Both vaults and the pool's account are created, and the initial amounts are paid in.
  unfoldable pub fill_vaults : CreationAccounts → ℕ → ℕ → t.Ledger → Result t.Ledger
  fill_vaults a init_amount_0 init_amount_1 ledger = do
    with_vault_0 ←
        create_token_account t s a.authority a.payer a.token_0_vault a.token_0_mint
          a.token_0_program ledger
    with_vaults ←
        create_token_account t s a.authority a.payer a.token_1_vault a.token_1_mint
          a.token_1_program with_vault_0
    with_pool ←
        create_pool t s program.id (program.pool_address a.amm_config a.token_0_mint a.token_1_mint)
          a.payer a.pool_state a.pool_state_is_signer with_vaults
    paid_0 ←
        transfer_from_user_to_pool_vault t clock.epoch (payment_0 a) init_amount_0
          (t.mint ledger a.token_0_mint).decimals with_pool
    transfer_from_user_to_pool_vault t clock.epoch (payment_1 a) init_amount_1
        (t.mint ledger a.token_1_mint).decimals paid_0

  unfoldable pub charge_pool_fee : CreationAccounts → t.Ledger → Result t.Ledger
  charge_pool_fee a ledger = if config.create_pool_fee == 0 then ok ledger else do
    paid ← call (s.transfer a.payer a.create_pool_fee config.create_pool_fee ledger)
    call (s.sync_native a.token_program a.create_pool_fee paid)

  abbrev keys_of : CreationAccounts → PoolKeys
  keys_of a = record {
    pool_creator = a.creator;
    amm_config = a.amm_config;
    token_0_vault = a.token_0_vault;
    token_1_vault = a.token_1_vault;
    lp_mint = a.lp_mint;
    observation_key = a.observation_state;
  }

  abbrev info_of : Pubkey → t.Ledger → MintInfo
  info_of mint ledger = record {
    key = mint;
    owner = (t.mint ledger mint).token_program;
    decimals = (t.mint ledger mint).decimals;
  }

  -- What both instructions do.
  unfoldable pub found_pool :
      CreationAccounts
      → List AccountInfo
      → ℕ
      → ℕ
      → ℕ
      → CreatorFeeOn
      → Bool
      → t.Ledger
      → Result (World t)
  found_pool a remaining_accounts init_amount_0 init_amount_1 open_time creator_fee_on
        enable_creator_fee ledger =
      do
        validate_creation a ledger
        check_mints a remaining_accounts ledger
        require (not config.disable_create_pool) (code ErrorCode.not_approved)
        opens ← opening open_time clock.unix_timestamp
        filled ← fill_vaults a init_amount_0 init_amount_1 ledger
        liquidity ←
            initial_liquidity program (t.account filled a.token_0_vault).amount
              (t.account filled a.token_1_vault).amount
        minted ←
            ok_or (checked_sub liquidity lock_lp_amount) (code ErrorCode.init_lp_amount_too_less)
        with_lp ← token_mint_to t a.authority a.lp_mint a.payer_lp_token minted filled
        charged ← charge_pool_fee a with_lp
        ok (record {
          pool =
              initialize clock.epoch a.authority_bump liquidity opens (keys_of a)
                (info_of a.token_0_mint ledger) (info_of a.token_1_mint ledger)
                (t.mint ledger a.lp_mint).decimals creator_fee_on enable_creator_fee zeroed;
          observation = record default { pool_id = a.pool_state };
          ledger = charged;
        })

  -- `initialize`: by the creator, with the creator's fee off.
  unfoldable pub handle_initialize :
      CreationAccounts → List AccountInfo → ℕ → ℕ → ℕ → t.Ledger → Result (World t)
  handle_initialize a remaining_accounts init_amount_0 init_amount_1 open_time ledger =
      found_pool (record a { creator = a.payer }) remaining_accounts init_amount_0 init_amount_1
        open_time CreatorFeeOn.both_token false ledger

  -- `initialize_with_permission`: the account `permission` must hold a permission, and must be at the
  -- address that is derived from the payer. `permissions` reads the program's accounts.
  unfoldable pub handle_initialize_with_permission :
      (Pubkey → Option Permission)
      → Pubkey
      → CreationAccounts
      → List AccountInfo
      → ℕ
      → ℕ
      → ℕ
      → CreatorFeeOn
      → t.Ledger
      → Result (World t)
  handle_initialize_with_permission permissions permission a remaining_accounts init_amount_0
        init_amount_1 open_time creator_fee_on ledger =
      do
        ok_or (permissions permission) (anchor AnchorError.account_not_initialized)
        require (permission == program.permission_address a.payer)
            (anchor AnchorError.constraint_seeds)
        found_pool a remaining_accounts init_amount_0 init_amount_1 open_time creator_fee_on true
            ledger
