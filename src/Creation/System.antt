-- ===== src/Creation/System.antt =====
-- The accounts that a program creates for itself: `create_token_account` and
-- `create_or_allocate_account` of programs/cp-swap/src/utils/token.rs, and `create_pool` of
-- instructions/initialize.rs. The system program, the initialization of a token account and the space
-- that one takes are not part of the repository, so they are a parameter. They work on the ledger
-- of the token program, which stands for all accounts.
use Prim.Native.Nat.{max}
use mim_swap_sol.Prelude.{
  ℕ, ◌-◌, ◌==◌, ltb, if◌then◌else◌, not, ◌&&◌, Bool, Option, List, ok, err, ◌>>=◌,
}
use mim_swap_sol.Errors.{Pubkey, ErrorCode, AnchorError, code, anchor, Result, call}
use mim_swap_sol.Token.Interface.{ExtensionType, Mint, TokenProgram}

-- `create_account` takes the payer, the account, its lamports, its space and its owner.
-- `initialize_account3` takes the token program, the account, the mint and the owner of the tokens.
pub record SystemProgram (t : TokenProgram) : Type 0 where
  pub id : Pubkey
  pub token_2022_id : Pubkey
  pub lamports : t.Ledger → Pubkey → ℕ
  pub owner : t.Ledger → Pubkey → Pubkey
  pub minimum_balance : ℕ → ℕ
  pub create_account : Pubkey → Pubkey → ℕ → ℕ → Pubkey → t.Ledger → Option t.Ledger
  pub transfer : Pubkey → Pubkey → ℕ → t.Ledger → Option t.Ledger
  pub allocate : Pubkey → ℕ → t.Ledger → Option t.Ledger
  pub assign : Pubkey → Pubkey → t.Ledger → Option t.Ledger
  pub initialize_account3 : Pubkey → Pubkey → Pubkey → Pubkey → t.Ledger → Option t.Ledger
  pub account_len : List ExtensionType → Option ℕ
  pub sync_native : Pubkey → Pubkey → t.Ledger → Option t.Ledger

-- `TokenAccount::LEN` and `PoolState::LEN`.
abbrev pub token_account_len : ℕ
token_account_len = 165

abbrev pub pool_len : ℕ
pool_len = 637

module _ (t : TokenProgram) (s : SystemProgram t) where
  -- The account has lamports already: what is missing is added, and the space is taken.
  unfoldable pub allocate_account : Pubkey → Pubkey → Pubkey → ℕ → t.Ledger → Result t.Ledger
  allocate_account program payer target space ledger =
      let required = max (s.minimum_balance space) 1 - s.lamports ledger target in
      do
        funded ←
            if ltb 0 required then call (s.transfer payer target required ledger) else ok ledger
        allocated ← call (s.allocate target space funded)
        call (s.assign target program allocated)

  unfoldable pub create_or_allocate_account :
      Pubkey → Pubkey → Pubkey → ℕ → t.Ledger → Result t.Ledger
  create_or_allocate_account program payer target space ledger =
      if s.lamports ledger target == 0
      then call (s.create_account payer target (s.minimum_balance space) space program ledger)
      else allocate_account program payer target space ledger

  unfoldable pub token_account_space : Mint t.Config → Result ℕ
  token_account_space mint =
      if mint.token_program == s.token_2022_id
      then (call mint.extensions >>= λ extensions. call (s.account_len extensions))
      else ok token_account_len

  unfoldable pub create_token_account :
      Pubkey → Pubkey → Pubkey → Pubkey → Pubkey → t.Ledger → Result t.Ledger
  create_token_account authority payer token_account mint token_program ledger = do
    space ← token_account_space (t.mint ledger mint)
    created ← create_or_allocate_account token_program payer token_account space ledger
    call (s.initialize_account3 token_program token_account mint authority created)

  -- `expected` is the address that is derived from the configuration and the mints, `program` the
  -- program's id. The account need not be at that address if it signs.
  unfoldable pub create_pool : Pubkey → Pubkey → Pubkey → Pubkey → Bool → t.Ledger → Result t.Ledger
  create_pool program expected payer pool_account is_signer ledger =
      if not (s.owner ledger pool_account == s.id)
      then err (code ErrorCode.not_approved)
      else if not (pool_account == expected) && not is_signer
      then err (anchor AnchorError.require_eq_violated)
      else create_or_allocate_account program payer pool_account pool_len ledger
