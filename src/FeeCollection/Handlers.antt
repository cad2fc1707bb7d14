-- ===== src/FeeCollection/Handlers.antt =====
-- programs/cp-swap/src/instructions/admin/collect_protocol_fee.rs, admin/collect_fund_fee.rs,
-- collect_creator_fee.rs and admin/update_pool_status.rs. Anchor reads the mints before a handler
-- begins, so the decimals are those of the ledger at its start.
use mim_swap_sol.Prelude.{
  ℕ, ◌==◌, ltb, leb, ◌&&◌, ◌||◌, min, if◌then◌else◌, checked_sub, ok, err, unwrap, require, ◌>>=◌,
  ◌>>◌,
}
use mim_swap_sol.Errors.{Pubkey, ErrorCode, AnchorError, code, anchor, Result}
use mim_swap_sol.Token.Interface.{TokenProgram}
use mim_swap_sol.Token.Calls.{transfer_from_pool_vault_to_user}
use mim_swap_sol.States.Pool.{PoolState, set_status}
use mim_swap_sol.States.Config.{AmmConfig, TreasuryAddresses}
use mim_swap_sol.Swap.Accounts.{Clock, World}
use mim_swap_sol.FeeCollection.Accounts.{
  CollectAccounts, TokenPrograms, CreatorPrograms, validate_collect, validate_collect_creator,
  validate_fee_recipient, program_of, payment_0, payment_1,
}

-- The fees that are taken, no more than requested and no more than accrued, with the pool after.
pub record Collected : Type 0 where
  pub amount_0 : ℕ
  pub amount_1 : ℕ
  pub pool : PoolState

unfoldable pub take_protocol_fees : ℕ → ℕ → ℕ → PoolState → Result Collected
take_protocol_fees epoch amount_0_requested amount_1_requested pool =
    let amount_0 = min amount_0_requested pool.protocol_fees_token_0 in
    let amount_1 = min amount_1_requested pool.protocol_fees_token_1 in
    do
      require (ltb 0 amount_0 || ltb 0 amount_1) (code ErrorCode.no_fee_collect)
      left_0 ← unwrap (checked_sub pool.protocol_fees_token_0 amount_0)
      left_1 ← unwrap (checked_sub pool.protocol_fees_token_1 amount_1)
      ok (record {
        amount_0 = amount_0;
        amount_1 = amount_1;
        pool = record pool {
          protocol_fees_token_0 = left_0;
          protocol_fees_token_1 = left_1;
          recent_epoch = epoch;
        };
      })

unfoldable pub take_fund_fees : ℕ → ℕ → ℕ → PoolState → Result Collected
take_fund_fees epoch amount_0_requested amount_1_requested pool =
    let amount_0 = min amount_0_requested pool.fund_fees_token_0 in
    let amount_1 = min amount_1_requested pool.fund_fees_token_1 in
    do
      require (ltb 0 amount_0 || ltb 0 amount_1) (code ErrorCode.no_fee_collect)
      left_0 ← unwrap (checked_sub pool.fund_fees_token_0 amount_0)
      left_1 ← unwrap (checked_sub pool.fund_fees_token_1 amount_1)
      ok (record {
        amount_0 = amount_0;
        amount_1 = amount_1;
        pool = record pool {
          fund_fees_token_0 = left_0;
          fund_fees_token_1 = left_1;
          recent_epoch = epoch;
        };
      })

-- All that the creator is owed; the handler resets the fees after the transfers, which do not read
-- the pool.
unfoldable pub take_creator_fees : ℕ → PoolState → Result Collected
take_creator_fees epoch pool =
    if pool.creator_fees_token_0 == 0 && pool.creator_fees_token_1 == 0
    then err (code ErrorCode.no_fee_collect)
    else ok (record {
      amount_0 = pool.creator_fees_token_0;
      amount_1 = pool.creator_fees_token_1;
      pool = record pool {
        creator_fees_token_0 = 0;
        creator_fees_token_1 = 0;
        recent_epoch = epoch;
      };
    })

-- `admin` is the address that `crate::admin::ID` names.
unfoldable pub update_pool_status : Pubkey → Pubkey → ℕ → ℕ → PoolState → Result PoolState
update_pool_status admin authority epoch status pool = do
  require (authority == admin) (anchor AnchorError.constraint_address)
  require (leb status 255) (anchor AnchorError.require_gte_violated)
  ok (record (set_status status pool) { recent_epoch = epoch })

module _ (t : TokenProgram) (clock : Clock) where
  -- The two transfers out of the vaults, with the pool after them.
  unfoldable pub pay_out :
      Pubkey → Pubkey → CollectAccounts → Collected → World t → Result (World t)
  pay_out program_0 program_1 a c w = do
    paid_0 ←
        transfer_from_pool_vault_to_user t clock.epoch (payment_0 program_0 a) c.amount_0
          (t.mint w.ledger a.vault_0_mint).decimals w.ledger
    paid_1 ←
        transfer_from_pool_vault_to_user t clock.epoch (payment_1 program_1 a) c.amount_1
          (t.mint w.ledger a.vault_1_mint).decimals paid_0
    ok (record w { pool = c.pool; ledger = paid_1 })

  -- Both recipients are the treasury's.
  unfoldable pub validate_recipients :
      TreasuryAddresses → AmmConfig → CollectAccounts → World t → Result (Unit {0})
  validate_recipients derive config a w = do
    validate_fee_recipient t derive config a.recipient_token_0_account
        (t.account w.ledger a.recipient_token_0_account) a.vault_0_mint
    validate_fee_recipient t derive config a.recipient_token_1_account
        (t.account w.ledger a.recipient_token_1_account) a.vault_1_mint

  module _ (derive : TreasuryAddresses) (config : AmmConfig) (a : CollectAccounts)
      (p : TokenPrograms) where
    unfoldable pub collect_protocol_fee : ℕ → ℕ → World t → Result (World t)
    collect_protocol_fee amount_0_requested amount_1_requested w = do
      validate_collect t a w
      validate_recipients derive config a w
      c ← take_protocol_fees clock.epoch amount_0_requested amount_1_requested w.pool
      pay_out (program_of t p a.vault_0_mint w) (program_of t p a.vault_1_mint w) a c w

    unfoldable pub collect_fund_fee : ℕ → ℕ → World t → Result (World t)
    collect_fund_fee amount_0_requested amount_1_requested w = do
      validate_collect t a w
      validate_recipients derive config a w
      c ← take_fund_fees clock.epoch amount_0_requested amount_1_requested w.pool
      pay_out (program_of t p a.vault_0_mint w) (program_of t p a.vault_1_mint w) a c w

  unfoldable pub collect_creator_fee :
      Pubkey → CollectAccounts → CreatorPrograms → World t → Result (World t)
  collect_creator_fee creator a p w = do
    validate_collect_creator t creator a w
    c ← take_creator_fees clock.epoch w.pool
    pay_out p.token_0_program p.token_1_program a c w
