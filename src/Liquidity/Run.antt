-- ===== src/Liquidity/Run.antt =====
-- The intermediate values of a deposit and of a withdrawal that succeed.
use mim_swap_sol.Prelude.{
  ℕ, ◌+◌, ◌-◌, ◌≤◌, ◌≡◌, ltb, leb, ◌||◌, not, min, u64_max, checked_add, checked_sub, narrow, ok,
  some, unwrap, require, arith, >>=-elim,
}
use mim_swap_sol.Errors.{ErrorCode, AnchorError, code, anchor, Result}
use mim_swap_sol.Curve.FeeLaws.{IsCeil, IsFloor}
use mim_swap_sol.Curve.ConstantProduct.{RoundDirection}
use mim_swap_sol.Token.Interface.{TokenProgram}
use mim_swap_sol.Token.Calls.{get_transfer_fee, get_transfer_inverse_fee, token_mint_to}
use mim_swap_sol.States.Pool.{PoolStatusBitIndex}
use mim_swap_sol.Swap.Accounts.{Clock, World}
use mim_swap_sol.Swap.Settle.{to_u64}
use mim_swap_sol.Liquidity.Accounts.{LpAccounts, LpChangeEvent, validate_deposit, validate_withdraw}
use mim_swap_sol.Liquidity.Handlers.{
  Entitled, Parts, entitled, deposit_parts, deposit_moves, deposit, withdraw_parts, withdraw_moves,
  withdraw,
}
use mim_swap_sol.Liquidity.Entitlement.{IsEntitled, entitled_ceiling, entitled_floor}

abbrev within : ℕ → ℕ → Parts → Result (Unit {0})
within maximum_0 maximum_1 parts =
    require (not (ltb maximum_0 parts.amount_0 || ltb maximum_1 parts.amount_1))
      (code ErrorCode.exceeded_slippage)

abbrev enough : ℕ → ℕ → Parts → Result (Unit {0})
enough minimum_0 minimum_1 parts =
    require
      (not (
        ltb (parts.amount_0 - parts.fee_0) minimum_0
        || ltb (parts.amount_1 - parts.fee_1) minimum_1))
      (code ErrorCode.exceeded_slippage)

module _ (t : TokenProgram) (clock : Clock) (a : LpAccounts) (w : World t) where
  -- The amounts of a deposit.
  pub record IsDepositParts (e : Entitled) (parts : Parts) : Type 0 where
    pub inverse_0 :
        get_transfer_inverse_fee t clock.epoch (t.mint w.ledger a.vault_0_mint) e.token_0_amount
        ≡ ok parts.fee_0
    pub inverse_1 :
        get_transfer_inverse_fee t clock.epoch (t.mint w.ledger a.vault_1_mint) e.token_1_amount
        ≡ ok parts.fee_1
    pub paid_0 : parts.amount_0 ≡ e.token_0_amount + parts.fee_0
    pub paid_1 : parts.amount_1 ≡ e.token_1_amount + parts.fee_1

  pub deposit_parts-IsDepositParts :
      (e : Entitled) {parts : Parts}
      → deposit_parts t clock a e w ≡ ok parts
      → IsDepositParts e parts
  unfolding deposit_parts narrow checked_add
  deposit_parts-IsDepositParts e h = >>=-elim (to_u64 e.token_0_amount) _ h λ n0 e0 h0.
      >>=-elim (get_transfer_inverse_fee t clock.epoch (t.mint w.ledger a.vault_0_mint) n0) _ h0
        λ f0 e1 h1. >>=-elim (sum_of n0 f0) _ h1 λ a0 e2 h2.
          >>=-elim (to_u64 e.token_1_amount) _ h2 λ n1 e3 h3.
            >>=-elim (get_transfer_inverse_fee t clock.epoch (t.mint w.ledger a.vault_1_mint) n1) _
              h3
              λ f1 e4 h4. >>=-elim (sum_of n1 f1) _ h4 λ a1 e5 h5. record {
                inverse_0 = ground arith;
                inverse_1 = ground arith;
                paid_0 = ground arith;
                paid_1 = ground arith;
              }
    where
      sum_of : ℕ → ℕ → Result ℕ
      sum_of x y = unwrap (checked_add u64_max x y)

  -- The amounts of a withdrawal.
  pub record IsWithdrawParts (e : Entitled) (parts : Parts) : Type 0 where
    pub charged_0 :
        get_transfer_fee t clock.epoch (t.mint w.ledger a.vault_0_mint) parts.amount_0
        ≡ ok parts.fee_0
    pub charged_1 :
        get_transfer_fee t clock.epoch (t.mint w.ledger a.vault_1_mint) parts.amount_1
        ≡ ok parts.fee_1
    pub taken_0 : parts.amount_0 ≡ min e.total_token_0_amount e.token_0_amount
    pub taken_1 : parts.amount_1 ≡ min e.total_token_1_amount e.token_1_amount
    pub fee_0_le : parts.fee_0 ≤ parts.amount_0
    pub fee_1_le : parts.fee_1 ≤ parts.amount_1

  pub withdraw_parts-IsWithdrawParts :
      (e : Entitled) {parts : Parts}
      → withdraw_parts t clock a e w ≡ ok parts
      → IsWithdrawParts e parts
  unfolding withdraw_parts narrow checked_sub
  withdraw_parts-IsWithdrawParts e h = >>=-elim (to_u64 e.token_0_amount) _ h λ n0 e0 h0.
      >>=-elim
        (get_transfer_fee t clock.epoch (t.mint w.ledger a.vault_0_mint)
          (min e.total_token_0_amount n0))
        _ h0
        λ f0 e1 h1. >>=-elim (rest_of (min e.total_token_0_amount n0) f0) _ h1 λ a0 e2 h2.
          >>=-elim (to_u64 e.token_1_amount) _ h2 λ n1 e3 h3.
            >>=-elim
              (get_transfer_fee t clock.epoch (t.mint w.ledger a.vault_1_mint)
                (min e.total_token_1_amount n1))
              _ h3
              λ f1 e4 h4. >>=-elim (rest_of (min e.total_token_1_amount n1) f1) _ h4 λ a1 e5 h5.
                record {
                  charged_0 = ground arith;
                  charged_1 = ground arith;
                  taken_0 = ground arith;
                  taken_1 = ground arith;
                  fee_0_le = ground arith;
                  fee_1_le = ground arith;
                }
    where
      rest_of : ℕ → ℕ → Result ℕ
      rest_of x y = unwrap (checked_sub x y)

  pub record DepositRun (lp maximum_0 maximum_1 : ℕ) (w' : World t) : Type 0 where
    pub worth : Entitled
    pub parts : Parts
    pub paid : t.Ledger
    pub valid : validate_deposit t a w ≡ ok tt
    pub entitles :
        IsEntitled IsCeil PoolStatusBitIndex.deposit lp
          (t.account w.ledger a.token_0_vault).amount
          (t.account w.ledger a.token_1_vault).amount
          w.pool
          worth
    pub amounts : IsDepositParts worth parts
    pub limit_0 : parts.amount_0 ≤ maximum_0
    pub limit_1 : parts.amount_1 ≤ maximum_1
    pub moved : deposit_moves t clock a parts w ≡ ok paid
    pub minted : t.mint_to a.authority a.lp_mint a.owner_lp_token lp paid ≡ some w'.ledger
    pub pool_after :
        w'.pool ≡ record (w.pool) { lp_supply = w.pool.lp_supply + lp; recent_epoch = clock.epoch }

  pub deposit-run :
      (lp maximum_0 maximum_1 : ℕ) {w' : World t} {event : LpChangeEvent}
      → deposit t clock a lp maximum_0 maximum_1 w ≡ ok (w', event)
      → DepositRun lp maximum_0 maximum_1 w'
  unfolding deposit token_mint_to checked_add
  deposit-run lp maximum_0 maximum_1 h = >>=-elim (validate_deposit t a w) _ h λ _ e0 h0.
      >>=-elim (some_lp lp) _ h0 λ _ e1 h1.
        >>=-elim
          (entitled PoolStatusBitIndex.deposit RoundDirection.ceiling lp
            (t.account w.ledger a.token_0_vault).amount (t.account w.ledger a.token_1_vault).amount
            w.pool)
          _ h1
          λ worth e2 h2. >>=-elim (deposit_parts t clock a worth w) _ h2 λ parts e3 h3.
            >>=-elim (within maximum_0 maximum_1 parts) _ h3 λ _ e4 h4.
              >>=-elim (deposit_moves t clock a parts w) _ h4 λ paid e5 h5.
                >>=-elim (new_supply w.pool.lp_supply lp) _ h5 λ supply e6 h6.
                  >>=-elim (token_mint_to t a.authority a.lp_mint a.owner_lp_token lp paid) _ h6
                    λ ledger e7 h7. record {
                      worth = worth;
                      parts = parts;
                      paid = paid;
                      valid = e0;
                      entitles = entitled_ceiling PoolStatusBitIndex.deposit lp _ _ w.pool e2;
                      amounts = deposit_parts-IsDepositParts worth e3;
                      limit_0 = ground arith;
                      limit_1 = ground arith;
                      moved = e5;
                      minted = ground arith;
                      pool_after = ground arith;
                    }
    where
      some_lp : ℕ → Result (Unit {0})
      some_lp n = require (ltb 0 n) (anchor AnchorError.require_gt_violated)

      new_supply : ℕ → ℕ → Result ℕ
      new_supply s n = unwrap (checked_add u64_max s n)

  pub record WithdrawRun (lp minimum_0 minimum_1 : ℕ) (w' : World t) : Type 0 where
    pub worth : Entitled
    pub parts : Parts
    pub valid : validate_withdraw t a w ≡ ok tt
    pub entitles :
        IsEntitled IsFloor PoolStatusBitIndex.withdraw lp
          (t.account w.ledger a.token_0_vault).amount
          (t.account w.ledger a.token_1_vault).amount
          w.pool
          worth
    pub amounts : IsWithdrawParts worth parts
    pub limit_0 : minimum_0 + parts.fee_0 ≤ parts.amount_0
    pub limit_1 : minimum_1 + parts.fee_1 ≤ parts.amount_1
    pub moved : withdraw_moves t clock a lp parts w ≡ ok w'.ledger
    pub supply : w.pool.lp_supply ≡ w'.pool.lp_supply + lp
    pub pool_after :
        w'.pool ≡ record (w.pool) { lp_supply = w.pool.lp_supply - lp; recent_epoch = clock.epoch }

  pub withdraw-run :
      (lp minimum_0 minimum_1 : ℕ) {w' : World t} {event : LpChangeEvent}
      → withdraw t clock a lp minimum_0 minimum_1 w ≡ ok (w', event)
      → WithdrawRun lp minimum_0 minimum_1 w'
  unfolding withdraw checked_sub
  withdraw-run lp minimum_0 minimum_1 h = >>=-elim (validate_withdraw t a w) _ h λ _ e0 h0.
      >>=-elim (some_lp lp) _ h0 λ _ e1 h1. >>=-elim (held lp) _ h1 λ _ e2 h2.
        >>=-elim
          (entitled PoolStatusBitIndex.withdraw RoundDirection.floor lp
            (t.account w.ledger a.token_0_vault).amount (t.account w.ledger a.token_1_vault).amount
            w.pool)
          _ h2
          λ worth e3 h3. >>=-elim (withdraw_parts t clock a worth w) _ h3 λ parts e4 h4.
            >>=-elim (enough minimum_0 minimum_1 parts) _ h4 λ _ e5 h5.
              >>=-elim (new_supply w.pool.lp_supply lp) _ h5 λ supply e6 h6.
                >>=-elim (withdraw_moves t clock a lp parts w) _ h6 λ ledger e7 h7.
                  let amounts = withdraw_parts-IsWithdrawParts worth e4 in
                  record {
                    worth = worth;
                    parts = parts;
                    valid = e0;
                    entitles = entitled_floor PoolStatusBitIndex.withdraw lp _ _ w.pool e3;
                    amounts = amounts;
                    limit_0 = ground arith;
                    limit_1 = ground arith;
                    moved = ground arith;
                    supply = ground arith;
                    pool_after = ground arith;
                  }
    where
      some_lp : ℕ → Result (Unit {0})
      some_lp n = require (ltb 0 n) (anchor AnchorError.require_gt_violated)

      held : ℕ → Result (Unit {0})
      held n =
          require (leb n (t.account w.ledger a.owner_lp_token).amount)
            (anchor AnchorError.require_gte_violated)

      new_supply : ℕ → ℕ → Result ℕ
      new_supply s n = unwrap (checked_sub s n)
