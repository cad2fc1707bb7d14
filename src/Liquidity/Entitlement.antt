-- ===== src/Liquidity/Entitlement.antt =====
-- What lp tokens are worth in a deposit and a withdrawal
-- (programs/cp-swap/src/instructions/deposit.rs, withdraw.rs).
use mim_swap_sol.Prelude.{
  ℕ, ◌+◌, ◌*◌, ◌<◌, ◌≡◌, ◌==◌, ◌||◌, not, true, ok, ok_or, require, arith, >>=-elim,
}
use mim_swap_sol.Errors.{ErrorCode, code, Result}
use mim_swap_sol.Curve.FeeLaws.{IsCeil, IsFloor}
use mim_swap_sol.Curve.ConstantProduct.{
  RoundDirection, TradingTokenResult, lp_tokens_to_trading_tokens,
}
use mim_swap_sol.Curve.ShareLaws.{floor-SharesBy, ceiling-SharesBy}
use mim_swap_sol.States.Pool.{PoolState, PoolStatusBitIndex, get_status_by_bit}
use mim_swap_sol.States.PoolFees.{vault_amount_without_fee}
use mim_swap_sol.States.PoolLaws.{fees_0, fees_1, IsSolvent, vault_amount_without_fee-eq_ok}
use mim_swap_sol.Liquidity.Handlers.{Entitled, entitled}

-- What the lp tokens are worth, each amount rounded by `Rounded`.
pub record IsEntitled (Rounded : ℕ → ℕ → ℕ → Type 0) (bit : PoolStatusBitIndex)
    (lp vault_0 vault_1 : ℕ) (p : PoolState) (e : Entitled) : Type 0 where
  pub enabled : get_status_by_bit bit p ≡ true
  pub solvent : IsSolvent vault_0 vault_1 p
  pub total_0 : vault_0 ≡ e.total_token_0_amount + fees_0 p
  pub total_1 : vault_1 ≡ e.total_token_1_amount + fees_1 p
  pub share_0 : Rounded (lp * e.total_token_0_amount) p.lp_supply e.token_0_amount
  pub share_1 : Rounded (lp * e.total_token_1_amount) p.lp_supply e.token_1_amount
  pub positive_0 : 0 < e.token_0_amount
  pub positive_1 : 0 < e.token_1_amount

abbrev some_shares : TradingTokenResult → Result (Unit {0})
some_shares r =
    require (not (r.token_0_amount == 0 || r.token_1_amount == 0))
      (code ErrorCode.zero_trading_tokens)

module _ (bit : PoolStatusBitIndex) (lp vault_0 vault_1 : ℕ) (p : PoolState) {e : Entitled} where
  pub entitled_ceiling :
      entitled bit RoundDirection.ceiling lp vault_0 vault_1 p ≡ ok e
      → IsEntitled IsCeil bit lp vault_0 vault_1 p e
  unfolding entitled
  entitled_ceiling h =
      >>=-elim (require (get_status_by_bit bit p) (code ErrorCode.not_approved)) _ h λ _ e0 h0.
        >>=-elim (vault_amount_without_fee vault_0 vault_1 p) _ h0 λ totals e1 h1.
          >>=-elim
            (ok_or
              (lp_tokens_to_trading_tokens lp p.lp_supply totals.0 totals.1 RoundDirection.ceiling)
              (code ErrorCode.zero_trading_tokens))
            _ h1
            λ r e2 h2. >>=-elim (some_shares r) _ h2 λ _ e3 h3.
              let law = vault_amount_without_fee-eq_ok vault_0 vault_1 p e1 in
              let shares =
                ceiling-SharesBy lp p.lp_supply totals.0 totals.1 {r = r} (ground arith)
                  (ground arith) (ground arith) in
              record {
                enabled = ground arith;
                solvent = law.0;
                total_0 = ground arith;
                total_1 = ground arith;
                share_0 = ground arith;
                share_1 = ground arith;
                positive_0 = ground arith;
                positive_1 = ground arith;
              }

  pub entitled_floor :
      entitled bit RoundDirection.floor lp vault_0 vault_1 p ≡ ok e
      → IsEntitled IsFloor bit lp vault_0 vault_1 p e
  unfolding entitled
  entitled_floor h =
      >>=-elim (require (get_status_by_bit bit p) (code ErrorCode.not_approved)) _ h λ _ e0 h0.
        >>=-elim (vault_amount_without_fee vault_0 vault_1 p) _ h0 λ totals e1 h1.
          >>=-elim
            (ok_or
              (lp_tokens_to_trading_tokens lp p.lp_supply totals.0 totals.1 RoundDirection.floor)
              (code ErrorCode.zero_trading_tokens))
            _ h1
            λ r e2 h2. >>=-elim (some_shares r) _ h2 λ _ e3 h3.
              let law = vault_amount_without_fee-eq_ok vault_0 vault_1 p e1 in
              let shares = floor-SharesBy lp p.lp_supply totals.0 totals.1 {r = r} (ground arith) in
              record {
                enabled = ground arith;
                solvent = law.0;
                total_0 = ground arith;
                total_1 = ground arith;
                share_0 = ground arith;
                share_1 = ground arith;
                positive_0 = ground arith;
                positive_1 = ground arith;
              }
