-- ===== src/Trading/Value.antt =====
-- What a lp token stands for, over any sequence of the swap program's instructions.
use mim_swap_sol.Prelude.{ℕ, ◌*◌, ◌<◌, arith}
use native.Mathlib.Nat.{mul-le-mul}
use mim_swap_sol.Token.Interface.{TokenProgram}
use mim_swap_sol.Token.Laws.{TransferLaws}
use mim_swap_sol.Token.SupplyLaws.{SupplyLaws}
use mim_swap_sol.States.PoolLaws.{IsSolvent}
use mim_swap_sol.Swap.Accounts.{World}
use mim_swap_sol.Swap.Safety.{
  vault_0, vault_1, reserve_0, reserve_1, handle_base_input-KeepsProduct,
  handle_base_output-KeepsProduct,
}
use mim_swap_sol.Liquidity.Deposits.{deposit-KeepsShare, deposit-exact}
use mim_swap_sol.Liquidity.Withdrawals.{withdraw-KeepsShare}
use mim_swap_sol.FeeCollection.Safety.{
  collect_protocol_fee-reserves, collect_fund_fee-reserves, collect_creator_fee-KeepsReserves,
}
use mim_swap_sol.Trading.{
  value_trans, Step, Reach, KeepsValue, KeepsProduct-KeepsValue, KeepsShare-KeepsValue,
  KeepsReserves-KeepsValue, update_pool_status-same, SparesVaults-KeepsValue,
}

module _ (t : TokenProgram) (laws : TransferLaws t) (supplies : SupplyLaws t) where
  same_value :
      (w : World t)
      → IsSolvent (vault_0 t w) (vault_1 t w) w.pool
      → 0 < w.pool.lp_supply
      → KeepsValue t w w
  same_value w solvent live = record { solvent = solvent; live = live; value = omega arith }

  pub Step-KeepsValue :
      {w w' : World t}
      → Step t w w'
      → IsSolvent (vault_0 t w) (vault_1 t w) w.pool
      → 0 < w.pool.lp_supply
      → KeepsValue t w w'
  Step-KeepsValue {w} {w'} (Step.swaps_input config clock a amount_in minimum event bound apart h)
        solvent live =
      KeepsProduct-KeepsValue t w w' live
        (handle_base_input-KeepsProduct t laws config clock a w amount_in minimum bound apart h)
  Step-KeepsValue {w} {w'} (Step.swaps_output config clock a maximum received event bound apart h)
        solvent live =
      KeepsProduct-KeepsValue t w w' live
        (handle_base_output-KeepsProduct t laws config clock a w maximum received bound apart h)
  Step-KeepsValue {w} {w'} (Step.deposits clock a lp maximum_0 maximum_1 event apart h) solvent
        live =
      let exact =
        deposit-exact t laws supplies clock a w lp maximum_0 maximum_1 {w' = w'} apart h in
      KeepsShare-KeepsValue t w w' (omega (arith, exact.3))
        (deposit-KeepsShare t laws supplies clock a w lp maximum_0 maximum_1 apart h)
  Step-KeepsValue {w} {w'} (Step.withdraws clock a lp minimum_0 minimum_1 event apart h rest)
        solvent live =
      KeepsShare-KeepsValue t w w' rest
        (withdraw-KeepsShare t laws supplies clock a w lp minimum_0 minimum_1 apart h)
  Step-KeepsValue {w} {w'}
        (Step.collects_protocol derive config clock a p requested_0 requested_1 apart h) solvent
        live =
      KeepsReserves-KeepsValue t w w' live
        (collect_protocol_fee-reserves t clock a w laws derive config p requested_0 requested_1
          apart solvent h).0
  Step-KeepsValue {w} {w'}
        (Step.collects_fund derive config clock a p requested_0 requested_1 apart h) solvent live =
      KeepsReserves-KeepsValue t w w' live
        (collect_fund_fee-reserves t clock a w laws derive config p requested_0 requested_1 apart
          solvent h).0
  Step-KeepsValue {w} {w'} (Step.collects_creator clock creator a p apart h) solvent live =
      KeepsReserves-KeepsValue t w w' live
        (collect_creator_fee-KeepsReserves t clock a w laws creator p apart solvent h).0
  Step-KeepsValue {w} (Step.sets_status admin authority epoch status pool h) solvent live =
      rw (update_pool_status-same t admin authority epoch status w.pool {pool = pool} h) (record {
        solvent = record {
          covers_0 = solvent.covers_0;
          covers_1 = solvent.covers_1;
          fits_0 = solvent.fits_0;
          fits_1 = solvent.fits_1;
        };
        live = live;
        value = omega arith;
      })
  Step-KeepsValue {w} (Step.elsewhere l' spares) solvent live =
      SparesVaults-KeepsValue t w l' solvent live spares

  -- Over any sequence of swaps, deposits, withdrawals, collections of fees and changes of status, and
  -- whatever is paid into the vaults, the vaults keep covering the fees that the pool owes, and the
  -- product of the reserves that stands behind the square of one lp token does not fall. The pool was
  -- solvent and had some lp supply at the start, and no withdrawal takes all of the supply. The token
  -- program meets `TransferLaws` and `SupplyLaws`, each swap's configuration has protocol and fund
  -- rates of at most the whole fee together, users' accounts are no vaults, and nothing outside the
  -- program takes from the vaults.
  pub Reach-KeepsValue :
      {w w' : World t}
      → Reach t w w'
      → IsSolvent (vault_0 t w) (vault_1 t w) w.pool
      → 0 < w.pool.lp_supply
      → KeepsValue t w w'
  Reach-KeepsValue {w} Reach.here solvent live = same_value w solvent live
  Reach-KeepsValue {w} {w'} (Reach.later {v = v} step rest) solvent live =
      let first = Step-KeepsValue step solvent live in
      let later = Reach-KeepsValue rest first.solvent first.live in
      record {
        solvent = later.solvent;
        live = later.live;
        value =
            value_trans (reserve_0 t w * reserve_1 t w) (reserve_0 t v * reserve_1 t v)
              (reserve_0 t w' * reserve_1 t w') (w.pool.lp_supply * w.pool.lp_supply)
              (v.pool.lp_supply * v.pool.lp_supply) (w'.pool.lp_supply * w'.pool.lp_supply)
              (mul-lt-mul first.live) first.value later.value;
      }
    where
      mul-lt-mul : {n : ℕ} → 0 < n → 0 < n * n
      mul-lt-mul {n} pos = mul-le-mul pos pos
