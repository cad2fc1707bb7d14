-- ===== src/Trading.antt =====
-- The pool of programs/cp-swap under any sequence of its instructions, by anybody.
pub mod Value
use mim_swap_sol.Prelude.{ℕ, ◌+◌, ◌-◌, ◌*◌, ◌≤◌, ◌<◌, ◌≡◌, ◌≢◌, ok, refl, ap, arith}
use native.Mathlib.Nat.{
  le_trans, mul-le-mul, mul-le-mul_left, mul-le-mul_right, lt_of_mul-lt-mul_right,
}
use mim_swap_sol.Errors.{Pubkey}
use mim_swap_sol.Curve.Fees.{fee_rate_denominator_value}
use mim_swap_sol.Token.Interface.{TokenProgram}
use mim_swap_sol.Token.Laws.{TransferLaws}
use mim_swap_sol.Token.SupplyLaws.{SupplyLaws}
use mim_swap_sol.States.Pool.{PoolState, set_status}
use mim_swap_sol.States.PoolLaws.{fees_0, fees_1, IsSolvent}
use mim_swap_sol.States.Config.{AmmConfig, TreasuryAddresses}
use mim_swap_sol.Swap.Accounts.{Clock, World, SwapAccounts, SwapEvent}
use mim_swap_sol.Swap.Handlers.{handle_base_input, handle_base_output}
use mim_swap_sol.Swap.SettleLaws.{IsApart, amount}
use mim_swap_sol.Swap.Safety.{
  vault_0, vault_1, reserve_0, reserve_1, KeepsProduct, handle_base_input-KeepsProduct,
  handle_base_output-KeepsProduct,
}
use mim_swap_sol.Liquidity.Accounts.{LpAccounts, LpChangeEvent}
use mim_swap_sol.Liquidity.Handlers.{deposit, withdraw}
use mim_swap_sol.Liquidity.Shares.{IsLpApart, KeepsShare}
use mim_swap_sol.Liquidity.Deposits.{deposit-KeepsShare}
use mim_swap_sol.Liquidity.Withdrawals.{withdraw-KeepsShare}
use mim_swap_sol.FeeCollection.Accounts.{CollectAccounts, TokenPrograms, CreatorPrograms}
use mim_swap_sol.FeeCollection.Handlers.{
  update_pool_status, collect_protocol_fee, collect_fund_fee, collect_creator_fee,
}
use mim_swap_sol.FeeCollection.Payout.{IsCollectApart, KeepsReserves}
use mim_swap_sol.FeeCollection.Safety.{
  collect_protocol_fee-KeepsReserves, collect_fund_fee-KeepsReserves,
  collect_creator_fee-KeepsReserves,
}

-- Fractions by cross multiplication: `a / p ≤ b / q ≤ c / r`.
pub value_trans : (a b c p q r : ℕ) → 0 < q → a * q ≤ b * p → b * r ≤ c * q → a * r ≤ c * p
value_trans a b c p q r some_q first second =
    let left = mul-le-mul_right r first in
    let right = mul-le-mul_right p second in
    let bound : (a * r) * q < (c * p + 1) * q = omega (arith, left, right) in
    omega (arith, lt_of_mul-lt-mul_right q bound)

share_value :
    (x y x' y' s s' : ℕ)
    → x * s' ≤ x' * s
    → y * s' ≤ y' * s
    → (x * y) * (s' * s') ≤ (x' * y') * (s * s)
share_value x y x' y' s s' share_0 share_1 = omega (arith, mul-le-mul share_0 share_1)

module _ (t : TokenProgram) where
  -- Something outside the program: the vaults, which only the program's authority can take from, may
  -- be paid into.
  pub record SparesVaults (w : World t) (l' : t.Ledger) : Type 0 where
    pub vault_0_le : vault_0 t w ≤ amount t l' w.pool.token_0_vault
    pub vault_1_le : vault_1 t w ≤ amount t l' w.pool.token_1_vault

  -- One step: an instruction that succeeds, at any time, on accounts that are no vaults. The
  -- configuration's parts of the fee are at most the fee. A withdrawal leaves some supply, as the lp
  -- tokens that the pool's creation locks belong to nobody.
  pub data Step : World t → World t → Type 0 where
    swaps_input :
        (config : AmmConfig) (clock : Clock) (a : SwapAccounts) (amount_in minimum : ℕ)
        (event : SwapEvent) {w w' : World t}
        → config.protocol_fee_rate + config.fund_fee_rate ≤ fee_rate_denominator_value
        → IsApart a
        → handle_base_input t config clock a amount_in minimum w ≡ ok (w', event)
        → Step w w'
    swaps_output :
        (config : AmmConfig) (clock : Clock) (a : SwapAccounts) (maximum received : ℕ)
        (event : SwapEvent) {w w' : World t}
        → config.protocol_fee_rate + config.fund_fee_rate ≤ fee_rate_denominator_value
        → IsApart a
        → handle_base_output t config clock a maximum received w ≡ ok (w', event)
        → Step w w'
    deposits :
        (clock : Clock) (a : LpAccounts) (lp maximum_0 maximum_1 : ℕ) (event : LpChangeEvent)
        {w w' : World t}
        → IsLpApart a
        → deposit t clock a lp maximum_0 maximum_1 w ≡ ok (w', event)
        → Step w w'
    withdraws :
        (clock : Clock) (a : LpAccounts) (lp minimum_0 minimum_1 : ℕ) (event : LpChangeEvent)
        {w w' : World t}
        → IsLpApart a
        → withdraw t clock a lp minimum_0 minimum_1 w ≡ ok (w', event)
        → 0 < w'.pool.lp_supply
        → Step w w'
    collects_protocol :
        (derive : TreasuryAddresses) (config : AmmConfig) (clock : Clock) (a : CollectAccounts)
        (p : TokenPrograms) (requested_0 requested_1 : ℕ) {w w' : World t}
        → IsCollectApart a
        → collect_protocol_fee t clock derive config a p requested_0 requested_1 w ≡ ok w'
        → Step w w'
    collects_fund :
        (derive : TreasuryAddresses) (config : AmmConfig) (clock : Clock) (a : CollectAccounts)
        (p : TokenPrograms) (requested_0 requested_1 : ℕ) {w w' : World t}
        → IsCollectApart a
        → collect_fund_fee t clock derive config a p requested_0 requested_1 w ≡ ok w'
        → Step w w'
    collects_creator :
        (clock : Clock) (creator : Pubkey) (a : CollectAccounts) (p : CreatorPrograms)
        {w w' : World t}
        → IsCollectApart a
        → collect_creator_fee t clock creator a p w ≡ ok w'
        → Step w w'
    sets_status :
        (admin authority : Pubkey) (epoch status : ℕ) (pool : PoolState) {w : World t}
        → update_pool_status admin authority epoch status w.pool ≡ ok pool
        → Step w (record w { pool = pool })
    elsewhere :
        (l' : t.Ledger) {w : World t} → SparesVaults w l' → Step w (record w { ledger = l' })

  pub data Reach : World t → World t → Type 0 where
    here : {w : World t} → Reach w w
    later : {w v w' : World t} → Step w v → Reach v w' → Reach w w'

  -- The fees stay covered, some lp supply stays, and what the square of one lp token stands for in
  -- the product of the reserves does not fall: as fractions, cross multiplied.
  pub record KeepsValue (w w' : World t) : Type 0 where
    pub solvent : IsSolvent (vault_0 t w') (vault_1 t w') w'.pool
    pub live : 0 < w'.pool.lp_supply
    pub value :
        (reserve_0 t w * reserve_1 t w) * (w'.pool.lp_supply * w'.pool.lp_supply)
        ≤ (reserve_0 t w' * reserve_1 t w') * (w.pool.lp_supply * w.pool.lp_supply)

  pub KeepsProduct-KeepsValue :
      (w w' : World t) → 0 < w.pool.lp_supply → KeepsProduct t w w' → KeepsValue w w'
  KeepsProduct-KeepsValue w w' live kept = record {
    solvent = kept.solvent;
    live = rw kept.supply_same live;
    value = rw kept.supply_same (mul-le-mul_right _ kept.product);
  }

  pub KeepsShare-KeepsValue :
      (w w' : World t) → 0 < w'.pool.lp_supply → KeepsShare t w w' → KeepsValue w w'
  KeepsShare-KeepsValue w w' live kept = record {
    solvent = kept.solvent;
    live = live;
    value =
        share_value (reserve_0 t w) (reserve_1 t w) (reserve_0 t w') (reserve_1 t w')
          w.pool.lp_supply w'.pool.lp_supply kept.share_0 kept.share_1;
  }

  pub KeepsReserves-KeepsValue :
      (w w' : World t) → 0 < w.pool.lp_supply → KeepsReserves t w w' → KeepsValue w w'
  KeepsReserves-KeepsValue w w' live kept = record {
    solvent = kept.solvent;
    live = rw kept.supply_same live;
    value = rw (kept.supply_same, kept.reserve_0_same, kept.reserve_1_same) (le_refl _);
  }
    where
      le_refl : (n : ℕ) → n ≤ n
      le_refl n = omega arith

  pub update_pool_status-same :
      (admin authority : Pubkey) (epoch status : ℕ) (p : PoolState) {pool : PoolState}
      → update_pool_status admin authority epoch status p ≡ ok pool
      → pool ≡ record p { status = status; recent_epoch = epoch }
  unfolding update_pool_status set_status
  update_pool_status-same admin authority epoch status p {pool} h = ground arith

  pub SparesVaults-KeepsValue :
      (w : World t) (l' : t.Ledger)
      → IsSolvent (vault_0 t w) (vault_1 t w) w.pool
      → 0 < w.pool.lp_supply
      → SparesVaults w l'
      → KeepsValue w (record w { ledger = l' })
  SparesVaults-KeepsValue w l' solvent live spares =
      let more_0 : reserve_0 t w ≤ amount t l' w.pool.token_0_vault - fees_0 w.pool =
        omega (arith, spares.vault_0_le) in
      let more_1 : reserve_1 t w ≤ amount t l' w.pool.token_1_vault - fees_1 w.pool =
        omega (arith, spares.vault_1_le) in
      record {
        solvent = record {
          covers_0 = omega (arith, solvent.covers_0, spares.vault_0_le);
          covers_1 = omega (arith, solvent.covers_1, spares.vault_1_le);
          fits_0 = solvent.fits_0;
          fits_1 = solvent.fits_1;
        };
        live = live;
        value = mul-le-mul_right _ (mul-le-mul more_0 more_1);
      }
