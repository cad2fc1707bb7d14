-- ===== src/Swap/Safety/Amounts.antt =====
-- The numbers of a swap: what remains in the vaults beside the fees.
use mim_swap_sol.Prelude.{ℕ, ◌+◌, ◌*◌, ◌-◌, ◌≤◌, ◌≡◌, ap, if◌then◌else◌, Bool, arith}
use native.Mathlib.Nat.{mul-le-mul, le_trans, mul_comm}
use mim_swap_sol.Curve.ConstantProduct.{TradeDirection}
use mim_swap_sol.Curve.Calculator.{SwapResult}
use mim_swap_sol.Curve.SwapLaws.{IsFairSwap}
use mim_swap_sol.Errors.{Pubkey}
use mim_swap_sol.Token.Interface.{TokenProgram}
use mim_swap_sol.Token.Laws.{TransferLaws}
use mim_swap_sol.States.PoolLaws.{fees_0, fees_1, fees_in, fees_out, vault_in, vault_out, IsSolvent}
use mim_swap_sol.Swap.Accounts.{World}

-- The input vault has grown by at least the calculator's input and the output vault has shrunk by
-- its output; so what the vaults hold beside the fees has a product no smaller than before.
pub product_kept :
    (x y in_before in_after out_before out_after fee_in fee_out fee_in' fee_out' : ℕ)
    (on_input : Bool) (r : SwapResult)
    → IsFairSwap x y on_input r
    → r.protocol_fee + r.fund_fee ≤ r.trade_fee
    → in_before ≡ x + fee_in
    → out_before ≡ y + fee_out
    → in_before + r.input_amount ≤ in_after
    → out_before ≡ out_after + r.output_amount
    → fee_in' ≡ fee_in + r.protocol_fee + r.fund_fee + (if on_input then r.creator_fee else 0)
    → fee_out' ≡ fee_out + (if on_input then 0 else r.creator_fee)
    → (fee_in' ≤ in_after)
      × (fee_out' ≤ out_after)
      × ((in_before - fee_in) * (out_before - fee_out)
          ≤ (in_after - fee_in') * (out_after - fee_out'))
product_kept x y ib ia ob oa fi fo fi' fo' on r fair parts ei eo gi go ci co =
    let new_in : r.new_input_vault_amount ≤ ia - fi' = omega (arith, fair.input_split) in
    let new_out : r.new_output_vault_amount ≤ oa - fo' = omega (arith, fair.output_split) in
    (
      omega (arith, fair.input_split),
      omega (arith, fair.output_split),
      le_trans (rw (net ib x fi ei, net ob y fo eo) fair.product) (mul-le-mul new_in new_out),
    )
  where
    net : (a b c : ℕ) → a ≡ b + c → a - c ≡ b
    net a b c e = omega arith

module _ (t : TokenProgram) where
  -- What a vault of the pool holds.
  abbrev pub vault_0 : World t → ℕ
  vault_0 w = (t.account w.ledger w.pool.token_0_vault).amount

  abbrev pub vault_1 : World t → ℕ
  vault_1 w = (t.account w.ledger w.pool.token_1_vault).amount

  -- What the vaults hold beside the fees: the reserves that the lp tokens stand for.
  abbrev pub reserve_0 : World t → ℕ
  reserve_0 w = vault_0 w - fees_0 w.pool

  abbrev pub reserve_1 : World t → ℕ
  reserve_1 w = vault_1 w - fees_1 w.pool

  -- The fees are covered after the step, and the product of the reserves has not fallen.
  pub record KeepsProduct (w w' : World t) : Type 0 where
    pub solvent : IsSolvent (vault_0 w') (vault_1 w') w'.pool
    pub product : reserve_0 w * reserve_1 w ≤ reserve_0 w' * reserve_1 w'
    pub supply_same : w'.pool.lp_supply ≡ w.pool.lp_supply

  pub by_direction :
      (direction : TradeDirection) (w w' : World t) (laws : TransferLaws t)
      → w'.pool.token_0_vault ≡ w.pool.token_0_vault
      → w'.pool.token_1_vault ≡ w.pool.token_1_vault
      → w'.pool.lp_supply ≡ w.pool.lp_supply
      → (let in_before = (t.account w.ledger (vault_in direction w.pool)).amount in
          let in_after = (t.account w'.ledger (vault_in direction w.pool)).amount in
          let out_before = (t.account w.ledger (vault_out direction w.pool)).amount in
          let out_after = (t.account w'.ledger (vault_out direction w.pool)).amount in
          (fees_in direction w'.pool ≤ in_after)
          × (fees_out direction w'.pool ≤ out_after)
          × ((in_before - fees_in direction w.pool) * (out_before - fees_out direction w.pool)
              ≤ (in_after - fees_in direction w'.pool) * (out_after - fees_out direction w'.pool)))
      → KeepsProduct w w'
  by_direction TradeDirection.zero_for_one w w' laws k0 k1 supply (covers_in, covers_out, product) =
      let same_0 = ap (λ (k : Pubkey). (t.account w'.ledger k).amount) k0 in
      let same_1 = ap (λ (k : Pubkey). (t.account w'.ledger k).amount) k1 in
      let fits_0 = laws.amount_le w'.ledger w'.pool.token_0_vault in
      let fits_1 = laws.amount_le w'.ledger w'.pool.token_1_vault in
      record { solvent = omega arith; product = rw (same_0, same_1) product; supply_same = supply }
  by_direction TradeDirection.one_for_zero w w' laws k0 k1 supply (covers_in, covers_out, product) =
      let same_0 = ap (λ (k : Pubkey). (t.account w'.ledger k).amount) k0 in
      let same_1 = ap (λ (k : Pubkey). (t.account w'.ledger k).amount) k1 in
      let fits_0 = laws.amount_le w'.ledger w'.pool.token_0_vault in
      let fits_1 = laws.amount_le w'.ledger w'.pool.token_1_vault in
      record {
        solvent = omega arith;
        product =
            rw (same_0, same_1)
              (rw (mul_comm (vault_0 w - fees_0 w.pool) (vault_1 w - fees_1 w.pool)) (
                rw
                  (mul_comm ((t.account w'.ledger w.pool.token_0_vault).amount - fees_0 w'.pool)
                    ((t.account w'.ledger w.pool.token_1_vault).amount - fees_1 w'.pool))
                  product));
        supply_same = supply;
      }
