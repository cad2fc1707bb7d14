-- ===== src/Swap/Safety.antt =====
-- A swap that succeeds (programs/cp-swap/src/instructions/swap_base_input.rs, swap_base_output.rs)
-- and the pool and the user that it touches. The hypotheses are those of `Token.Laws` on the token
-- program, a configuration whose fee parts are at most the fee, and that the user's accounts are not
-- the vaults.
mod Trace
mod Amounts
pub use Trace.*
pub use Amounts.*
use mim_swap_sol.Prelude.{ℕ, ◌+◌, ◌*◌, ◌-◌, ◌≤◌, ◌<◌, ◌≡◌, ◌≢◌, ok, arith, sym, ap, ◌∙◌}
use mim_swap_sol.Errors.{Pubkey}
use mim_swap_sol.Curve.Fees.{fee_rate_denominator_value}
use mim_swap_sol.Curve.Calculator.{SwapResult}
use mim_swap_sol.Curve.SwapLaws.{
  IsFairSwap, swap_base_input-IsFairSwap, swap_base_input-fee_parts, swap_base_output-IsFairSwap,
  swap_base_output-fee_parts,
}
use mim_swap_sol.Token.Interface.{TokenProgram}
use mim_swap_sol.Token.Laws.{TransferLaws, Withholds-le, get_transfer_fee-Withholds}
use mim_swap_sol.States.PoolFees.{SwapParams}
use mim_swap_sol.States.PoolLaws.{IsParams, get_swap_params-IsParams}
use mim_swap_sol.States.Config.{AmmConfig}
use mim_swap_sol.Swap.Accounts.{Clock, World, SwapAccounts, SwapEvent}
use mim_swap_sol.Swap.Settle.{Quote, rates_of}
use mim_swap_sol.Swap.SettleLaws.{IsApart, IsSettled, HasMoved, amount, move_tokens-HasMoved}
use mim_swap_sol.Swap.Handlers.{handle_base_input, handle_base_output}
use mim_swap_sol.Swap.Quotes.{
  IsInputQuote, quote_input-IsInputQuote, IsOutputQuote, quote_output-IsOutputQuote,
  get_transfer_inverse_fee-covers,
}

module _ (t : TokenProgram) (laws : TransferLaws t) where
  -- A settled swap whose calculation was fair, when the vault gets at least the calculator's input.
  settled-KeepsProduct :
      (clock : Clock) (a : SwapAccounts) (w w' : World t) (params : SwapParams) (q : Quote)
      (r : SwapResult)
      → q.params ≡ params
      → q.result ≡ r
      → IsParams a.input_vault a.output_vault
          (amount t w.ledger a.input_vault)
          (amount t w.ledger a.output_vault)
          w.pool
          params
      → IsFairSwap params.total_input_token_amount params.total_output_token_amount
          params.is_creator_fee_on_input r
      → r.protocol_fee + r.fund_fee ≤ r.trade_fee
      → IsSettled t clock a q w w'
      → amount t w.ledger a.input_vault + r.input_amount ≤ amount t w'.ledger a.input_vault
      → amount t w.ledger a.output_vault ≡ amount t w'.ledger a.output_vault + r.output_amount
      → KeepsProduct t w w'
  settled-KeepsProduct clock a w w' params q r same_params same_result law fair parts settled gain
        loss =
      let direction = params.trade_direction in
      let charge = rw (same_params, same_result) at settled.charged in
      let c = charge params.is_creator_fee_on_input law.mode in
      let kept =
        product_kept params.total_input_token_amount params.total_output_token_amount _ _ _ _ _ _ _
          _ params.is_creator_fee_on_input r fair parts law.input_total law.output_total gain loss
          c.charged_in c.charged_out in
      by_direction t direction w w' laws c.vault_0_same c.vault_1_same c.lp_supply_same
        (rw (law.input_vault, law.output_vault) at kept)

  module _ (config : AmmConfig) (clock : Clock) (a : SwapAccounts) (w : World t) where
    -- A swap with an exact input that succeeds leaves both vaults covering the fees that the pool
    -- owes, does not lower the product of what the vaults hold beside the fees, and leaves the lp
    -- supply as it was. The token program meets `TransferLaws`, the protocol's and the fund's rates
    -- add up to at most the whole fee, and the user's accounts and the two vaults are apart.
    pub handle_base_input-KeepsProduct :
        (amount_in minimum : ℕ) {w' : World t} {event : SwapEvent}
        → config.protocol_fee_rate + config.fund_fee_rate ≤ fee_rate_denominator_value
        → IsApart a
        → handle_base_input t config clock a amount_in minimum w ≡ ok (w', event)
        → KeepsProduct t w w'
    handle_base_input-KeepsProduct amount_in minimum {w'} bound apart h =
        let run = handle_base_input-run t config clock a amount_in minimum w h in
        let law = get_swap_params-IsParams a.input_vault a.output_vault _ _ w.pool run.parameters in
        let fair =
          swap_base_input-IsFairSwap _ _ _ (rates_of config w.pool)
            run.params.is_creator_fee_on_input run.swapped in
        let parts =
          swap_base_input-fee_parts _ _ _ (rates_of config w.pool)
            run.params.is_creator_fee_on_input bound run.swapped in
        let quote =
          quote_input-IsInputQuote t config clock a amount_in run.transfer_fee minimum run.params
            run.result w run.quoted in
        let moved =
          move_tokens-HasMoved t laws clock a amount_in run.result.output_amount w.ledger apart
            (rw (quote.paid, quote.got) at run.settled.moved) in
        let withheld =
          get_transfer_fee-Withholds t clock.epoch (t.mint w.ledger a.input_token_mint) amount_in
            run.input_fee in
        let gain = moved.input_vault run.transfer_fee withheld in
        let small =
          Withholds-le t laws clock.epoch amount_in (t.mint w.ledger a.input_token_mint) withheld in
        settled-KeepsProduct clock a w w' run.params run.quote run.result quote.params_same
          quote.result_same law fair parts.0 run.settled (omega (arith, quote.charged, parts.1))
          moved.output_vault

    -- A swap with an exact output that succeeds leaves both vaults covering the fees that the pool
    -- owes, does not lower the product of what the vaults hold beside the fees, and leaves the lp
    -- supply as it was. The token program meets `TransferLaws`, the protocol's and the fund's rates
    -- add up to at most the whole fee, and the user's accounts and the two vaults are apart.
    pub handle_base_output-KeepsProduct :
        (maximum received : ℕ) {w' : World t} {event : SwapEvent}
        → config.protocol_fee_rate + config.fund_fee_rate ≤ fee_rate_denominator_value
        → IsApart a
        → handle_base_output t config clock a maximum received w ≡ ok (w', event)
        → KeepsProduct t w w'
    handle_base_output-KeepsProduct maximum received {w'} bound apart h =
        let run = handle_base_output-run t config clock a maximum received w h in
        let law = get_swap_params-IsParams a.input_vault a.output_vault _ _ w.pool run.parameters in
        let fair =
          swap_base_output-IsFairSwap _ _ _ (rates_of config w.pool)
            run.params.is_creator_fee_on_input run.swapped in
        let parts =
          swap_base_output-fee_parts _ _ _ (rates_of config w.pool)
            run.params.is_creator_fee_on_input bound run.swapped in
        let quote =
          quote_output-IsOutputQuote t config clock a maximum (received + run.output_fee)
            run.output_fee run.params run.result w run.quoted in
        let paid = run.result.input_amount + run.quote.input_transfer_fee in
        let moved =
          move_tokens-HasMoved t laws clock a paid (received + run.output_fee) w.ledger apart
            (rw (quote.paid, quote.got) at run.settled.moved) in
        let (withheld, w_in) = moved.input_withheld (λ e. omega (arith, e, quote.positive)) in
        let small =
          get_transfer_inverse_fee-covers t laws clock.epoch run.result.input_amount
            (t.mint w.ledger a.input_token_mint) quote.input_fee w_in in
        settled-KeepsProduct clock a w w' run.params run.quote run.result quote.params_same
          quote.result_same law fair parts.0 run.settled
          (omega (arith, moved.input_vault withheld w_in))
          (omega (arith, moved.output_vault, quote.exact))

    -- A swap with an exact input that succeeds takes exactly that amount from the user, and what
    -- the user receives after the output token's transfer fee is at least the minimum. The token
    -- program meets `TransferLaws`, and the user's two accounts and the two vaults are apart.
    pub handle_base_input-limits :
        (amount_in minimum : ℕ) {w' : World t} {event : SwapEvent}
        → IsApart a
        → a.output_token_account ≢ a.input_token_account
        → handle_base_input t config clock a amount_in minimum w ≡ ok (w', event)
        → (amount t w.ledger a.input_token_account
            ≡ amount t w'.ledger a.input_token_account + amount_in)
          × (amount t w.ledger a.output_token_account + minimum
              ≤ amount t w'.ledger a.output_token_account)
    handle_base_input-limits amount_in minimum {w'} apart differs h =
        let run = handle_base_input-run t config clock a amount_in minimum w h in
        let quote =
          quote_input-IsInputQuote t config clock a amount_in run.transfer_fee minimum run.params
            run.result w run.quoted in
        let moved =
          move_tokens-HasMoved t laws clock a amount_in run.quote.output_transfer_amount w.ledger
            apart (rw quote.paid at run.settled.moved) in
        let withheld =
          get_transfer_fee-Withholds t clock.epoch (t.mint w.ledger a.output_token_mint)
            run.quote.output_transfer_amount quote.output_fee in
        (
          moved.payer (λ e. differs (sym e)),
          omega (arith, moved.receiver run.quote.output_transfer_fee withheld differs, quote.limit),
        )

    -- A swap with an exact output that succeeds takes no more than the maximum from the user, and
    -- the user receives at least the amount asked for, after the output token's transfer fee. The
    -- token program meets `TransferLaws`, and the user's two accounts and the two vaults are apart.
    pub handle_base_output-limits :
        (maximum received : ℕ) {w' : World t} {event : SwapEvent}
        → IsApart a
        → a.output_token_account ≢ a.input_token_account
        → handle_base_output t config clock a maximum received w ≡ ok (w', event)
        → (amount t w.ledger a.input_token_account
            ≤ amount t w'.ledger a.input_token_account + maximum)
          × (amount t w.ledger a.output_token_account + received
              ≤ amount t w'.ledger a.output_token_account)
    handle_base_output-limits maximum received {w'} apart differs h =
        let run = handle_base_output-run t config clock a maximum received w h in
        let quote =
          quote_output-IsOutputQuote t config clock a maximum (received + run.output_fee)
            run.output_fee run.params run.result w run.quoted in
        let moved =
          move_tokens-HasMoved t laws clock a run.quote.input_transfer_amount
            (received + run.output_fee) w.ledger apart (rw quote.got at run.settled.moved) in
        let (withheld, w_out) = moved.output_withheld (λ e. omega (arith, e, run.positive)) in
        let small =
          get_transfer_inverse_fee-covers t laws clock.epoch received
            (t.mint w.ledger a.output_token_mint) run.inverse_fee w_out in
        (
          omega (arith, moved.payer (λ e. differs (sym e)), quote.limit),
          omega (arith, moved.receiver withheld w_out differs),
        )
