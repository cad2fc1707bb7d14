-- ===== src/Swap/Safety/Trace.antt =====
-- The intermediate values of a swap instruction that succeeds.
use mim_swap_sol.Prelude.{
  ℕ, ◌+◌, ◌-◌, ◌<◌, ◌≡◌, ltb, u64_max, u128_max, checked_add, checked_mul, Outcome, ok, err, panic,
  unwrap, none_to, require, arith, >>=-elim,
}
use mim_swap_sol.Errors.{Error, ErrorCode, AnchorError, code, anchor, Result}
use mim_swap_sol.Curve.Calculator.{SwapResult, swap_base_input, swap_base_output}
use mim_swap_sol.Token.Interface.{TokenProgram}
use mim_swap_sol.Token.Calls.{get_transfer_fee, get_transfer_inverse_fee}
use mim_swap_sol.States.PoolFees.{SwapParams}
use mim_swap_sol.States.Config.{AmmConfig}
use mim_swap_sol.Swap.Accounts.{Clock, World, SwapAccounts, SwapEvent, validate_swap}
use mim_swap_sol.Swap.Settle.{Quote, check_open, rates_of, params_of}
use mim_swap_sol.Swap.SettleLaws.{IsSettled, settle-IsSettled}
use mim_swap_sol.Swap.Handlers.{quote_input, handle_base_input, quote_output, handle_base_output}

abbrev positive_amount : ℕ → Result (Unit {0})
positive_amount n = require (ltb 0 n) (anchor AnchorError.require_gt_violated)

abbrev product_of : ℕ → ℕ → Result ℕ
product_of a b = unwrap (checked_mul u128_max a b)

abbrev sum_of : ℕ → ℕ → Result ℕ
sum_of a b = unwrap (checked_add u64_max a b)

sum_of-eq : (a b : ℕ) {c : ℕ} → sum_of a b ≡ ok c → c ≡ a + b
unfolding checked_add
sum_of-eq a b {c} h = ground arith

none_to-eq_ok :
    {A : Type 0} (m : Outcome (Unit {0}) A) (e : Error) {a : A} → none_to m e ≡ ok a → m ≡ ok a
none_to-eq_ok (ok a) e h = ground arith
none_to-eq_ok (err x) e h = cc
none_to-eq_ok panic e h = cc

module _ (t : TokenProgram) (config : AmmConfig) where
  pub record InputRun (clock : Clock) (a : SwapAccounts) (amount_in minimum : ℕ) (w w' : World t)
      : Type 0 where
    pub params : SwapParams
    pub result : SwapResult
    pub quote : Quote
    pub transfer_fee : ℕ
    pub valid : validate_swap t a w ≡ ok tt
    pub opened : check_open clock w.pool ≡ ok tt
    pub input_fee :
        get_transfer_fee t clock.epoch (t.mint w.ledger a.input_token_mint) amount_in
        ≡ ok transfer_fee
    pub positive : 0 < amount_in - transfer_fee
    pub parameters : params_of t a w ≡ ok params
    pub swapped :
        swap_base_input
          (amount_in - transfer_fee)
          params.total_input_token_amount
          params.total_output_token_amount
          (rates_of config w.pool)
          params.is_creator_fee_on_input
        ≡ ok result
    pub quoted :
        quote_input t config clock a amount_in transfer_fee minimum params result w ≡ ok quote
    pub settled : IsSettled t clock a quote w w'

  pub handle_base_input-run :
      (clock : Clock) (a : SwapAccounts) (amount_in minimum : ℕ) (w : World t) {w' : World t}
      {event : SwapEvent}
      → handle_base_input t config clock a amount_in minimum w ≡ ok (w', event)
      → InputRun clock a amount_in minimum w w'
  unfolding handle_base_input
  handle_base_input-run clock a amount_in minimum w {w'} {event} h =
      >>=-elim (validate_swap t a w) _ h λ _ e0 h0.
        >>=-elim (check_open clock w.pool) _ h0 λ _ e1 h1.
          >>=-elim (get_transfer_fee t clock.epoch (t.mint w.ledger a.input_token_mint) amount_in) _
            h1
            λ transfer_fee e2 h2.
              >>=-elim (positive_amount (amount_in - transfer_fee)) _ h2 λ _ e3 h3.
                >>=-elim (params_of t a w) _ h3 λ params e4 h4.
                  >>=-elim
                    (product_of params.total_input_token_amount params.total_output_token_amount) _
                    h4
                    λ before e5 h5.
                      >>=-elim
                        (none_to
                          (swap_base_input (amount_in - transfer_fee)
                            params.total_input_token_amount params.total_output_token_amount
                            (rates_of config w.pool) params.is_creator_fee_on_input)
                          (code ErrorCode.zero_trading_tokens))
                        _ h5
                        λ result e6 h6.
                          >>=-elim
                            (product_of result.new_input_vault_amount
                              result.new_output_vault_amount)
                            _ h6
                            λ after e7 h7.
                              >>=-elim
                                (quote_input t config clock a amount_in transfer_fee minimum params
                                  result w)
                                _ h7
                                λ quote e8 h8. record {
                                  params = params;
                                  result = result;
                                  quote = quote;
                                  transfer_fee = transfer_fee;
                                  valid = e0;
                                  opened = e1;
                                  input_fee = e2;
                                  positive = ground arith;
                                  parameters = e4;
                                  swapped = none_to-eq_ok _ _ e6;
                                  quoted = e8;
                                  settled = (settle-IsSettled t clock a quote before after w h8).0;
                                }

  pub record OutputRun (clock : Clock) (a : SwapAccounts) (maximum received : ℕ) (w w' : World t)
      : Type 0 where
    pub params : SwapParams
    pub result : SwapResult
    pub quote : Quote
    pub output_fee : ℕ
    pub valid : validate_swap t a w ≡ ok tt
    pub opened : check_open clock w.pool ≡ ok tt
    pub positive : 0 < received
    pub inverse_fee :
        get_transfer_inverse_fee t clock.epoch (t.mint w.ledger a.output_token_mint) received
        ≡ ok output_fee
    pub parameters : params_of t a w ≡ ok params
    pub swapped :
        swap_base_output
          (received + output_fee)
          params.total_input_token_amount
          params.total_output_token_amount
          (rates_of config w.pool)
          params.is_creator_fee_on_input
        ≡ ok result
    pub quoted :
        quote_output t config clock a maximum (received + output_fee) output_fee params result w
        ≡ ok quote
    pub settled : IsSettled t clock a quote w w'

  pub handle_base_output-run :
      (clock : Clock) (a : SwapAccounts) (maximum received : ℕ) (w : World t) {w' : World t}
      {event : SwapEvent}
      → handle_base_output t config clock a maximum received w ≡ ok (w', event)
      → OutputRun clock a maximum received w w'
  unfolding handle_base_output checked_add
  handle_base_output-run clock a maximum received w {w'} {event} h =
      >>=-elim (validate_swap t a w) _ h λ _ e0 h0.
        >>=-elim (positive_amount received) _ h0 λ _ e1 h1.
          >>=-elim (check_open clock w.pool) _ h1 λ _ e2 h2.
            >>=-elim
              (get_transfer_inverse_fee t clock.epoch (t.mint w.ledger a.output_token_mint)
                received)
              _ h2
              λ output_fee e3 h3. >>=-elim (sum_of received output_fee) _ h3 λ amount_out e4 h4.
                let sum = sum_of-eq received output_fee e4 in
                >>=-elim (params_of t a w) _ h4 λ params e5 h5.
                  >>=-elim
                    (product_of params.total_input_token_amount params.total_output_token_amount) _
                    h5
                    λ before e6 h6.
                      >>=-elim
                        (none_to
                          (swap_base_output amount_out params.total_input_token_amount
                            params.total_output_token_amount (rates_of config w.pool)
                            params.is_creator_fee_on_input)
                          (code ErrorCode.zero_trading_tokens))
                        _ h6
                        λ result e7 h7.
                          >>=-elim
                            (product_of result.new_input_vault_amount
                              result.new_output_vault_amount)
                            _ h7
                            λ after e8 h8.
                              >>=-elim
                                (quote_output t config clock a maximum amount_out output_fee params
                                  result w)
                                _ h8
                                λ quote e9 h9. record {
                                  params = params;
                                  result = result;
                                  quote = quote;
                                  output_fee = output_fee;
                                  valid = e0;
                                  opened = e2;
                                  positive = ground arith;
                                  inverse_fee = e3;
                                  parameters = e5;
                                  swapped = rw (← sum) (none_to-eq_ok _ _ e7);
                                  quoted = rw (← sum) e9;
                                  settled = (settle-IsSettled t clock a quote before after w h9).0;
                                }
