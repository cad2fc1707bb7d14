-- ===== src/Swap/Quotes.antt =====
-- What the amounts of a swap are, once its handler has passed its checks on them
-- (programs/cp-swap/src/instructions/swap_base_input.rs, swap_base_output.rs).
use mim_swap_sol.Prelude.{
  ℕ, ◌+◌, ◌-◌, ◌≤◌, ◌<◌, ◌≡◌, ◌==◌, ltb, some, checked_add, checked_sub, narrow, ok, require, arith,
  Bool-cases, inl, inr, >>=-elim,
}
use mim_swap_sol.Errors.{AnchorError, anchor, Result}
use mim_swap_sol.Curve.Calculator.{SwapResult}
use mim_swap_sol.Token.Interface.{TokenProgram, Mint}
use mim_swap_sol.Token.Calls.{
  get_transfer_fee, get_transfer_inverse_fee, inverse_fee, max_fee_basis_points,
}
use mim_swap_sol.Token.Laws.{Withholds, TransferLaws}
use mim_swap_sol.States.PoolFees.{SwapParams}
use mim_swap_sol.States.Config.{AmmConfig}
use mim_swap_sol.Swap.Accounts.{Clock, World, SwapAccounts}
use mim_swap_sol.Swap.Settle.{Quote, to_u64}
use mim_swap_sol.Swap.Handlers.{quote_input, quote_output}

module _ (t : TokenProgram) (config : AmmConfig) (clock : Clock) (a : SwapAccounts) where
  -- The amounts of a swap with an exact input.
  pub record IsInputQuote (amount_in transfer_fee minimum : ℕ) (params : SwapParams)
      (result : SwapResult) (w : World t) (q : Quote) : Type 0 where
    pub params_same : q.params ≡ params
    pub result_same : q.result ≡ result
    pub paid : q.input_transfer_amount ≡ amount_in
    pub charged : result.input_amount ≡ amount_in - transfer_fee
    pub got : q.output_transfer_amount ≡ result.output_amount
    pub output_fee :
        get_transfer_fee t clock.epoch
          (t.mint w.ledger a.output_token_mint)
          q.output_transfer_amount
        ≡ ok q.output_transfer_fee
    pub positive : q.output_transfer_fee < q.output_transfer_amount
    pub limit : minimum + q.output_transfer_fee ≤ q.output_transfer_amount

  pub quote_input-IsInputQuote :
      (amount_in transfer_fee minimum : ℕ) (params : SwapParams) (result : SwapResult) (w : World t)
      {q : Quote}
      → quote_input t config clock a amount_in transfer_fee minimum params result w ≡ ok q
      → IsInputQuote amount_in transfer_fee minimum params result w q
  unfolding quote_input narrow checked_sub
  quote_input-IsInputQuote amount_in transfer_fee minimum params result w {q} h =
      >>=-elim (to_u64 result.input_amount) _ h λ input e0 h0.
        >>=-elim (same_input input (amount_in - transfer_fee)) _ h0 λ _ e1 h1.
          >>=-elim (to_u64 result.output_amount) _ h1 λ out e2 h2.
            >>=-elim (get_transfer_fee t clock.epoch (t.mint w.ledger a.output_token_mint) out) _ h2
              λ fee e3 h3. record {
                params_same = ground arith;
                result_same = ground arith;
                paid = ground arith;
                charged = ground arith;
                got = ground arith;
                output_fee = ground arith;
                positive = ground arith;
                limit = ground arith;
              }
    where
      same_input : ℕ → ℕ → Result (Unit {0})
      same_input n m = require (n == m) (anchor AnchorError.require_eq_violated)

  -- The amounts of a swap with an exact output.
  pub record IsOutputQuote (maximum amount_out out_fee : ℕ) (params : SwapParams)
      (result : SwapResult) (w : World t) (q : Quote) : Type 0 where
    pub params_same : q.params ≡ params
    pub result_same : q.result ≡ result
    pub input_fee :
        get_transfer_inverse_fee t clock.epoch
          (t.mint w.ledger a.input_token_mint)
          result.input_amount
        ≡ ok q.input_transfer_fee
    pub paid : q.input_transfer_amount ≡ result.input_amount + q.input_transfer_fee
    pub limit : q.input_transfer_amount ≤ maximum
    pub positive : 0 < result.input_amount
    pub got : q.output_transfer_amount ≡ amount_out
    pub exact : result.output_amount ≡ amount_out

  pub quote_output-IsOutputQuote :
      (maximum amount_out out_fee : ℕ) (params : SwapParams) (result : SwapResult) (w : World t)
      {q : Quote}
      → quote_output t config clock a maximum amount_out out_fee params result w ≡ ok q
      → IsOutputQuote maximum amount_out out_fee params result w q
  unfolding quote_output narrow checked_add
  quote_output-IsOutputQuote maximum amount_out out_fee params result w {q} h =
      >>=-elim (to_u64 result.input_amount) _ h λ input e0 h0.
        >>=-elim (some_input input) _ h0 λ _ e1 h1.
          >>=-elim
            (get_transfer_inverse_fee t clock.epoch (t.mint w.ledger a.input_token_mint) input) _ h1
            λ fee e2 h2. record {
              params_same = ground arith;
              result_same = ground arith;
              input_fee = ground arith;
              paid = ground arith;
              limit = ground arith;
              positive = ground arith;
              got = ground arith;
              exact = ground arith;
            }
    where
      some_input : ℕ → Result (Unit {0})
      some_input n = require (ltb 0 n) (anchor AnchorError.require_gt_violated)

module _ (t : TokenProgram) (laws : TransferLaws t) where
  inverse_fee-covers :
      (epoch post : ℕ) (config : t.Config) {fee withheld : ℕ}
      → inverse_fee t epoch post config ≡ ok fee
      → t.calculate_epoch_fee config epoch (post + fee) ≡ some withheld
      → withheld ≤ fee
  unfolding inverse_fee checked_add
  inverse_fee-covers epoch post config {fee} {withheld} h w =
      elim (Bool-cases (t.basis_points config epoch == max_fee_basis_points)) [
        | inl whole ↦ ground (arith, laws.fee_le_maximum config epoch (post + fee) w)
        | inr part ↦ ground arith
      ]

  -- The amount that `get_transfer_inverse_fee` adds is at least what the token program withholds.
  pub get_transfer_inverse_fee-covers :
      (epoch post : ℕ) (m : Mint t.Config) {fee withheld : ℕ}
      → get_transfer_inverse_fee t epoch m post ≡ ok fee
      → Withholds t epoch (post + fee) m withheld
      → withheld ≤ fee
  unfolding get_transfer_inverse_fee
  get_transfer_inverse_fee-covers epoch post m h (Withholds.classic _ e) = omega arith
  get_transfer_inverse_fee-covers epoch post m h (Withholds.unextended _ e) = omega arith
  get_transfer_inverse_fee-covers epoch post m {fee} {withheld} h
        (Withholds.extended config e other w) =
      ground (arith, inverse_fee-covers epoch post config {fee = fee} {withheld = withheld})
