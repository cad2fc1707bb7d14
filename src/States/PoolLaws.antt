-- ===== src/States/PoolLaws.antt =====
-- What the pool of programs/cp-swap/src/states/pool.rs owes in fees, and how a swap changes it.
use mim_swap_sol.Prelude.{
  ℕ, ◌+◌, ◌-◌, ◌≤◌, ◌==◌, ◌≡◌, if◌then◌else◌, Bool, true, false, u64_max, checked_add, checked_sub,
  ok, arith, >>=-eq_ok, require, ◌||◌,
}
use mim_swap_sol.Errors.{Pubkey, AnchorError, anchor, Result}
use mim_swap_sol.Curve.ConstantProduct.{TradeDirection}
use mim_swap_sol.States.Pool.{PoolState}
use mim_swap_sol.States.PoolFees.{
  SwapParams, total_fees, vault_amount_without_fee, token_price_x32, is_creator_fee_on_input,
  zero_for_one_params, one_for_zero_params, get_swap_params, add_creator_fee, add_input_fees,
  update_fees,
}

-- What the pool owes of each token.
abbrev pub fees_0 : PoolState → ℕ
fees_0 p = p.protocol_fees_token_0 + p.fund_fees_token_0 + p.creator_fees_token_0

abbrev pub fees_1 : PoolState → ℕ
fees_1 p = p.protocol_fees_token_1 + p.fund_fees_token_1 + p.creator_fees_token_1

-- The vaults cover the fees, which are `u64`.
pub record IsSolvent (vault_0 vault_1 : ℕ) (p : PoolState) : Type 0 where
  pub covers_0 : fees_0 p ≤ vault_0
  pub covers_1 : fees_1 p ≤ vault_1
  pub fits_0 : fees_0 p ≤ u64_max
  pub fits_1 : fees_1 p ≤ u64_max

pub vault_amount_without_fee-eq_ok :
    (vault_0 vault_1 : ℕ) (p : PoolState) {left : ℕ × ℕ}
    → vault_amount_without_fee vault_0 vault_1 p ≡ ok left
    → IsSolvent vault_0 vault_1 p × (vault_0 ≡ left.0 + fees_0 p) × (vault_1 ≡ left.1 + fees_1 p)
unfolding vault_amount_without_fee total_fees checked_add checked_sub
vault_amount_without_fee-eq_ok vault_0 vault_1 p {left} h = ground arith

pub vault_amount_without_fee_of_IsSolvent :
    (vault_0 vault_1 : ℕ) (p : PoolState)
    → IsSolvent vault_0 vault_1 p
    → vault_amount_without_fee vault_0 vault_1 p ≡ ok (vault_0 - fees_0 p, vault_1 - fees_1 p)
unfolding vault_amount_without_fee total_fees checked_add checked_sub
vault_amount_without_fee_of_IsSolvent vault_0 vault_1 p h = ground arith

-- The same by the direction of a swap: of the token that comes in, and of the one that goes out.
abbrev pub fees_in : TradeDirection → PoolState → ℕ
fees_in TradeDirection.zero_for_one p = fees_0 p
fees_in TradeDirection.one_for_zero p = fees_1 p

abbrev pub fees_out : TradeDirection → PoolState → ℕ
fees_out TradeDirection.zero_for_one p = fees_1 p
fees_out TradeDirection.one_for_zero p = fees_0 p

abbrev pub vault_in : TradeDirection → PoolState → Pubkey
vault_in TradeDirection.zero_for_one p = p.token_0_vault
vault_in TradeDirection.one_for_zero p = p.token_1_vault

abbrev pub vault_out : TradeDirection → PoolState → Pubkey
vault_out TradeDirection.zero_for_one p = p.token_1_vault
vault_out TradeDirection.one_for_zero p = p.token_0_vault

-- The fees of a swap are booked: the protocol's and the fund's to the token that came in, the
-- creator's to the side that the mode names. Supply, status and vaults are as before.
pub record HasCharged (protocol fund creator : ℕ) (direction : TradeDirection) (on_input : Bool)
    (p p' : PoolState) : Type 0 where
  pub charged_in :
      fees_in direction p'
      ≡ fees_in direction p + protocol + fund + (if on_input then creator else 0)
  pub charged_out : fees_out direction p' ≡ fees_out direction p + (if on_input then 0 else creator)
  pub lp_supply_same : p'.lp_supply ≡ p.lp_supply
  pub status_same : p'.status ≡ p.status
  pub vault_0_same : p'.token_0_vault ≡ p.token_0_vault
  pub vault_1_same : p'.token_1_vault ≡ p.token_1_vault

add_creator_fee-HasCharged :
    (fee : ℕ) (direction : TradeDirection) (on_input : Bool) (p : PoolState) {p' : PoolState}
    → add_creator_fee fee direction on_input p ≡ ok p'
    → HasCharged 0 0 fee direction on_input p p'
unfolding add_creator_fee checked_add
add_creator_fee-HasCharged fee TradeDirection.zero_for_one true p {p'} h = ground arith
add_creator_fee-HasCharged fee TradeDirection.zero_for_one false p {p'} h = ground arith
add_creator_fee-HasCharged fee TradeDirection.one_for_zero true p {p'} h = ground arith
add_creator_fee-HasCharged fee TradeDirection.one_for_zero false p {p'} h = ground arith

add_input_fees-HasCharged :
    (protocol fund : ℕ) (direction : TradeDirection) (p : PoolState) {p' : PoolState}
    → add_input_fees protocol fund direction p ≡ ok p'
    → HasCharged protocol fund 0 direction true p p' × (p'.creator_fee_on ≡ p.creator_fee_on)
unfolding add_input_fees checked_add
add_input_fees-HasCharged protocol fund TradeDirection.zero_for_one p {p'} h = ground arith
add_input_fees-HasCharged protocol fund TradeDirection.one_for_zero p {p'} h = ground arith

HasCharged-both :
    (protocol fund creator : ℕ) (direction : TradeDirection) (on_input : Bool) {p q r : PoolState}
    → HasCharged protocol fund 0 direction true p q
    → HasCharged 0 0 creator direction on_input q r
    → HasCharged protocol fund creator direction on_input p r
HasCharged-both protocol fund creator TradeDirection.zero_for_one true a b = ground arith
HasCharged-both protocol fund creator TradeDirection.zero_for_one false a b = ground arith
HasCharged-both protocol fund creator TradeDirection.one_for_zero true a b = ground arith
HasCharged-both protocol fund creator TradeDirection.one_for_zero false a b = ground arith

-- `update_fees` charges the protocol's and the fund's fee to the input token, and the creator's fee
-- to the side that the pool's mode names.
pub update_fees-HasCharged :
    (protocol fund creator : ℕ) (direction : TradeDirection) (on_input : Bool) (p : PoolState)
    {p' : PoolState}
    → is_creator_fee_on_input direction p ≡ ok on_input
    → update_fees protocol fund creator direction p ≡ ok p'
    → HasCharged protocol fund creator direction on_input p p'
unfolding update_fees
update_fees-HasCharged protocol fund creator direction on_input p {p'} mode h =
    let checked : Result (Unit {0}) =
      require (p.enable_creator_fee || creator == 0) (anchor AnchorError.require_eq_violated) in
    let (_, _, h0) = >>=-eq_ok checked _ h in
    let (on, e1, h1) = >>=-eq_ok (is_creator_fee_on_input direction p) _ h0 in
    let (q, e2, h2) = >>=-eq_ok (add_input_fees protocol fund direction p) _ h1 in
    let same : on ≡ on_input = ground arith in
    HasCharged-both protocol fund creator direction on_input
      (add_input_fees-HasCharged protocol fund direction p e2).0
      (rw (← same) (add_creator_fee-HasCharged creator direction on q h2))

-- The parameters of a swap: the vaults are the pool's in the direction of the swap, the totals are
-- what they hold beside the fees, and the creator's fee is on the side that the pool's mode names.
pub record IsParams (input_key output_key : Pubkey) (input output : ℕ) (p : PoolState)
    (params : SwapParams) : Type 0 where
  pub input_vault : input_key ≡ vault_in params.trade_direction p
  pub output_vault : output_key ≡ vault_out params.trade_direction p
  pub input_total : input ≡ params.total_input_token_amount + fees_in params.trade_direction p
  pub output_total : output ≡ params.total_output_token_amount + fees_out params.trade_direction p
  pub mode : is_creator_fee_on_input params.trade_direction p ≡ ok params.is_creator_fee_on_input

module _ (input_key output_key : Pubkey) (input output : ℕ) (p : PoolState)
    {params : SwapParams} where
  zero_for_one-IsParams :
      input_key ≡ p.token_0_vault
      → output_key ≡ p.token_1_vault
      → zero_for_one_params input output p ≡ ok params
      → IsParams input_key output_key input output p params
  unfolding zero_for_one_params
  zero_for_one-IsParams k0 k1 h =
      let (net, e0, h0) = >>=-eq_ok (vault_amount_without_fee input output p) _ h in
      let (_, e1, h1) = >>=-eq_ok (token_price_x32 input output p) _ h0 in
      let (on, e2, h2) = >>=-eq_ok (is_creator_fee_on_input TradeDirection.zero_for_one p) _ h1 in
      let law = vault_amount_without_fee-eq_ok input output p {left = net} e0 in ground arith

  one_for_zero-IsParams :
      input_key ≡ p.token_1_vault
      → output_key ≡ p.token_0_vault
      → one_for_zero_params input output p ≡ ok params
      → IsParams input_key output_key input output p params
  unfolding one_for_zero_params
  one_for_zero-IsParams k0 k1 h =
      let (net, e0, h0) = >>=-eq_ok (vault_amount_without_fee output input p) _ h in
      let (_, e1, h1) = >>=-eq_ok (token_price_x32 output input p) _ h0 in
      let (on, e2, h2) = >>=-eq_ok (is_creator_fee_on_input TradeDirection.one_for_zero p) _ h1 in
      let law = vault_amount_without_fee-eq_ok output input p {left = net} e0 in ground arith

  pub get_swap_params-IsParams :
      get_swap_params input_key output_key input output p ≡ ok params
      → IsParams input_key output_key input output p params
  unfolding get_swap_params
  get_swap_params-IsParams h = ground (arith, zero_for_one-IsParams, one_for_zero-IsParams)
