-- ===== src/Swap/SettleLaws.antt =====
-- What the common end of the swap handlers (`Swap.Settle`) does to the pool and the ledger.
use mim_swap_sol.Prelude.{
  ℕ, ◌+◌, ◌≤◌, ◌≡◌, ◌≢◌, ◌∙◌, sym, ap, leb, Bool, narrow, ok, require, arith, >>=-elim,
}
use mim_swap_sol.Errors.{Pubkey, AnchorError, anchor, Result}
use mim_swap_sol.Curve.ConstantProduct.{TradeDirection}
use mim_swap_sol.Token.Interface.{TokenProgram, TokenAccount}
use mim_swap_sol.Token.Calls.{transfer_from_user_to_pool_vault, transfer_from_pool_vault_to_user}
use mim_swap_sol.Token.Laws.{Withholds, TransferLaws, transfer-Moves}
use mim_swap_sol.States.Pool.{PoolState}
use mim_swap_sol.States.PoolFees.{is_creator_fee_on_input, update_fees}
use mim_swap_sol.States.PoolLaws.{HasCharged, update_fees-HasCharged}
use mim_swap_sol.States.Oracle.{update}
use mim_swap_sol.Swap.Accounts.{Clock, World, SwapAccounts, SwapEvent}
use mim_swap_sol.Swap.Settle.{
  Quote, to_u64, input_transfer, output_transfer, move_tokens, swap_event, settle,
}

abbrev no_loss : ℕ → ℕ → Result (Unit {0})
no_loss before after = require (leb before after) (anchor AnchorError.require_gte_violated)

to_u64-eq : (n : ℕ) {m : ℕ} → to_u64 n ≡ ok m → m ≡ n
unfolding narrow
to_u64-eq n {m} h = ground arith

booked :
    (protocol fund creator : ℕ) (direction : TradeDirection) (on_input : Bool) (epoch : ℕ)
    (p : PoolState) {q p' : PoolState}
    → is_creator_fee_on_input direction p ≡ ok on_input
    → update_fees protocol fund creator direction p ≡ ok q
    → record q { recent_epoch = epoch } ≡ p'
    → HasCharged protocol fund creator direction on_input p p'
booked protocol fund creator TradeDirection.zero_for_one on_input epoch p mode h e =
    let c =
      update_fees-HasCharged protocol fund creator TradeDirection.zero_for_one on_input p mode h in
    ground arith
booked protocol fund creator TradeDirection.one_for_zero on_input epoch p mode h e =
    let c =
      update_fees-HasCharged protocol fund creator TradeDirection.one_for_zero on_input p mode h in
    ground arith

-- The user's accounts are not the vaults, and the vaults are two.
pub record IsApart (a : SwapAccounts) : Type 0 where
  pub vaults : a.input_vault ≢ a.output_vault
  pub payer_in : a.input_token_account ≢ a.input_vault
  pub payer_out : a.input_token_account ≢ a.output_vault
  pub receiver_in : a.output_token_account ≢ a.input_vault
  pub receiver_out : a.output_token_account ≢ a.output_vault

module _ (t : TokenProgram) where
  abbrev pub amount : t.Ledger → Pubkey → ℕ
  amount l k = (t.account l k).amount

  -- What a swap that was settled has done, beside the oracle.
  pub record IsSettled (clock : Clock) (a : SwapAccounts) (q : Quote) (w w' : World t)
      : Type 0 where
    pub charged :
        (on_input : Bool)
        → is_creator_fee_on_input q.params.trade_direction w.pool ≡ ok on_input
        → HasCharged q.result.protocol_fee q.result.fund_fee q.result.creator_fee
            q.params.trade_direction on_input w.pool w'.pool
    pub moved :
        move_tokens t clock a q.input_transfer_amount q.output_transfer_amount w.ledger
        ≡ ok w'.ledger

  pub settle-IsSettled :
      (clock : Clock) (a : SwapAccounts) (q : Quote) (before after : ℕ) (w : World t) {w' : World t}
      {event : SwapEvent}
      → settle t clock a q before after w ≡ ok (w', event)
      → IsSettled clock a q w w' × (before ≤ after)
  unfolding settle narrow
  settle-IsSettled clock a q before after w {w'} {event} h =
      >>=-elim (to_u64 q.result.protocol_fee) _ h λ protocol e0 h0.
        >>=-elim (to_u64 q.result.fund_fee) _ h0 λ fund e1 h1.
          >>=-elim (to_u64 q.result.creator_fee) _ h1 λ creator e2 h2.
            >>=-elim (update_fees protocol fund creator q.params.trade_direction w.pool) _ h2
              λ pool e3 h3. >>=-elim (swap_event a q) _ h3 λ emitted e4 h4.
                >>=-elim (no_loss before after) _ h4 λ _ e5 h5.
                  >>=-elim
                    (move_tokens t clock a q.input_transfer_amount q.output_transfer_amount
                      w.ledger)
                    _ h5
                    λ ledger e6 h6.
                      >>=-elim
                        (update clock.unix_timestamp q.params.token_0_price_x64
                          q.params.token_1_price_x64 w.observation)
                        _ h6
                        λ observation e7 h7. (
                          record {
                            charged = λ on_input mode.
                                booked q.result.protocol_fee q.result.fund_fee q.result.creator_fee
                                  q.params.trade_direction on_input clock.epoch w.pool {q = pool}
                                  mode
                                  (rw
                                    (
                                      ← to_u64-eq q.result.protocol_fee e0,
                                      ← to_u64-eq q.result.fund_fee e1,
                                      ← to_u64-eq q.result.creator_fee e2,
                                    )
                                    e3)
                                  (ground arith);
                            moved = ground arith;
                          },
                          ground arith,
                        )

  -- What the two transfers do to the vaults and to the user's accounts.
  pub record HasMoved (clock : Clock) (a : SwapAccounts) (paid got : ℕ) (l l' : t.Ledger)
      : Type 0 where
    pub input_vault :
        (fee : ℕ)
        → Withholds t clock.epoch paid (t.mint l a.input_token_mint) fee
        → amount l' a.input_vault + fee ≡ amount l a.input_vault + paid
    pub input_withheld :
        paid ≢ 0 → (fee : ℕ) × Withholds t clock.epoch paid (t.mint l a.input_token_mint) fee
    pub output_withheld :
        got ≢ 0 → (fee : ℕ) × Withholds t clock.epoch got (t.mint l a.output_token_mint) fee
    pub output_vault : amount l a.output_vault ≡ amount l' a.output_vault + got
    pub receiver :
        (fee : ℕ)
        → Withholds t clock.epoch got (t.mint l a.output_token_mint) fee
        → a.output_token_account ≢ a.input_token_account
        → amount l' a.output_token_account + fee ≡ amount l a.output_token_account + got
    pub payer :
        a.input_token_account ≢ a.output_token_account
        → amount l a.input_token_account ≡ amount l' a.input_token_account + paid

  module _ (laws : TransferLaws t) where
    pub move_tokens-HasMoved :
        (clock : Clock) (a : SwapAccounts) (paid got : ℕ) (l : t.Ledger) {l' : t.Ledger}
        → IsApart a
        → move_tokens t clock a paid got l ≡ ok l'
        → HasMoved clock a paid got l l'
    unfolding move_tokens transfer_from_pool_vault_to_user
    move_tokens-HasMoved clock a paid got l {l'} apart h =
        >>=-elim
          (transfer_from_user_to_pool_vault t clock.epoch (input_transfer a) paid
            (t.mint l a.input_token_mint).decimals l)
          _ h
          λ mid first second.
            let m1 =
              transfer-Moves t laws (input_transfer a) clock.epoch paid _ l first apart.payer_in in
            let m2 =
              transfer-Moves t laws (output_transfer a) clock.epoch got
                (t.mint l a.output_token_mint).decimals mid {l' = l'}
                (unfold transfer_from_user_to_pool_vault in second)
                (λ e. apart.receiver_out (sym e)) in
            let in_same =
              m2.others_same a.input_vault apart.vaults (λ e. apart.receiver_in (sym e)) in
            let out_same =
              m1.others_same a.output_vault (λ e. apart.payer_out (sym e))
                (λ e. apart.vaults (sym e)) in
            record {
              input_vault = λ fee withheld.
                  ap (λ (x : TokenAccount). x.amount + fee) in_same ∙ m1.credited fee withheld;
              input_withheld = m1.withheld;
              output_withheld =
                  λ some_amount. rw (← m1.mints_same a.output_token_mint) (m2.withheld some_amount);
              output_vault = ap (λ (x : TokenAccount). x.amount) (sym out_same) ∙ m2.debited;
              receiver = λ fee withheld differs.
                  m2.credited fee (rw m1.mints_same withheld)
                  ∙ ap (λ (x : TokenAccount). x.amount + got)
                      (m1.others_same a.output_token_account differs apart.receiver_in);
              payer = λ differs.
                  m1.debited
                  ∙ ap (λ (x : TokenAccount). x.amount + paid)
                      (sym (m2.others_same a.input_token_account apart.payer_out differs));
            }
