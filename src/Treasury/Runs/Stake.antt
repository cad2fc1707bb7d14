-- ===== src/Treasury/Runs/Stake.antt =====
-- The steps of `deposit_mim`, `donate_mim`, `start_destake` and `finalize_destake` where they
-- succeed.
use mim_swap_sol.Prelude.{ℕ, ◌≤◌, ◌<◌, ◌≡◌, ltb, leb, some, ok, require, arith, >>=-elim}
use mim_swap_sol.Token.Interface.{TokenProgram, Transfer}
use mim_swap_sol.Treasury.Errors.{TreasuryError, treasury, Attempt, invoke}
use mim_swap_sol.Treasury.State.{Treasury, Clock, active_mana_supply, calculate_mana_for_deposit}
use mim_swap_sol.Treasury.Accounts.{
  DepositMim, DonateMim, validate_deposit_mim, validate_donate_mim,
}
use mim_swap_sol.Treasury.Staking.{
  deposit_transfer, donate_transfer, transfer_checked, deposit_mim, donate_mim,
}
use mim_swap_sol.Treasury.Runs.Validations.{
  IsDepositOf, validate_deposit_mim-IsDepositOf, IsDonationTo, validate_donate_mim-IsDonationTo,
}

module _ (t : TokenProgram) (clock : Clock) where
  pub transfer_checked-some :
      (x : Transfer) (amount decimals : ℕ) (l : t.Ledger) {l' : t.Ledger}
      → transfer_checked t clock x amount decimals l ≡ ok l'
      → t.transfer_checked x amount decimals clock.epoch l ≡ some l'
  unfolding transfer_checked
  transfer_checked-some x amount decimals l {l'} h = ground arith

  module _ (w : Treasury t) where
    pub record DepositRun (a : DepositMim) (amount minimum : ℕ) (w' : Treasury t) : Type 0 where
      pub accounts : IsDepositOf t w a
      pub positive : 0 < amount
      pub supply : ℕ
      pub mana_out : ℕ
      pub paid : t.Ledger
      pub active : active_mana_supply (t.mint w.ledger a.mana_mint).supply w.state ≡ ok supply
      pub priced :
          calculate_mana_for_deposit amount (t.account w.ledger a.active_mim_vault).amount supply
          ≡ ok mana_out
      pub enough : minimum ≤ mana_out
      pub moved :
          t.transfer_checked
            (deposit_transfer a)
            amount
            (t.mint w.ledger a.mim_mint).decimals
            clock.epoch
            w.ledger
          ≡ some paid
      pub minted :
          t.mint_to a.treasury_authority a.mana_mint a.depositor_mana mana_out paid ≡ some w'.ledger
      pub after : w' ≡ record w { ledger = w'.ledger }

    pub deposit_mim-run :
        (a : DepositMim) (amount minimum : ℕ) {w' : Treasury t}
        → deposit_mim t clock a amount minimum w ≡ ok w'
        → DepositRun a amount minimum w'
    unfolding deposit_mim
    deposit_mim-run a amount minimum {w'} h = >>=-elim (validate_deposit_mim t a w) _ h λ _ e0 h0.
        >>=-elim (some_amount amount) _ h0 λ _ e1 h1.
          >>=-elim (active_mana_supply (t.mint w.ledger a.mana_mint).supply w.state) _ h1
            λ supply e2 h2.
              >>=-elim
                (calculate_mana_for_deposit amount (t.account w.ledger a.active_mim_vault).amount
                  supply)
                _ h2
                λ mana e3 h3. >>=-elim (at_least minimum mana) _ h3 λ _ e4 h4.
                  >>=-elim (some_out mana) _ h4 λ _ e5 h5.
                    >>=-elim
                      (transfer_checked t clock (deposit_transfer a) amount
                        (t.mint w.ledger a.mim_mint).decimals w.ledger)
                      _ h5
                      λ paid e6 h6.
                        >>=-elim
                          (invoke
                            (t.mint_to a.treasury_authority a.mana_mint a.depositor_mana mana paid))
                          _ h6
                          λ minted e7 h7. record {
                            accounts = validate_deposit_mim-IsDepositOf t w a e0;
                            positive = ground arith;
                            supply = supply;
                            mana_out = mana;
                            paid = paid;
                            active = e2;
                            priced = e3;
                            enough = ground arith;
                            moved = transfer_checked-some _ _ _ _ e6;
                            minted = ground arith;
                            after = ground arith;
                          }
      where
        some_amount : ℕ → Attempt (Unit {0})
        some_amount n = require (ltb 0 n) (treasury TreasuryError.invalid_amount)

        at_least : ℕ → ℕ → Attempt (Unit {0})
        at_least least n = require (leb least n) (treasury TreasuryError.exceeded_slippage)

        some_out : ℕ → Attempt (Unit {0})
        some_out n = require (ltb 0 n) (treasury TreasuryError.zero_mana_out)

    pub record DonationRun (a : DonateMim) (amount : ℕ) (w' : Treasury t) : Type 0 where
      pub accounts : IsDonationTo t w a
      pub moved :
          t.transfer_checked
            (donate_transfer a)
            amount
            (t.mint w.ledger a.mim_mint).decimals
            clock.epoch
            w.ledger
          ≡ some w'.ledger
      pub after : w' ≡ record w { ledger = w'.ledger }

    pub donate_mim-run :
        (a : DonateMim) (amount : ℕ) {w' : Treasury t}
        → donate_mim t clock a amount w ≡ ok w'
        → DonationRun a amount w'
    unfolding donate_mim
    donate_mim-run a amount {w'} h = >>=-elim (validate_donate_mim t a w) _ h λ _ e0 h0.
        >>=-elim (some_amount amount) _ h0 λ _ e1 h1.
          >>=-elim
            (transfer_checked t clock (donate_transfer a) amount
              (t.mint w.ledger a.mim_mint).decimals w.ledger)
            _ h1
            λ paid e2 h2.
              let moved =
                transfer_checked-some (donate_transfer a) amount _ w.ledger {l' = paid} e2 in
              record {
                accounts = validate_donate_mim-IsDonationTo t w a e0;
                moved = ground arith;
                after = ground arith;
              }
      where
        some_amount : ℕ → Attempt (Unit {0})
        some_amount n = require (ltb 0 n) (treasury TreasuryError.invalid_amount)
