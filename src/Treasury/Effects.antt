-- ===== src/Treasury/Effects.antt =====
-- What `deposit_mim`, `donate_mim`, `start_destake` and `finalize_destake`
-- (programs/mana-treasury/src/lib.rs) do to the treasury's vaults where they succeed.
use mim_swap_sol.Prelude.{ℕ, ◌+◌, ◌≢◌, sym, ap, ◌∙◌, arith}
use mim_swap_sol.Errors.{Pubkey}
use mim_swap_sol.Token.Interface.{TokenProgram, TokenAccount, Mint}
use mim_swap_sol.Token.Laws.{TransferLaws}
use mim_swap_sol.Token.SupplyLaws.{SupplyLaws}
use mim_swap_sol.Treasury.State.{Treasury, Clock}
use mim_swap_sol.Treasury.Accounts.{DepositMim, DonateMim, StartDestake, FinalizeDestake}
use mim_swap_sol.Treasury.Staking.{
  deposit_transfer, donate_transfer, lock_transfer, reserve_transfer, release_transfer,
}
use mim_swap_sol.Treasury.Runs.{DepositRun, DonationRun, DestakeRun, FinalRun}
use mim_swap_sol.Treasury.Holdings.{
  IsVaulted, IsOutside, transfer_checked-HasPaid, HasChanged, IsPlain-same,
}

module _ (t : TokenProgram) (laws : TransferLaws t) (supplies : SupplyLaws t) (clock : Clock)
    (w w' : Treasury t) (vaulted : IsVaulted t w) where
  pub deposit_mim-HasChanged :
      (a : DepositMim) (amount minimum : ℕ)
      → IsOutside t w.state a.depositor_mim
      → IsOutside t w.state a.depositor_mana
      → (run : DepositRun t clock w a amount minimum w')
      → HasChanged t w.state amount 0 0 0 0 0 run.mana_out 0 w.ledger w'.ledger
  deposit_mim-HasChanged a amount minimum payer receiver run =
      let s = w.state in
      let same_vault = run.accounts.active_mim_vault in
      let paid =
        transfer_checked-HasPaid t laws (deposit_transfer a) amount _ clock.epoch w.ledger run.moved
          (λ e. payer.active_mim (e ∙ same_vault)) (rw run.accounts.mim_mint vaulted.mim_plain) in
      let credited = rw same_vault at paid.credited in
      let other = λ (k : Pubkey) (no_from : k ≢ a.depositor_mim) (no_to : k ≢ s.active_mim_vault).
        paid.others k no_from (λ e. no_to (e ∙ same_vault)) in
      let kept = λ (k : Pubkey) (apart : k ≢ a.depositor_mana).
        ap (λ (x : TokenAccount). x.amount)
          (supplies.mint_others a.treasury_authority a.mana_mint a.depositor_mana run.mana_out
            run.paid k {l' = w'.ledger} run.minted apart) in
      let raised =
        supplies.mint_supply a.treasury_authority a.mana_mint a.depositor_mana run.mana_out run.paid
          {l' = w'.ledger} run.minted in
      let fees = λ (m : Pubkey).
        supplies.mint_keeps_fees a.treasury_authority a.mana_mint a.depositor_mana run.mana_out
          run.paid m {l' = w'.ledger} run.minted in
      record {
        active =
            omega (arith, credited, kept s.active_mim_vault (λ e. receiver.active_mim (sym e)));
        mim = omega (
          arith,
          kept s.pending_mim_vault (λ e. receiver.pending_mim (sym e)),
          other s.pending_mim_vault (λ e. payer.pending_mim (sym e))
              (λ e. vaulted.active_mim_mim (sym e)),
        );
        mana = omega (
          arith,
          kept s.pending_mana_vault (λ e. receiver.pending_mana (sym e)),
          other s.pending_mana_vault (λ e. payer.pending_mana (sym e))
              (λ e. vaulted.active_mim_mana (sym e)),
        );
        supply =
            let raised_here = rw (paid.mints_same a.mana_mint) at raised in
            let here = rw run.accounts.mana_mint at raised_here in omega (arith, here);
        program_same =
            λ m. (fees m).0 ∙ ap (λ (x : Mint t.Config). x.token_program) (paid.mints_same m);
        fee_same = λ m. (fees m).1 ∙ ap (λ (x : Mint t.Config). x.transfer_fee) (paid.mints_same m);
      }

  pub donate_mim-HasChanged :
      (a : DonateMim) (amount : ℕ)
      → IsOutside t w.state a.donor_mim
      → DonationRun t clock w a amount w'
      → HasChanged t w.state amount 0 0 0 0 0 0 0 w.ledger w'.ledger
  donate_mim-HasChanged a amount payer run =
      let s = w.state in
      let same_vault = run.accounts.active_mim_vault in
      let paid =
        transfer_checked-HasPaid t laws (donate_transfer a) amount _ clock.epoch w.ledger
          {l' = w'.ledger} run.moved (λ e. payer.active_mim (e ∙ same_vault))
          (rw run.accounts.mim_mint vaulted.mim_plain) in
      let credited = rw same_vault at paid.credited in
      let other = λ (k : Pubkey) (no_from : k ≢ a.donor_mim) (no_to : k ≢ s.active_mim_vault).
        paid.others k no_from (λ e. no_to (e ∙ same_vault)) in
      record {
        active = omega (arith, credited);
        mim = omega (
          arith,
          other s.pending_mim_vault (λ e. payer.pending_mim (sym e))
              (λ e. vaulted.active_mim_mim (sym e)),
        );
        mana = omega (
          arith,
          other s.pending_mana_vault (λ e. payer.pending_mana (sym e))
              (λ e. vaulted.active_mim_mana (sym e)),
        );
        supply = ap (λ (x : Mint t.Config). x.supply + 0) (paid.mints_same s.mana_mint);
        program_same = λ m. ap (λ (x : Mint t.Config). x.token_program) (paid.mints_same m);
        fee_same = λ m. ap (λ (x : Mint t.Config). x.transfer_fee) (paid.mints_same m);
      }

  pub start_destake-HasChanged :
      (a : StartDestake) (mana_amount minimum : ℕ)
      → IsOutside t w.state a.owner_mana
      → (run : DestakeRun t clock w a mana_amount minimum w')
      → HasChanged t w.state 0 run.reserved run.reserved 0 mana_amount 0 0 0 w.ledger w'.ledger
  start_destake-HasChanged a mana_amount minimum payer run =
      let s = w.state in
      let e_mana = run.accounts.pending_mana_vault in
      let e_active = run.accounts.active_mim_vault in
      let e_mim = run.accounts.pending_mim_vault in
      let first =
        transfer_checked-HasPaid t laws (lock_transfer a) mana_amount _ clock.epoch w.ledger
          run.moved_mana (λ e. payer.pending_mana (e ∙ e_mana))
          (rw run.accounts.mana_mint vaulted.mana_plain) in
      let second =
        transfer_checked-HasPaid t laws (reserve_transfer a) run.reserved _ clock.epoch run.locked
          {l' = w'.ledger} run.moved_mim (λ e. vaulted.active_mim_mim (sym e_active ∙ e ∙ e_mim))
          (rw (run.accounts.mim_mint, first.mints_same s.mim_mint) vaulted.mim_plain) in
      let locked_in = rw e_mana at first.credited in
      let out = rw e_active at second.debited in
      let into = rw e_mim at second.credited in
      let before = λ (k : Pubkey) (no_from : k ≢ a.owner_mana) (no_to : k ≢ s.pending_mana_vault).
        first.others k no_from (λ e. no_to (e ∙ e_mana)) in
      let later =
        λ (k : Pubkey) (no_from : k ≢ s.active_mim_vault) (no_to : k ≢ s.pending_mim_vault).
          second.others k (λ e. no_from (e ∙ e_active)) (λ e. no_to (e ∙ e_mim)) in
      record {
        active = omega (
          arith,
          out,
          before s.active_mim_vault (λ e. payer.active_mim (sym e)) vaulted.active_mim_mana,
        );
        mim = omega (
          arith,
          into,
          before s.pending_mim_vault (λ e. payer.pending_mim (sym e)) vaulted.pending_mim_mana,
        );
        mana = omega (
          arith,
          locked_in,
          later s.pending_mana_vault (λ e. vaulted.active_mim_mana (sym e))
              (λ e. vaulted.pending_mim_mana (sym e)),
        );
        supply =
            ap (λ (x : Mint t.Config). x.supply + 0)
              (second.mints_same s.mana_mint ∙ first.mints_same s.mana_mint);
        program_same = λ m.
            ap (λ (x : Mint t.Config). x.token_program) (second.mints_same m ∙ first.mints_same m);
        fee_same = λ m.
            ap (λ (x : Mint t.Config). x.transfer_fee) (second.mints_same m ∙ first.mints_same m);
      }

  pub finalize_destake-HasChanged :
      (a : FinalizeDestake)
      → IsOutside t w.state a.owner_mim
      → (run : FinalRun t clock w a w')
      → HasChanged t w.state 0 0 0 run.request.reserved_mim_amount 0 run.request.mana_amount 0
          run.request.mana_amount w.ledger w'.ledger
  finalize_destake-HasChanged a receiver run =
      let s = w.state in
      let n = run.request.mana_amount in
      let e_mana = run.accounts.pending_mana_vault in
      let e_mim = run.accounts.pending_mim_vault in
      let fees = λ (m : Pubkey).
        supplies.burn_keeps_fees a.treasury_authority a.mana_mint a.pending_mana_vault n w.ledger m
          {l' = run.burnt} run.burns in
      let debit = rw e_mana at (
        supplies.burn_debits a.treasury_authority a.mana_mint a.pending_mana_vault n w.ledger
          {l' = run.burnt} run.burns) in
      let kept = λ (k : Pubkey) (apart : k ≢ s.pending_mana_vault).
        ap (λ (x : TokenAccount). x.amount)
          (supplies.burn_others a.treasury_authority a.mana_mint a.pending_mana_vault n w.ledger k
            {l' = run.burnt} run.burns (λ e. apart (e ∙ e_mana))) in
      let lowered = rw run.accounts.mana_mint at (
        supplies.burn_supply a.treasury_authority a.mana_mint a.pending_mana_vault n w.ledger
          {l' = run.burnt} run.burns) in
      let paid =
        transfer_checked-HasPaid t laws (release_transfer a) run.request.reserved_mim_amount _
          clock.epoch run.burnt {l' = w'.ledger} run.moved_mim
          (λ e. receiver.pending_mim (sym e ∙ e_mim))
          (rw run.accounts.mim_mint (
            IsPlain-same t (t.mint w.ledger s.mim_mint) (t.mint run.burnt s.mim_mint)
              (fees s.mim_mint).0 (fees s.mim_mint).1 vaulted.mim_plain)) in
      let out = rw e_mim at paid.debited in
      let other = λ (k : Pubkey) (no_from : k ≢ s.pending_mim_vault) (no_to : k ≢ a.owner_mim).
        paid.others k (λ e. no_from (e ∙ e_mim)) no_to in
      let same_mint = ap (λ (x : Mint t.Config). x.supply) (paid.mints_same s.mana_mint) in
      record {
        active = omega (
          arith,
          kept s.active_mim_vault vaulted.active_mim_mana,
          other s.active_mim_vault vaulted.active_mim_mim (λ e. receiver.active_mim (sym e)),
        );
        mim = omega (arith, out, kept s.pending_mim_vault vaulted.pending_mim_mana);
        mana = omega (
          arith,
          debit,
          other s.pending_mana_vault (λ e. vaulted.pending_mim_mana (sym e))
              (λ e. receiver.pending_mana (sym e)),
        );
        supply = omega (arith, lowered, same_mint);
        program_same =
            λ m. ap (λ (x : Mint t.Config). x.token_program) (paid.mints_same m) ∙ (fees m).0;
        fee_same = λ m. ap (λ (x : Mint t.Config). x.transfer_fee) (paid.mints_same m) ∙ (fees m).1;
      }
