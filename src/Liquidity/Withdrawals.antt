-- ===== src/Liquidity/Withdrawals.antt =====
-- A withdrawal that succeeds (programs/cp-swap/src/instructions/withdraw.rs). The hypotheses are those
-- of `Token.Laws` and `Token.SupplyLaws` on the token program, and that the accounts are apart.
use mim_swap_sol.Prelude.{ℕ, ◌+◌, ◌≤◌, ◌≡◌, ◌≢◌, some, ok, arith, sym, ap, ◌∙◌, >>=-elim}
use mim_swap_sol.Errors.{Pubkey}
use mim_swap_sol.Token.Interface.{TokenProgram, TokenAccount}
use mim_swap_sol.Token.Calls.{
  transfer_from_user_to_pool_vault, transfer_from_pool_vault_to_user, token_burn,
}
use mim_swap_sol.Token.Laws.{TransferLaws, transfer-Moves, get_transfer_fee-Withholds}
use mim_swap_sol.Token.SupplyLaws.{SupplyLaws, Withholds-same}
use mim_swap_sol.States.PoolLaws.{fees_0, fees_1}
use mim_swap_sol.Swap.Accounts.{Clock, World}
use mim_swap_sol.Swap.SettleLaws.{amount}
use mim_swap_sol.Liquidity.Accounts.{
  LpAccounts, LpChangeEvent, owned_by, of_mint, validate_withdraw, out_of_0, out_of_1,
}
use mim_swap_sol.Liquidity.Handlers.{Parts, withdraw_moves, withdraw}
use mim_swap_sol.Liquidity.Run.{WithdrawRun, withdraw-run}
use mim_swap_sol.Liquidity.Shares.{IsLpApart, KeepsShare, KeepsShare-intro, vaults_of, shrunk}

module _ (t : TokenProgram) (laws : TransferLaws t) (supplies : SupplyLaws t) (clock : Clock)
    (a : LpAccounts) (w : World t) where
  -- The ledger of a withdrawal.
  record HasWithdrawn (lp : ℕ) (parts : Parts) (l : t.Ledger) : Type 0 where
    pub vault_0_loss :
        amount t w.ledger a.token_0_vault ≡ amount t l a.token_0_vault + parts.amount_0
    pub vault_1_loss :
        amount t w.ledger a.token_1_vault ≡ amount t l a.token_1_vault + parts.amount_1
    pub receiver_0 :
        amount t l a.token_0_account + parts.fee_0
        ≡ amount t w.ledger a.token_0_account + parts.amount_0
    pub receiver_1 :
        amount t l a.token_1_account + parts.fee_1
        ≡ amount t w.ledger a.token_1_account + parts.amount_1
    pub payer : amount t w.ledger a.owner_lp_token ≡ amount t l a.owner_lp_token + lp
    pub supply : (t.mint w.ledger a.lp_mint).supply ≡ (t.mint l a.lp_mint).supply + lp

  run-HasWithdrawn :
      (lp minimum_0 minimum_1 : ℕ) (w' : World t)
      → IsLpApart a
      → (run : WithdrawRun t clock a w lp minimum_0 minimum_1 w')
      → HasWithdrawn lp run.parts w'.ledger
  unfolding withdraw_moves token_burn transfer_from_pool_vault_to_user
  run-HasWithdrawn lp minimum_0 minimum_1 w' apart run =
      >>=-elim (token_burn t a.owner a.lp_mint a.owner_lp_token lp w.ledger) _ run.moved
        λ burnt burns h.
          >>=-elim
            (transfer_from_pool_vault_to_user t clock.epoch (out_of_0 t a w) run.parts.amount_0
              (t.mint w.ledger a.vault_0_mint).decimals burnt)
            _ h
            λ mid first second.
              let done : t.burn a.owner a.lp_mint a.owner_lp_token lp w.ledger ≡ some burnt =
                ground arith in
              let m1 =
                transfer-Moves t laws (out_of_0 t a w) clock.epoch run.parts.amount_0
                  (t.mint w.ledger a.vault_0_mint).decimals burnt {l' = mid}
                  (unfold transfer_from_user_to_pool_vault in first)
                  (λ e. apart.token_0_vault_0 (sym e)) in
              let m2 =
                transfer-Moves t laws (out_of_1 t a w) clock.epoch run.parts.amount_1
                  (t.mint w.ledger a.vault_1_mint).decimals mid {l' = w'.ledger}
                  (unfold transfer_from_user_to_pool_vault in second)
                  (λ e. apart.token_1_vault_1 (sym e)) in
              let kept = λ (k : Pubkey) (apart_lp : k ≢ a.owner_lp_token).
                ap (λ (x : TokenAccount). x.amount)
                  (supplies.burn_others a.owner a.lp_mint a.owner_lp_token lp w.ledger k
                    {l' = burnt} done apart_lp) in
              let later =
                λ (k : Pubkey) (no_from : k ≢ a.token_1_vault) (no_to : k ≢ a.token_1_account).
                  ap (λ (x : TokenAccount). x.amount) (m2.others_same k no_from no_to) in
              let before =
                λ (k : Pubkey) (no_from : k ≢ a.token_0_vault) (no_to : k ≢ a.token_0_account).
                  ap (λ (x : TokenAccount). x.amount) (m1.others_same k no_from no_to) in
              let lp_moved =
                supplies.burn_debits a.owner a.lp_mint a.owner_lp_token lp w.ledger {l' = burnt}
                  done in
              let lowered =
                supplies.burn_supply a.owner a.lp_mint a.owner_lp_token lp w.ledger {l' = burnt}
                  done in
              let fees = λ (m : Pubkey).
                supplies.burn_keeps_fees a.owner a.lp_mint a.owner_lp_token lp w.ledger m
                  {l' = burnt} done in
              let (p0, f0) = fees a.vault_0_mint in
              let (p1, f1) = fees a.vault_1_mint in
              let w0 =
                Withholds-same t clock.epoch run.parts.amount_0 (t.mint w.ledger a.vault_0_mint)
                  (t.mint burnt a.vault_0_mint) {fee = run.parts.fee_0} p0 f0
                  (get_transfer_fee-Withholds t clock.epoch (t.mint w.ledger a.vault_0_mint)
                    run.parts.amount_0 run.amounts.charged_0) in
              let w1 =
                Withholds-same t clock.epoch run.parts.amount_1 (t.mint w.ledger a.vault_1_mint)
                  (t.mint burnt a.vault_1_mint) {fee = run.parts.fee_1} p1 f1
                  (get_transfer_fee-Withholds t clock.epoch (t.mint w.ledger a.vault_1_mint)
                    run.parts.amount_1 run.amounts.charged_1) in
              let paid_0 = m1.credited run.parts.fee_0 w0 in
              let paid_1 = m2.credited run.parts.fee_1 (rw (m1.mints_same a.vault_1_mint) w1) in
              let burnt_same = m2.mints_same a.lp_mint ∙ m1.mints_same a.lp_mint in
              record {
                vault_0_loss = omega (
                  arith,
                  m1.debited,
                  kept a.token_0_vault (λ e. apart.lp_vault_0 (sym e)),
                  later a.token_0_vault apart.vaults (λ e. apart.token_1_vault_0 (sym e)),
                );
                vault_1_loss = omega (
                  arith,
                  m2.debited,
                  kept a.token_1_vault (λ e. apart.lp_vault_1 (sym e)),
                  before a.token_1_vault (λ e. apart.vaults (sym e))
                      (λ e. apart.token_0_vault_1 (sym e)),
                );
                receiver_0 = omega (
                  arith,
                  paid_0,
                  kept a.token_0_account (λ e. apart.lp_token_0 (sym e)),
                  later a.token_0_account apart.token_0_vault_1 apart.tokens,
                );
                receiver_1 = omega (
                  arith,
                  paid_1,
                  kept a.token_1_account (λ e. apart.lp_token_1 (sym e)),
                  before a.token_1_account apart.token_1_vault_0 (λ e. apart.tokens (sym e)),
                );
                payer = omega (
                  arith,
                  lp_moved,
                  later a.owner_lp_token apart.lp_vault_1 apart.lp_token_1,
                  before a.owner_lp_token apart.lp_vault_0 apart.lp_token_0,
                );
                supply = rw burnt_same lowered;
              }

  withdraw_vaults :
      validate_withdraw t a w ≡ ok tt
      → (a.token_0_vault ≡ w.pool.token_0_vault) × (a.token_1_vault ≡ w.pool.token_1_vault)
  unfolding validate_withdraw
  withdraw_vaults h =
      >>=-elim (owned_by a.owner (t.account w.ledger a.owner_lp_token)) _ h λ _ e0 h0.
        >>=-elim
          (of_mint (t.account w.ledger a.token_0_vault).mint (t.account w.ledger a.token_0_account))
          _ h0
          λ _ e1 h1.
            >>=-elim
              (of_mint (t.account w.ledger a.token_1_vault).mint
                (t.account w.ledger a.token_1_account))
              _ h1 λ _ e2 h2. vaults_of t a w h2

  -- A withdrawal that succeeds leaves both vaults covering the fees that the pool owes, and does not
  -- lower what one lp token stands for in either vault: the reserves before times the supply after
  -- are at most the reserves after times the supply before. The token program meets `TransferLaws`
  -- and `SupplyLaws`, and the accounts are apart.
  pub withdraw-KeepsShare :
      (lp minimum_0 minimum_1 : ℕ) {w' : World t} {event : LpChangeEvent}
      → IsLpApart a
      → withdraw t clock a lp minimum_0 minimum_1 w ≡ ok (w', event)
      → KeepsShare t w w'
  withdraw-KeepsShare lp minimum_0 minimum_1 {w'} apart h =
      let run = withdraw-run t clock a w lp minimum_0 minimum_1 h in
      let done = run-HasWithdrawn lp minimum_0 minimum_1 w' apart run in
      let (k0, k1) = withdraw_vaults run.valid in
      let after = run.pool_after in
      let e = run.worth in
      let taken_0 =
        shrunk _ _ (fees_0 w.pool) e.total_token_0_amount e.token_0_amount run.parts.amount_0 _ _ lp
          run.entitles.total_0 done.vault_0_loss run.amounts.taken_0 run.supply
          run.entitles.share_0 in
      let taken_1 =
        shrunk _ _ (fees_1 w.pool) e.total_token_1_amount e.token_1_amount run.parts.amount_1 _ _ lp
          run.entitles.total_1 done.vault_1_loss run.amounts.taken_1 run.supply
          run.entitles.share_1 in
      KeepsShare-intro t w w' a.token_0_vault a.token_1_vault k0 k1 (ground arith) (ground arith)
        (ground arith) (ground arith)
        (record {
          covers_0 = taken_0.0;
          covers_1 = taken_1.0;
          fits_0 = run.entitles.solvent.fits_0;
          fits_1 = run.entitles.solvent.fits_1;
        })
        taken_0.1 taken_1.1

  -- A withdrawal that succeeds gives the user at least the two minima after the transfer fees, burns
  -- exactly the lp tokens named, and lowers the pool's and the mint's supply alike by them. The
  -- token program meets `TransferLaws` and `SupplyLaws`, and the accounts are apart.
  pub withdraw-exact :
      (lp minimum_0 minimum_1 : ℕ) {w' : World t} {event : LpChangeEvent}
      → IsLpApart a
      → withdraw t clock a lp minimum_0 minimum_1 w ≡ ok (w', event)
      → (amount t w.ledger a.token_0_account + minimum_0 ≤ amount t w'.ledger a.token_0_account)
        × (amount t w.ledger a.token_1_account + minimum_1 ≤ amount t w'.ledger a.token_1_account)
        × (amount t w.ledger a.owner_lp_token ≡ amount t w'.ledger a.owner_lp_token + lp)
        × (w.pool.lp_supply ≡ w'.pool.lp_supply + lp)
        × ((t.mint w.ledger a.lp_mint).supply ≡ (t.mint w'.ledger a.lp_mint).supply + lp)
  withdraw-exact lp minimum_0 minimum_1 {w'} apart h =
      let run = withdraw-run t clock a w lp minimum_0 minimum_1 h in
      let done = run-HasWithdrawn lp minimum_0 minimum_1 w' apart run in
      (
        omega (arith, done.receiver_0, run.limit_0),
        omega (arith, done.receiver_1, run.limit_1),
        done.payer,
        run.supply,
        done.supply,
      )
