-- ===== src/Liquidity/Deposits.antt =====
-- A deposit that succeeds (programs/cp-swap/src/instructions/deposit.rs). The hypotheses are those of
-- `Token.Laws` and `Token.SupplyLaws` on the token program, and that the accounts are apart.
use mim_swap_sol.Prelude.{ℕ, ◌+◌, ◌≤◌, ◌≡◌, ◌≢◌, ok, arith, sym, ap, >>=-elim}
use mim_swap_sol.Errors.{Pubkey}
use mim_swap_sol.Curve.ShareLaws.{share_rises_on_deposit}
use mim_swap_sol.Token.Interface.{TokenProgram, TokenAccount}
use mim_swap_sol.Token.Calls.{transfer_from_user_to_pool_vault}
use mim_swap_sol.Token.Laws.{TransferLaws, transfer-Moves}
use mim_swap_sol.Token.SupplyLaws.{SupplyLaws}
use mim_swap_sol.States.PoolLaws.{fees_0, fees_1}
use mim_swap_sol.Swap.Accounts.{Clock, World}
use mim_swap_sol.Swap.SettleLaws.{amount}
use mim_swap_sol.Liquidity.Accounts.{
  LpAccounts, LpChangeEvent, owned_by, of_mint, validate_deposit, into_0, into_1,
}
use mim_swap_sol.Liquidity.Handlers.{Entitled, Parts, deposit_moves, deposit}
use mim_swap_sol.Liquidity.Run.{DepositRun, deposit-run}
use mim_swap_sol.Liquidity.Shares.{
  IsLpApart, KeepsShare, KeepsShare-intro, vaults_of, brings_share, grown,
}

module _ (t : TokenProgram) (laws : TransferLaws t) (supplies : SupplyLaws t) (clock : Clock)
    (a : LpAccounts) (w : World t) where
  -- The ledger of a deposit.
  record HasDeposited (lp : ℕ) (e : Entitled) (parts : Parts) (l : t.Ledger) : Type 0 where
    pub vault_0_gain :
        amount t w.ledger a.token_0_vault + e.token_0_amount ≤ amount t l a.token_0_vault
    pub vault_1_gain :
        amount t w.ledger a.token_1_vault + e.token_1_amount ≤ amount t l a.token_1_vault
    pub payer_0 :
        amount t w.ledger a.token_0_account ≡ amount t l a.token_0_account + parts.amount_0
    pub payer_1 :
        amount t w.ledger a.token_1_account ≡ amount t l a.token_1_account + parts.amount_1
    pub receiver : amount t l a.owner_lp_token ≡ amount t w.ledger a.owner_lp_token + lp
    pub supply : (t.mint l a.lp_mint).supply ≡ (t.mint w.ledger a.lp_mint).supply + lp

  run-HasDeposited :
      (lp maximum_0 maximum_1 : ℕ) (w' : World t)
      → IsLpApart a
      → (run : DepositRun t clock a w lp maximum_0 maximum_1 w')
      → HasDeposited lp run.worth run.parts w'.ledger
  unfolding deposit_moves
  run-HasDeposited lp maximum_0 maximum_1 w' apart run =
      >>=-elim
        (transfer_from_user_to_pool_vault t clock.epoch (into_0 t a w) run.parts.amount_0
          (t.mint w.ledger a.vault_0_mint).decimals w.ledger)
        _ run.moved
        λ mid first second.
          let m1 =
            transfer-Moves t laws (into_0 t a w) clock.epoch run.parts.amount_0 _ w.ledger first
              apart.token_0_vault_0 in
          let m2 =
            transfer-Moves t laws (into_1 t a w) clock.epoch run.parts.amount_1 _ mid second
              apart.token_1_vault_1 in
          let gain_0 =
            brings_share t laws (into_0 t a w) clock.epoch run.worth.token_0_amount run.parts.fee_0
              run.parts.amount_0 w.ledger mid m1 run.amounts.inverse_0 run.amounts.paid_0
              run.entitles.positive_0 in
          let gain_1 =
            brings_share t laws (into_1 t a w) clock.epoch run.worth.token_1_amount run.parts.fee_1
              run.parts.amount_1 mid run.paid m2
              (rw (m1.mints_same a.vault_1_mint) run.amounts.inverse_1) run.amounts.paid_1
              run.entitles.positive_1 in
          let kept = λ (k : Pubkey) (apart_lp : k ≢ a.owner_lp_token).
            ap (λ (x : TokenAccount). x.amount)
              (supplies.mint_others a.authority a.lp_mint a.owner_lp_token lp run.paid k
                {l' = w'.ledger} run.minted apart_lp) in
          let later =
            λ (k : Pubkey) (no_from : k ≢ a.token_1_account) (no_to : k ≢ a.token_1_vault).
              ap (λ (x : TokenAccount). x.amount) (m2.others_same k no_from no_to) in
          let before =
            λ (k : Pubkey) (no_from : k ≢ a.token_0_account) (no_to : k ≢ a.token_0_vault).
              ap (λ (x : TokenAccount). x.amount) (m1.others_same k no_from no_to) in
          let lp_moved =
            supplies.mint_credits a.authority a.lp_mint a.owner_lp_token lp run.paid
              {l' = w'.ledger} run.minted in
          let raised =
            supplies.mint_supply a.authority a.lp_mint a.owner_lp_token lp run.paid {l' = w'.ledger}
              run.minted in
          record {
            vault_0_gain = omega (
              arith,
              kept a.token_0_vault (λ e. apart.lp_vault_0 (sym e)),
              later a.token_0_vault (λ e. apart.token_1_vault_0 (sym e)) apart.vaults,
            );
            vault_1_gain = omega (
              arith,
              kept a.token_1_vault (λ e. apart.lp_vault_1 (sym e)),
              before a.token_1_vault (λ e. apart.token_0_vault_1 (sym e))
                  (λ e. apart.vaults (sym e)),
            );
            payer_0 = omega (
              arith,
              m1.debited,
              kept a.token_0_account (λ e. apart.lp_token_0 (sym e)),
              later a.token_0_account apart.tokens apart.token_0_vault_1,
            );
            payer_1 = omega (
              arith,
              m2.debited,
              kept a.token_1_account (λ e. apart.lp_token_1 (sym e)),
              before a.token_1_account (λ e. apart.tokens (sym e)) apart.token_1_vault_0,
            );
            receiver = omega (
              arith,
              lp_moved,
              later a.owner_lp_token apart.lp_token_1 apart.lp_vault_1,
              before a.owner_lp_token apart.lp_token_0 apart.lp_vault_0,
            );
            supply = rw (m2.mints_same a.lp_mint, m1.mints_same a.lp_mint) at raised;
          }

  deposit_vaults :
      validate_deposit t a w ≡ ok tt
      → (a.token_0_vault ≡ w.pool.token_0_vault) × (a.token_1_vault ≡ w.pool.token_1_vault)
  unfolding validate_deposit
  deposit_vaults h =
      >>=-elim (owned_by a.owner (t.account w.ledger a.owner_lp_token)) _ h λ _ e0 h0.
        >>=-elim (owned_by a.owner (t.account w.ledger a.token_0_account)) _ h0 λ _ e1 h1.
          >>=-elim
            (of_mint (t.account w.ledger a.token_0_vault).mint
              (t.account w.ledger a.token_0_account))
            _ h1
            λ _ e2 h2.
              >>=-elim (owned_by a.owner (t.account w.ledger a.token_1_account)) _ h2 λ _ e3 h3.
                >>=-elim
                  (of_mint (t.account w.ledger a.token_1_vault).mint
                    (t.account w.ledger a.token_1_account))
                  _ h3 λ _ e4 h4. vaults_of t a w h4

  -- A deposit that succeeds leaves both vaults covering the fees that the pool owes, and does not
  -- lower what one lp token stands for in either vault: the reserves before times the supply after
  -- are at most the reserves after times the supply before. The token program meets `TransferLaws`
  -- and `SupplyLaws`, and the accounts are apart.
  pub deposit-KeepsShare :
      (lp maximum_0 maximum_1 : ℕ) {w' : World t} {event : LpChangeEvent}
      → IsLpApart a
      → deposit t clock a lp maximum_0 maximum_1 w ≡ ok (w', event)
      → KeepsShare t w w'
  deposit-KeepsShare lp maximum_0 maximum_1 {w'} apart h =
      let run = deposit-run t clock a w lp maximum_0 maximum_1 h in
      let done = run-HasDeposited lp maximum_0 maximum_1 w' apart run in
      let (k0, k1) = deposit_vaults run.valid in
      let after = run.pool_after in
      let e = run.worth in
      let supply : w'.pool.lp_supply ≡ w.pool.lp_supply + lp = ground arith in
      let s0 =
        share_rises_on_deposit e.total_token_0_amount w.pool.lp_supply lp e.token_0_amount
          run.entitles.share_0 in
      let s1 =
        share_rises_on_deposit e.total_token_1_amount w.pool.lp_supply lp e.token_1_amount
          run.entitles.share_1 in
      KeepsShare-intro t w w' a.token_0_vault a.token_1_vault k0 k1 (ground arith) (ground arith)
        (ground arith) (ground arith)
        (record {
          covers_0 = omega (arith, done.vault_0_gain, run.entitles.total_0);
          covers_1 = omega (arith, done.vault_1_gain, run.entitles.total_1);
          fits_0 = run.entitles.solvent.fits_0;
          fits_1 = run.entitles.solvent.fits_1;
        })
        (grown _ _ (fees_0 w.pool) e.total_token_0_amount e.token_0_amount _ _ lp
          run.entitles.total_0 done.vault_0_gain supply s0)
        (grown _ _ (fees_1 w.pool) e.total_token_1_amount e.token_1_amount _ _ lp
          run.entitles.total_1 done.vault_1_gain supply s1)

  -- A deposit that succeeds takes no more than the two maxima from the depositor, mints exactly the
  -- lp tokens asked for to the depositor, and raises the pool's and the mint's supply alike by them.
  -- The token program meets `TransferLaws` and `SupplyLaws`, and the accounts are apart.
  pub deposit-exact :
      (lp maximum_0 maximum_1 : ℕ) {w' : World t} {event : LpChangeEvent}
      → IsLpApart a
      → deposit t clock a lp maximum_0 maximum_1 w ≡ ok (w', event)
      → (amount t w.ledger a.token_0_account ≤ amount t w'.ledger a.token_0_account + maximum_0)
        × (amount t w.ledger a.token_1_account ≤ amount t w'.ledger a.token_1_account + maximum_1)
        × (amount t w'.ledger a.owner_lp_token ≡ amount t w.ledger a.owner_lp_token + lp)
        × (w'.pool.lp_supply ≡ w.pool.lp_supply + lp)
        × ((t.mint w'.ledger a.lp_mint).supply ≡ (t.mint w.ledger a.lp_mint).supply + lp)
  deposit-exact lp maximum_0 maximum_1 {w'} apart h =
      let run = deposit-run t clock a w lp maximum_0 maximum_1 h in
      let done = run-HasDeposited lp maximum_0 maximum_1 w' apart run in
      let after = run.pool_after in
      (
        omega (arith, done.payer_0, run.limit_0),
        omega (arith, done.payer_1, run.limit_1),
        done.receiver,
        ground arith,
        done.supply,
      )
