-- ===== src/Treasury/Steps.antt =====
-- The treasury of programs/mana-treasury/src/lib.rs under any sequence of its instructions, with
-- whatever happens to other accounts in between.
use mim_swap_sol.Prelude.{ℕ, ◌-◌, ◌≤◌, ◌≡◌, ◌≢◌, Option, List, refl, some, ok, ap, arith}
use mim_swap_sol.Errors.{Pubkey}
use mim_swap_sol.Token.Interface.{TokenProgram}
use mim_swap_sol.Treasury.State.{TreasuryState, Treasury, Clock}
use mim_swap_sol.Treasury.Accounts.{
  DepositMim, DonateMim, DonateAsset, SwapAssetToMim, StartDestake, FinalizeDestake,
}
use mim_swap_sol.Treasury.Staking.{deposit_mim, donate_mim, start_destake, finalize_destake}
use mim_swap_sol.Treasury.Router.{AccountMeta, Instruction, donate_asset, swap_asset_to_mim}
use mim_swap_sol.Treasury.Admin.{
  CreateAssetVault, create_asset_vault, set_swap_router, set_cooldown_seconds,
  set_treasury_authority, accept_treasury_authority,
}
use mim_swap_sol.Treasury.Administration.{IsAdministered}
use mim_swap_sol.Treasury.Holdings.{held, IsOutside}
use mim_swap_sol.Treasury.Backing.{IsBacked, IsBacked-same_requests, HasSameVaults-refl}

module _ (t : TokenProgram) where
  -- A change of the ledger that takes nothing out of the pending vaults and changes no mint's
  -- program or fees. Only the treasury's authority can take from the vaults.
  pub record SparesPending (s : TreasuryState) (l l' : t.Ledger) : Type 0 where
    pub mim : held t l s.pending_mim_vault ≤ held t l' s.pending_mim_vault
    pub mana : held t l s.pending_mana_vault ≤ held t l' s.pending_mana_vault
    pub program_same : (m : Pubkey) → (t.mint l' m).token_program ≡ (t.mint l m).token_program
    pub fee_same : (m : Pubkey) → (t.mint l' m).transfer_fee ≡ (t.mint l m).transfer_fee

  -- One step: an instruction that succeeds, at any time, on accounts that are no vaults of the
  -- treasury. The router, which is called with the signature of the treasury's authority, is
  -- supposed to spare the pending vaults, and so is anything that happens outside the program.
  pub data Step : Treasury t → Treasury t → Type 0 where
    deposits :
        (clock : Clock) (a : DepositMim) (amount minimum : ℕ) {w w' : Treasury t}
        → IsOutside t w.state a.depositor_mim
        → IsOutside t w.state a.depositor_mana
        → deposit_mim t clock a amount minimum w ≡ ok w'
        → Step w w'
    donates :
        (clock : Clock) (a : DonateMim) (amount : ℕ) {w w' : Treasury t}
        → IsOutside t w.state a.donor_mim
        → donate_mim t clock a amount w ≡ ok w'
        → Step w w'
    donates_asset :
        (clock : Clock) (a : DonateAsset) (amount : ℕ) {w w' : Treasury t}
        → IsOutside t w.state a.donor_asset
        → IsOutside t w.state a.asset_token_account
        → a.donor_asset ≢ a.asset_token_account
        → donate_asset t clock a amount w ≡ ok w'
        → Step w w'
    swaps :
        (router : Instruction → t.Ledger → Option t.Ledger) (metas : List AccountMeta)
        (a : SwapAssetToMim) (amount minimum : ℕ) (bytes : List ℕ) {w w' : Treasury t}
        → ((ix : Instruction) (l' : t.Ledger)
            → router ix w.ledger ≡ some l'
            → SparesPending w.state w.ledger l')
        → swap_asset_to_mim t router metas a amount minimum bytes w ≡ ok w'
        → Step w w'
    starts :
        (clock : Clock) (a : StartDestake) (mana_amount minimum : ℕ) {w w' : Treasury t}
        → IsOutside t w.state a.owner_mana
        → start_destake t clock a mana_amount minimum w ≡ ok w'
        → Step w w'
    finishes :
        (clock : Clock) (a : FinalizeDestake) {w w' : Treasury t}
        → IsOutside t w.state a.owner_mim
        → finalize_destake t clock a w ≡ ok w'
        → Step w w'
    adds_vault :
        (a : CreateAssetVault) {w w' : Treasury t} → create_asset_vault t a w ≡ ok w' → Step w w'
    sets_router :
        (authority router : Pubkey) {w w' : Treasury t}
        → set_swap_router t authority router w ≡ ok w'
        → Step w w'
    sets_cooldown :
        (authority : Pubkey) (seconds : ℕ) {w w' : Treasury t}
        → set_cooldown_seconds t authority seconds w ≡ ok w'
        → Step w w'
    names_authority :
        (authority pending : Pubkey) {w w' : Treasury t}
        → set_treasury_authority t authority pending w ≡ ok w'
        → Step w w'
    takes_authority :
        (authority : Pubkey) {w w' : Treasury t}
        → accept_treasury_authority t authority w ≡ ok w'
        → Step w w'
    elsewhere :
        (l' : t.Ledger) {w : Treasury t}
        → SparesPending w.state w.ledger l'
        → Step w (record w { ledger = l' })

  pub data Reach : Treasury t → Treasury t → Type 0 where
    here : {w : Treasury t} → Reach w w
    later : {w v w' : Treasury t} → Step w v → Reach v w' → Reach w w'

  -- In numbers: what the active vault and the supply do is of no matter.
  pub SparesPending-IsBacked :
      (w w' : Treasury t)
      → IsBacked t w
      → w' ≡ record w { ledger = w'.ledger }
      → SparesPending w.state w.ledger w'.ledger
      → IsBacked t w'
  SparesPending-IsBacked w w' b after spares =
      let s = w.state in
      let state = ap (λ (x : Treasury t). x.state) after in
      IsBacked-same_requests t w w' {ai = held t w'.ledger s.active_mim_vault}
        {ao = held t w.ledger s.active_mim_vault}
        {mi = held t w'.ledger s.pending_mim_vault - held t w.ledger s.pending_mim_vault}
        {ni = held t w'.ledger s.pending_mana_vault - held t w.ledger s.pending_mana_vault}
        {minted = (t.mint w'.ledger s.mana_mint).supply}
        {burnt = (t.mint w.ledger s.mana_mint).supply} b (ap (λ (x : Treasury t). x.key) after)
        (ap (λ (x : Treasury t). x.requests) after)
        (ap (λ (x : TreasuryState). x.pending_mana_supply) state)
        (rw state (HasSameVaults-refl t w.state))
        (record {
          active = omega arith;
          mim = omega (arith, spares.mim);
          mana = omega (arith, spares.mana);
          supply = omega arith;
          program_same = spares.program_same;
          fee_same = spares.fee_same;
        })

  pub IsAdministered-IsBacked :
      (w w' : Treasury t) → IsBacked t w → IsAdministered t w w' → IsBacked t w'
  IsAdministered-IsBacked w w' b same =
      IsBacked-same_requests t w w' {ai = 0} {ao = 0} {mi = 0} {ni = 0} {minted = 0} {burnt = 0} b
        same.key_same same.requests_same same.pending_same same.vaults_same
        (rw same.ledger_same (record {
          active = refl;
          mim = refl;
          mana = refl;
          supply = refl;
          program_same = λ m. refl;
          fee_same = λ m. refl;
        }))
