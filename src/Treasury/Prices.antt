-- ===== src/Treasury/Prices.antt =====
-- The price of Mana under the instructions of programs/mana-treasury/src/lib.rs: the MIM behind each
-- active Mana does not fall.
use mim_swap_sol.Prelude.{ℕ, ◌+◌, ◌-◌, ◌*◌, ◌≤◌, ◌<◌, ◌≡◌, checked_sub, ok, ap, arith}
use mim_swap_sol.Token.Interface.{TokenProgram}
use mim_swap_sol.Token.Laws.{TransferLaws}
use mim_swap_sol.Token.SupplyLaws.{SupplyLaws}
use mim_swap_sol.Treasury.State.{TreasuryState, Treasury, Clock, active_mana_supply}
use mim_swap_sol.Treasury.Accounts.{DepositMim, DonateMim, StartDestake, FinalizeDestake}
use mim_swap_sol.Treasury.Staking.{deposit_mim, donate_mim, start_destake, finalize_destake}
use mim_swap_sol.Treasury.Pricing.{
  calculate_mana_for_deposit-IsDepositPrice, calculate_mim_for_redemption-IsFloor,
  deposit_price_kept, redemption_price_kept,
}
use mim_swap_sol.Treasury.Runs.{
  deposit_mim-run, donate_mim-run, start_destake-run, finalize_destake-run,
}
use mim_swap_sol.Treasury.Holdings.{held, active_mim, mana_supply, IsVaulted, IsOutside}
use mim_swap_sol.Treasury.Effects.{
  deposit_mim-HasChanged, donate_mim-HasChanged, start_destake-HasChanged,
  finalize_destake-HasChanged,
}

pub active_mana_supply-sub :
    (total : ℕ) (s : TreasuryState) {supply : ℕ}
    → active_mana_supply total s ≡ ok supply
    → total ≡ supply + s.pending_mana_supply
unfolding active_mana_supply checked_sub
active_mana_supply-sub total s {supply} h = ground arith

module _ (t : TokenProgram) where
  -- The Mana that is not given up.
  abbrev pub active_mana : Treasury t → ℕ
  active_mana w = mana_supply t w - w.state.pending_mana_supply

  -- The MIM behind each active Mana after the step is at least that before: as fractions, cross
  -- multiplied.
  abbrev pub KeepsPrice : Treasury t → Treasury t → Type 0
  KeepsPrice w w' = active_mim t w * active_mana w' ≤ active_mim t w' * active_mana w

  module _ (laws : TransferLaws t) (supplies : SupplyLaws t) (clock : Clock) (w : Treasury t) where
    -- A deposit that succeeds when there is active Mana does not lower the MIM behind each active
    -- Mana. The token program meets `TransferLaws` and `SupplyLaws`, the three vaults are apart, MIM
    -- and Mana have no transfer fee, and the depositor's accounts are no vaults.
    pub deposit_mim-KeepsPrice :
        (a : DepositMim) (amount minimum : ℕ) {w' : Treasury t}
        → IsVaulted t w
        → IsOutside t w.state a.depositor_mim
        → IsOutside t w.state a.depositor_mana
        → 0 < active_mana w
        → deposit_mim t clock a amount minimum w ≡ ok w'
        → KeepsPrice w w'
    deposit_mim-KeepsPrice a amount minimum {w'} vaulted payer receiver some_mana h =
        let run = deposit_mim-run t clock w a amount minimum {w' = w'} h in
        let changed =
          deposit_mim-HasChanged t laws supplies clock w w' vaulted a amount minimum payer receiver
            run in
        let state = ap (λ (x : Treasury t). x.state) run.after in
        let priced = rw run.accounts.active_mim_vault at run.priced in
        let price =
          calculate_mana_for_deposit-IsDepositPrice amount (active_mim t w) run.supply priced in
        let split = active_mana_supply-sub _ w.state (rw run.accounts.mana_mint at run.active) in
        let mana_before : run.supply ≡ active_mana w = omega (arith, split) in
        let kept =
          deposit_price_kept amount (active_mim t w) run.supply run.mana_out
            (omega (arith, mana_before)) price in
        let mim_after : held t w'.ledger w.state.active_mim_vault ≡ active_mim t w + amount =
          omega (arith, changed.active) in
        let mana_after : (t.mint w'.ledger w.state.mana_mint).supply - w.state.pending_mana_supply
            ≡ run.supply + run.mana_out =
          omega (arith, changed.supply, split) in
        rw state (rw (mim_after, mana_after, ← mana_before) kept)

    -- A redemption that is begun does not lower the MIM behind each Mana that stays active, though
    -- it may take as much as all active Mana. The token program meets `TransferLaws` and
    -- `SupplyLaws`, the three vaults are apart, MIM and Mana have no transfer fee, and the owner's
    -- Mana account is no vault.
    pub start_destake-KeepsPrice :
        (a : StartDestake) (mana_amount minimum : ℕ) {w' : Treasury t}
        → IsVaulted t w
        → IsOutside t w.state a.owner_mana
        → start_destake t clock a mana_amount minimum w ≡ ok w'
        → KeepsPrice w w'
    start_destake-KeepsPrice a mana_amount minimum {w'} vaulted payer h =
        let run = start_destake-run t clock w a mana_amount minimum {w' = w'} h in
        let changed =
          start_destake-HasChanged t laws supplies clock w w' vaulted a mana_amount minimum payer
            run in
        let priced = rw run.accounts.active_mim_vault at run.priced in
        let (floor, _) =
          calculate_mim_for_redemption-IsFloor mana_amount (active_mim t w) run.supply priced in
        let split = active_mana_supply-sub _ w.state (rw run.accounts.mana_mint at run.active) in
        let mana_before : run.supply ≡ active_mana w = omega (arith, split) in
        let kept =
          redemption_price_kept mana_amount (active_mim t w) run.supply run.reserved
            (held t w'.ledger w.state.active_mim_vault) floor (omega (arith, changed.active)) in
        let mana_after : (t.mint w'.ledger w.state.mana_mint).supply
              - (w.state.pending_mana_supply + mana_amount)
            ≡ run.supply - mana_amount =
          omega (arith, changed.supply, split) in
        rw run.state_after (rw (mana_after, ← mana_before) kept)

    -- A redemption that is finished leaves the active MIM and the active Mana as they were. The token
    -- program meets `TransferLaws` and `SupplyLaws`, the three vaults are apart, MIM and Mana have no
    -- transfer fee, and the account that is paid is no vault.
    pub finalize_destake-same :
        (a : FinalizeDestake) {w' : Treasury t}
        → IsVaulted t w
        → IsOutside t w.state a.owner_mim
        → finalize_destake t clock a w ≡ ok w'
        → (active_mim t w' ≡ active_mim t w) × (active_mana w' ≡ active_mana w)
    finalize_destake-same a {w'} vaulted receiver h =
        let run = finalize_destake-run t clock w a {w' = w'} h in
        let changed =
          finalize_destake-HasChanged t laws supplies clock w w' vaulted a receiver run in
        let vault_same =
          ap (λ (s : TreasuryState). held t w'.ledger s.active_mim_vault) run.state_after in
        let mint_same =
          ap (λ (s : TreasuryState). (t.mint w'.ledger s.mana_mint).supply) run.state_after in
        (
          omega (arith, vault_same, changed.active),
          omega (arith, mint_same, changed.supply, run.pending_before),
        )

    -- A donation raises the active MIM by the amount and leaves the active Mana as it was.
    -- The token program meets `TransferLaws` and `SupplyLaws`, the three vaults are apart, MIM and Mana
    -- have no transfer fee, and the donor's account is no vault.
    pub donate_mim-raises :
        (a : DonateMim) (amount : ℕ) {w' : Treasury t}
        → IsVaulted t w
        → IsOutside t w.state a.donor_mim
        → donate_mim t clock a amount w ≡ ok w'
        → (active_mim t w' ≡ active_mim t w + amount) × (active_mana w' ≡ active_mana w)
    donate_mim-raises a amount {w'} vaulted payer h =
        let run = donate_mim-run t clock w a amount {w' = w'} h in
        let changed = donate_mim-HasChanged t laws supplies clock w w' vaulted a amount payer run in
        let state = ap (λ (x : Treasury t). x.state) run.after in
        let vault_same = ap (λ (s : TreasuryState). held t w'.ledger s.active_mim_vault) state in
        let mana_same =
          ap (λ (s : TreasuryState). (t.mint w'.ledger s.mana_mint).supply - s.pending_mana_supply)
            state in
        (omega (arith, vault_same, changed.active), omega (arith, mana_same, changed.supply))
