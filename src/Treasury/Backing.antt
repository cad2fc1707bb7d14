-- ===== src/Treasury/Backing.antt =====
-- The redemptions that are open (programs/mana-treasury/src/lib.rs) are backed: the pending vaults
-- hold the Mana and the MIM of all of them, and the state counts the Mana.
use mim_swap_sol.Prelude.{ℕ, ◌≤◌, ◌≡◌, false, refl, ok, ap, arith}
use mim_swap_sol.Errors.{Pubkey}
use mim_swap_sol.Token.Interface.{TokenProgram}
use mim_swap_sol.Token.Laws.{TransferLaws}
use mim_swap_sol.Token.SupplyLaws.{SupplyLaws}
use mim_swap_sol.Treasury.State.{TreasuryState, RedemptionRequest, Treasury, Clock}
use mim_swap_sol.Treasury.Accounts.{DepositMim, DonateMim, StartDestake, FinalizeDestake}
use mim_swap_sol.Treasury.Staking.{deposit_mim, donate_mim, start_destake, finalize_destake}
use mim_swap_sol.Treasury.Requests.{total, AllAt, total-close, AllAt-close}
use mim_swap_sol.Treasury.Runs.{
  deposit_mim-run, donate_mim-run, start_destake-run, finalize_destake-run,
}
use mim_swap_sol.Treasury.Holdings.{
  pending_mim, pending_mana, IsVaulted, IsOutside, HasSameVaults, HasChanged, HasChanged-IsVaulted,
}
use mim_swap_sol.Treasury.Effects.{
  deposit_mim-HasChanged, donate_mim-HasChanged, start_destake-HasChanged,
  finalize_destake-HasChanged,
}

abbrev pub mana_of : RedemptionRequest → ℕ
mana_of r = r.mana_amount

abbrev pub mim_of : RedemptionRequest → ℕ
mim_of r = r.reserved_mim_amount

-- A request is at its owner's key, belongs to the treasury, and is not finished.
abbrev pub IsOpen : Pubkey → Pubkey → RedemptionRequest → Type 0
IsOpen key k r = (r.owner ≡ k) × (r.treasury ≡ key) × (r.finalized ≡ false)

module _ (t : TokenProgram) where
  pub record IsBacked (w : Treasury t) : Type 0 where
    pub vaulted : IsVaulted t w
    pub open_requests : AllAt (IsOpen w.key) w.requests
    pub mana_counted : w.state.pending_mana_supply ≡ total mana_of w.requests
    pub mana_held : total mana_of w.requests ≤ pending_mana t w
    pub mim_held : total mim_of w.requests ≤ pending_mim t w

  -- A step that leaves the requests and takes nothing out of the pending vaults.
  pub IsBacked-same_requests :
      (w w' : Treasury t) {ai ao mi ni minted burnt : ℕ}
      → IsBacked w
      → w'.key ≡ w.key
      → w'.requests ≡ w.requests
      → w'.state.pending_mana_supply ≡ w.state.pending_mana_supply
      → HasSameVaults t w.state w'.state
      → HasChanged t w.state ai ao mi 0 ni 0 minted burnt w.ledger w'.ledger
      → IsBacked w'
  IsBacked-same_requests w w' b key_same requests_same pending_same same changed = record {
    vaulted = HasChanged-IsVaulted t w w' b.vaulted same changed;
    open_requests = rw (key_same, requests_same) b.open_requests;
    mana_counted = rw (requests_same, pending_same) b.mana_counted;
    mana_held = rw (requests_same, same.pending_mana) (omega (arith, b.mana_held, changed.mana));
    mim_held = rw (requests_same, same.pending_mim) (omega (arith, b.mim_held, changed.mim));
  }

  -- A state that differs in nothing that the vaults are about.
  pub HasSameVaults-refl : (s : TreasuryState) → HasSameVaults t s s
  HasSameVaults-refl s = record {
    active_mim = refl;
    pending_mim = refl;
    pending_mana = refl;
    mim_mint = refl;
    mana_mint = refl;
  }

  HasSameVaults-pending :
      (s : TreasuryState) (n : ℕ) → HasSameVaults t s (record s { pending_mana_supply = n })
  HasSameVaults-pending s n = record {
    active_mim = refl;
    pending_mim = refl;
    pending_mana = refl;
    mim_mint = refl;
    mana_mint = refl;
  }

  module _ (laws : TransferLaws t) (supplies : SupplyLaws t) (clock : Clock) (w : Treasury t)
      (b : IsBacked w) where
    pub deposit_mim-IsBacked :
        (a : DepositMim) (amount minimum : ℕ) {w' : Treasury t}
        → IsOutside t w.state a.depositor_mim
        → IsOutside t w.state a.depositor_mana
        → deposit_mim t clock a amount minimum w ≡ ok w'
        → IsBacked w'
    deposit_mim-IsBacked a amount minimum {w'} payer receiver h =
        let run = deposit_mim-run t clock w a amount minimum {w' = w'} h in
        let changed =
          deposit_mim-HasChanged t laws supplies clock w w' b.vaulted a amount minimum payer
            receiver run in
        let state = ap (λ (x : Treasury t). x.state) run.after in
        IsBacked-same_requests w w' b (ap (λ (x : Treasury t). x.key) run.after)
          (ap (λ (x : Treasury t). x.requests) run.after)
          (ap (λ (s : TreasuryState). s.pending_mana_supply) state)
          (rw state (HasSameVaults-refl w.state)) changed

    pub donate_mim-IsBacked :
        (a : DonateMim) (amount : ℕ) {w' : Treasury t}
        → IsOutside t w.state a.donor_mim
        → donate_mim t clock a amount w ≡ ok w'
        → IsBacked w'
    donate_mim-IsBacked a amount {w'} payer h =
        let run = donate_mim-run t clock w a amount {w' = w'} h in
        let changed =
          donate_mim-HasChanged t laws supplies clock w w' b.vaulted a amount payer run in
        let state = ap (λ (x : Treasury t). x.state) run.after in
        IsBacked-same_requests w w' b (ap (λ (x : Treasury t). x.key) run.after)
          (ap (λ (x : Treasury t). x.requests) run.after)
          (ap (λ (s : TreasuryState). s.pending_mana_supply) state)
          (rw state (HasSameVaults-refl w.state)) changed

    pub start_destake-IsBacked :
        (a : StartDestake) (mana_amount minimum : ℕ) {w' : Treasury t}
        → IsOutside t w.state a.owner_mana
        → start_destake t clock a mana_amount minimum w ≡ ok w'
        → IsBacked w'
    start_destake-IsBacked a mana_amount minimum {w'} payer h =
        let run = start_destake-run t clock w a mana_amount minimum {w' = w'} h in
        let changed =
          start_destake-HasChanged t laws supplies clock w w' b.vaulted a mana_amount minimum payer
            run in
        let same : HasSameVaults t w.state w'.state =
          rw run.state_after (HasSameVaults-pending w.state _) in
        let pending = ap (λ (s : TreasuryState). s.pending_mana_supply) run.state_after in
        record {
          vaulted = HasChanged-IsVaulted t w w' b.vaulted same changed;
          open_requests =
              rw (run.key_same, run.requests_after)
                ((refl, refl, refl), run.accounts.is_first, b.open_requests);
          mana_counted = rw run.requests_after (omega (arith, pending, b.mana_counted));
          mana_held =
              rw (run.requests_after, same.pending_mana) (omega (arith, b.mana_held, changed.mana));
          mim_held =
              rw (run.requests_after, same.pending_mim) (omega (arith, b.mim_held, changed.mim));
        }

    pub finalize_destake-IsBacked :
        (a : FinalizeDestake) {w' : Treasury t}
        → IsOutside t w.state a.owner_mim
        → finalize_destake t clock a w ≡ ok w'
        → IsBacked w'
    finalize_destake-IsBacked a {w'} receiver h =
        let run = finalize_destake-run t clock w a {w' = w'} h in
        let changed =
          finalize_destake-HasChanged t laws supplies clock w w' b.vaulted a receiver run in
        let same : HasSameVaults t w.state w'.state =
          rw run.state_after (HasSameVaults-pending w.state _) in
        let mana = total-close mana_of a.owner w.requests run.accounts.found in
        let mim = total-close mim_of a.owner w.requests run.accounts.found in
        record {
          vaulted = HasChanged-IsVaulted t w w' b.vaulted same changed;
          open_requests =
              rw (run.key_same, run.requests_after)
                (AllAt-close (IsOpen w.key) a.owner w.requests b.open_requests);
          mana_counted =
              rw run.requests_after (omega (arith, b.mana_counted, run.pending_before, mana));
          mana_held =
              rw (run.requests_after, same.pending_mana)
                (omega (arith, b.mana_held, changed.mana, mana));
          mim_held =
              rw (run.requests_after, same.pending_mim)
                (omega (arith, b.mim_held, changed.mim, mim));
        }
