-- ===== src/Treasury/Redemption.antt =====
-- A redemption from its beginning to its end: `start_destake` and `finalize_destake` of
-- programs/mana-treasury/src/lib.rs.
use mim_swap_sol.Prelude.{
  ℕ, ◌+◌, ◌*◌, ◌≤◌, ◌≡◌, ◌==◌, true, List, ◌∷◌, refl, none, some, ok, err, sym, ap, ◌∙◌, arith,
}
use mim_swap_sol.Prelude.Int.{◌≤ℤ◌, as_i64, checked_add_i64}
use mim_swap_sol.Errors.{Pubkey, AnchorError}
use mim_swap_sol.Curve.FeeLaws.{IsFloor}
use mim_swap_sol.Token.Interface.{TokenProgram, TokenAccount}
use mim_swap_sol.Token.Laws.{TransferLaws}
use mim_swap_sol.Token.SupplyLaws.{SupplyLaws}
use mim_swap_sol.Treasury.Errors.{anchor}
use mim_swap_sol.Treasury.State.{TreasuryState, RedemptionRequest, Treasury, Clock}
use mim_swap_sol.Treasury.Accounts.{StartDestake, FinalizeDestake, find, validate_finalize_destake}
use mim_swap_sol.Treasury.Staking.{
  lock_transfer, reserve_transfer, release_transfer, start_destake, finalize_destake,
}
use mim_swap_sol.Treasury.Pricing.{calculate_mim_for_redemption-IsFloor}
use mim_swap_sol.Treasury.Requests.{find-close_self}
use mim_swap_sol.Treasury.Runs.{start_destake-run, finalize_destake-run, opened}
use mim_swap_sol.Treasury.Holdings.{
  held, active_mim, mana_supply, IsVaulted, IsOutside, IsPlain-same, transfer_checked-HasPaid,
}
use mim_swap_sol.Treasury.Effects.{finalize_destake-HasChanged}
use mim_swap_sol.Treasury.Prices.{active_mana, active_mana_supply-sub}
use mim_swap_sol.Treasury.Backing.{IsOpen, IsBacked}

pub find-cons_self :
    {A : Type 0} (k : Pubkey) (a : A) (xs : List (Pubkey × A)) → find k ((k, a) ∷ xs) ≡ some a
unfolding find
find-cons_self k a xs = rw (same k) refl
  where
    same : (n : ℕ) → (n == n) ≡ true
    same n = ground arith

module _ (t : TokenProgram) (laws : TransferLaws t) (supplies : SupplyLaws t) (clock : Clock)
    (w : Treasury t) where
  -- A redemption that has begun: its request names the owner, locks the Mana that was given up, and
  -- reserves its share of the active MIM by the active Mana, rounded down.
  pub record HasBegun (a : StartDestake) (mana_amount minimum : ℕ) (w' : Treasury t) : Type 0 where
    pub request : RedemptionRequest
    pub found : find a.owner w'.requests ≡ some request
    pub mana : request.mana_amount ≡ mana_amount
    pub share : IsFloor (mana_amount * active_mim t w) (active_mana t w) request.reserved_mim_amount
    pub enough : minimum ≤ request.reserved_mim_amount
    pub unlocks :
        checked_add_i64 clock.unix_timestamp (as_i64 w.state.cooldown_seconds)
        ≡ some request.unlock_timestamp
    pub taken : held t w.ledger a.owner_mana ≡ held t w'.ledger a.owner_mana + mana_amount
    pub was_first : find a.owner w.requests ≡ none

  -- `start_destake` that succeeds takes exactly the Mana named from the owner and opens a request of
  -- the owner, who had none: for that Mana, for its share of the active MIM by the active Mana
  -- rounded down, which is at least the minimum, and to unlock when the cooldown, read as an `i64`,
  -- has passed. The token program meets `TransferLaws`, the three vaults are apart, MIM and Mana
  -- have no transfer fee, and the owner's Mana account is no vault.
  pub start_destake-HasBegun :
      (a : StartDestake) (mana_amount minimum : ℕ) {w' : Treasury t}
      → IsVaulted t w
      → IsOutside t w.state a.owner_mana
      → start_destake t clock a mana_amount minimum w ≡ ok w'
      → HasBegun a mana_amount minimum w'
  start_destake-HasBegun a mana_amount minimum {w'} vaulted payer h =
      let run = start_destake-run t clock w a mana_amount minimum {w' = w'} h in
      let s = w.state in
      let e_mana = run.accounts.pending_mana_vault in
      let e_active = run.accounts.active_mim_vault in
      let e_mim = run.accounts.pending_mim_vault in
      let first =
        transfer_checked-HasPaid t laws (lock_transfer a) mana_amount _ clock.epoch w.ledger
          run.moved_mana (λ e. payer.pending_mana (e ∙ e_mana))
          (rw run.accounts.mana_mint vaulted.mana_plain) in
      let second =
        transfer_checked-HasPaid t laws (reserve_transfer a) run.reserved _ clock.epoch run.locked
          {l' = w'.ledger} run.moved_mim (λ e. vaulted.active_mim_mim (sym e_active ∙ e ∙ e_mim))
          (rw (run.accounts.mim_mint, first.mints_same s.mim_mint) vaulted.mim_plain) in
      let kept =
        second.others a.owner_mana (λ e. payer.active_mim (e ∙ e_active))
          (λ e. payer.pending_mim (e ∙ e_mim)) in
      let priced = rw e_active at run.priced in
      let (floor, _) =
        calculate_mim_for_redemption-IsFloor mana_amount (active_mim t w) run.supply priced in
      let split = active_mana_supply-sub _ s (rw run.accounts.mana_mint at run.active) in
      let mana_before : run.supply ≡ active_mana t w = omega (arith, split) in
      record {
        request = opened t clock w a mana_amount run.reserved run.unlock;
        found = rw run.requests_after (find-cons_self a.owner _ w.requests);
        mana = refl;
        share = rw (← mana_before) floor;
        enough = run.enough;
        unlocks = run.unlocks;
        taken = omega (arith, first.debited, kept);
        was_first = run.accounts.is_first;
      }

  -- A redemption that has ended: its request was due, its MIM is paid out, its Mana is burnt, and it
  -- is gone.
  pub record HasEnded (a : FinalizeDestake) (request : RedemptionRequest) (w' : Treasury t)
      : Type 0 where
    pub due : request.unlock_timestamp ≤ℤ clock.unix_timestamp
    pub paid :
        held t w'.ledger a.owner_mim ≡ held t w.ledger a.owner_mim + request.reserved_mim_amount
    pub burnt : mana_supply t w ≡ mana_supply t w' + request.mana_amount
    pub closed : find a.owner w'.requests ≡ none

  -- `finalize_destake` that succeeds ends the request that its owner had: it was due, the owner's
  -- account gets exactly the MIM that was reserved, the supply of Mana falls by exactly the Mana that
  -- was locked, and the owner has no request any more. The token program meets `TransferLaws` and
  -- `SupplyLaws`, the treasury backs its redemptions, and the account that is paid is no vault.
  pub finalize_destake-HasEnded :
      (a : FinalizeDestake) {w' : Treasury t}
      → IsBacked t w
      → IsOutside t w.state a.owner_mim
      → finalize_destake t clock a w ≡ ok w'
      → (request : RedemptionRequest) × (find a.owner w.requests ≡ some request)
        × HasEnded a request w'
  finalize_destake-HasEnded a {w'} b receiver h =
      let run = finalize_destake-run t clock w a {w' = w'} h in
      let s = w.state in
      let n = run.request.mana_amount in
      let e_mana = run.accounts.pending_mana_vault in
      let e_mim = run.accounts.pending_mim_vault in
      let fees =
        supplies.burn_keeps_fees a.treasury_authority a.mana_mint a.pending_mana_vault n w.ledger
          s.mim_mint {l' = run.burnt} run.burns in
      let kept =
        ap (λ (x : TokenAccount). x.amount)
          (supplies.burn_others a.treasury_authority a.mana_mint a.pending_mana_vault n w.ledger
            a.owner_mim {l' = run.burnt} run.burns (λ e. receiver.pending_mana (e ∙ e_mana))) in
      let paid =
        transfer_checked-HasPaid t laws (release_transfer a) run.request.reserved_mim_amount _
          clock.epoch run.burnt {l' = w'.ledger} run.moved_mim
          (λ e. receiver.pending_mim (sym e ∙ e_mim))
          (rw run.accounts.mim_mint (
            IsPlain-same t (t.mint w.ledger s.mim_mint) (t.mint run.burnt s.mim_mint) fees.0 fees.1
              b.vaulted.mim_plain)) in
      let changed =
        finalize_destake-HasChanged t laws supplies clock w w' b.vaulted a receiver run in
      let mint_same =
        ap (λ (x : TreasuryState). (t.mint w'.ledger x.mana_mint).supply) run.state_after in
      (
        run.request,
        run.accounts.found,
        record {
          due = run.due;
          paid = omega (arith, paid.credited, kept);
          burnt = omega (arith, changed.supply, mint_same);
          closed =
              rw run.requests_after
                (find-close_self (IsOpen w.key) a.owner w.requests b.open_requests);
        },
      )

  -- Without a request of the owner, `finalize_destake` fails as the account does not exist.
  pub finalize_destake-unopened :
      (a : FinalizeDestake)
      → find a.owner w.requests ≡ none
      → finalize_destake t clock a w ≡ err (anchor AnchorError.account_not_initialized)
  unfolding finalize_destake validate_finalize_destake
  finalize_destake-unopened a h = rw h refl
