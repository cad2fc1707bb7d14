-- ===== src/Treasury/Runs/Destake.antt =====
-- The steps of `start_destake` and `finalize_destake` where they succeed.
use mim_swap_sol.Prelude.{
  ℕ, ◌+◌, ◌≤◌, ◌<◌, ◌≡◌, ltb, leb, not, Bool, false, ◌∷◌, u64_max, checked_add, checked_sub, some,
  ok, ok_or, require, arith, >>=-elim,
}
use mim_swap_sol.Prelude.Int.{ℤ, ◌≤ℤ◌, leb_ℤ, as_i64, checked_add_i64}
use mim_swap_sol.Token.Interface.{TokenProgram}
use mim_swap_sol.Treasury.Errors.{TreasuryError, treasury, Attempt, invoke}
use mim_swap_sol.Treasury.State.{
  RedemptionRequest, Treasury, Clock, active_mana_supply, calculate_mim_for_redemption,
}
use mim_swap_sol.Treasury.Accounts.{
  StartDestake, FinalizeDestake, validate_start_destake, validate_finalize_destake,
}
use mim_swap_sol.Treasury.Staking.{
  lock_transfer, reserve_transfer, release_transfer, close, transfer_checked, destake_moves,
  start_destake, release_moves, finalize_destake,
}
use mim_swap_sol.Treasury.Runs.Validations.{
  IsDestakeOf, validate_start_destake-IsDestakeOf, IsFinalOf, validate_finalize_destake-IsFinalOf,
}
use mim_swap_sol.Treasury.Runs.Stake.{transfer_checked-some}

module _ (t : TokenProgram) (clock : Clock) (w : Treasury t) where
  -- The request that `start_destake` opens.
  abbrev pub opened : StartDestake → ℕ → ℕ → ℤ → RedemptionRequest
  opened a mana_amount reserved unlock = record {
    owner = a.owner;
    treasury = w.key;
    mana_amount = mana_amount;
    reserved_mim_amount = reserved;
    unlock_timestamp = unlock;
    finalized = false;
    bump = a.request_bump;
  }

  pub record DestakeRun (a : StartDestake) (mana_amount minimum : ℕ) (w' : Treasury t)
      : Type 0 where
    pub accounts : IsDestakeOf t w a
    pub positive : 0 < mana_amount
    pub supply : ℕ
    pub reserved : ℕ
    pub locked : t.Ledger
    pub unlock : ℤ
    pub active : active_mana_supply (t.mint w.ledger a.mana_mint).supply w.state ≡ ok supply
    pub priced :
        calculate_mim_for_redemption mana_amount
          (t.account w.ledger a.active_mim_vault).amount
          supply
        ≡ ok reserved
    pub enough : minimum ≤ reserved
    pub moved_mana :
        t.transfer_checked
          (lock_transfer a)
          mana_amount
          (t.mint w.ledger a.mana_mint).decimals
          clock.epoch
          w.ledger
        ≡ some locked
    pub moved_mim :
        t.transfer_checked
          (reserve_transfer a)
          reserved
          (t.mint w.ledger a.mim_mint).decimals
          clock.epoch
          locked
        ≡ some w'.ledger
    pub unlocks :
        checked_add_i64 clock.unix_timestamp (as_i64 w.state.cooldown_seconds) ≡ some unlock
    pub state_after :
        w'.state
        ≡ record (w.state) { pending_mana_supply = w.state.pending_mana_supply + mana_amount }
    pub requests_after : w'.requests ≡ (a.owner, opened a mana_amount reserved unlock) ∷ w.requests
    pub key_same : w'.key ≡ w.key

  pub start_destake-run :
      (a : StartDestake) (mana_amount minimum : ℕ) {w' : Treasury t}
      → start_destake t clock a mana_amount minimum w ≡ ok w'
      → DestakeRun a mana_amount minimum w'
  unfolding start_destake destake_moves checked_add
  start_destake-run a mana_amount minimum {w'} h =
      >>=-elim (validate_start_destake t a w) _ h λ _ e0 h0.
        >>=-elim (some_amount mana_amount) _ h0 λ _ e1 h1.
          >>=-elim (active_mana_supply (t.mint w.ledger a.mana_mint).supply w.state) _ h1
            λ supply e2 h2.
              >>=-elim
                (calculate_mim_for_redemption mana_amount
                  (t.account w.ledger a.active_mim_vault).amount supply)
                _ h2
                λ reserved e3 h3. >>=-elim (at_least minimum reserved) _ h3 λ _ e4 h4.
                  >>=-elim (some_out reserved) _ h4 λ _ e5 h5.
                    >>=-elim (destake_moves t clock a mana_amount reserved w) _ h5 λ ledger e6 h6.
                      >>=-elim (raised w.state.pending_mana_supply mana_amount) _ h6
                        λ pending e7 h7.
                          >>=-elim
                            (unlock_of clock.unix_timestamp (as_i64 w.state.cooldown_seconds)) _ h7
                            λ unlock e8 h8.
                              >>=-elim
                                (transfer_checked t clock (lock_transfer a) mana_amount
                                  (t.mint w.ledger a.mana_mint).decimals w.ledger)
                                _ e6
                                λ locked m0 m1.
                                  let mim =
                                    transfer_checked-some t clock (reserve_transfer a) reserved _
                                      locked {l' = ledger} m1 in
                                  record {
                                    accounts = validate_start_destake-IsDestakeOf t w a e0;
                                    positive = ground arith;
                                    supply = supply;
                                    reserved = reserved;
                                    locked = locked;
                                    unlock = unlock;
                                    active = e2;
                                    priced = e3;
                                    enough = ground arith;
                                    moved_mana = transfer_checked-some t clock _ _ _ _ m0;
                                    moved_mim = ground arith;
                                    unlocks = unlock_of-some _ _ e8;
                                    state_after = ground arith;
                                    requests_after = ground arith;
                                    key_same = ground arith;
                                  }
    where
      some_amount : ℕ → Attempt (Unit {0})
      some_amount n = require (ltb 0 n) (treasury TreasuryError.invalid_amount)

      at_least : ℕ → ℕ → Attempt (Unit {0})
      at_least least n = require (leb least n) (treasury TreasuryError.exceeded_slippage)

      some_out : ℕ → Attempt (Unit {0})
      some_out n = require (ltb 0 n) (treasury TreasuryError.zero_mim_out)

      raised : ℕ → ℕ → Attempt ℕ
      raised a b = ok_or (checked_add u64_max a b) (treasury TreasuryError.math_overflow)

      unlock_of : ℤ → ℤ → Attempt ℤ
      unlock_of a b = ok_or (checked_add_i64 a b) (treasury TreasuryError.math_overflow)

      unlock_of-some : (a b : ℤ) {c : ℤ} → unlock_of a b ≡ ok c → checked_add_i64 a b ≡ some c
      unlock_of-some a b {c} e = ground arith

  pub record FinalRun (a : FinalizeDestake) (w' : Treasury t) : Type 0 where
    pub request : RedemptionRequest
    pub accounts : IsFinalOf t w a request
    pub burnt : t.Ledger
    pub not_final : request.finalized ≡ false
    pub due : request.unlock_timestamp ≤ℤ clock.unix_timestamp
    pub burns :
        t.burn a.treasury_authority a.mana_mint a.pending_mana_vault request.mana_amount w.ledger
        ≡ some burnt
    pub moved_mim :
        t.transfer_checked
          (release_transfer a)
          request.reserved_mim_amount
          (t.mint w.ledger a.mim_mint).decimals
          clock.epoch
          burnt
        ≡ some w'.ledger
    pub pending_before :
        w.state.pending_mana_supply ≡ w'.state.pending_mana_supply + request.mana_amount
    pub state_after :
        w'.state ≡ record (w.state) { pending_mana_supply = w'.state.pending_mana_supply }
    pub requests_after : w'.requests ≡ close a.owner w.requests
    pub key_same : w'.key ≡ w.key

  pub finalize_destake-run :
      (a : FinalizeDestake) {w' : Treasury t} → finalize_destake t clock a w ≡ ok w' → FinalRun a w'
  unfolding finalize_destake release_moves checked_sub
  finalize_destake-run a {w'} h = >>=-elim (validate_finalize_destake t a w) _ h λ request e0 h0.
      >>=-elim (open_still request.finalized) _ h0 λ _ e1 h1.
        >>=-elim (is_due request.unlock_timestamp clock.unix_timestamp) _ h1 λ _ e2 h2.
          >>=-elim (release_moves t clock a request w) _ h2 λ ledger e3 h3.
            >>=-elim (lowered w.state.pending_mana_supply request.mana_amount) _ h3 λ pending e4 h4.
              >>=-elim
                (invoke (
                  t.burn a.treasury_authority a.mana_mint a.pending_mana_vault request.mana_amount
                    w.ledger))
                _ e3
                λ burnt m0 m1.
                  let mim =
                    transfer_checked-some t clock (release_transfer a) request.reserved_mim_amount _
                      burnt {l' = ledger} m1 in
                  record {
                    request = request;
                    accounts = validate_finalize_destake-IsFinalOf t w a e0;
                    burnt = burnt;
                    not_final = ground arith;
                    due = ground arith;
                    burns = ground arith;
                    moved_mim = ground arith;
                    pending_before = ground arith;
                    state_after = ground arith;
                    requests_after = ground arith;
                    key_same = ground arith;
                  }
    where
      open_still : Bool → Attempt (Unit {0})
      open_still b = require (not b) (treasury TreasuryError.already_finalized)

      is_due : ℤ → ℤ → Attempt (Unit {0})
      is_due unlock now = require (leb_ℤ unlock now) (treasury TreasuryError.cooldown_active)

      lowered : ℕ → ℕ → Attempt ℕ
      lowered a b = ok_or (checked_sub a b) (treasury TreasuryError.math_overflow)
