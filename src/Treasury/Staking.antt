-- ===== src/Treasury/Staking.antt =====
-- `deposit_mim`, `donate_mim`, `start_destake` and `finalize_destake` of
-- programs/mana-treasury/src/lib.rs. Anchor reads the accounts before a handler begins, so amounts,
-- supplies and decimals are those of the ledger at its start.
use mim_swap_sol.Prelude.{
  ℕ, ◌==◌, ltb, leb, not, if◌then◌else◌, false, List, [], ◌∷◌, u64_max, checked_add, checked_sub,
  ok, ok_or, require, ◌>>=◌, ◌>>◌,
}
use mim_swap_sol.Prelude.Int.{leb_ℤ, as_i64, checked_add_i64}
use mim_swap_sol.Errors.{Pubkey}
use mim_swap_sol.Token.Interface.{TokenProgram, Transfer}
use mim_swap_sol.Treasury.Errors.{TreasuryError, treasury, Attempt, invoke}
use mim_swap_sol.Treasury.State.{
  RedemptionRequest, Treasury, Clock, active_mana_supply, calculate_mana_for_deposit,
  calculate_mim_for_redemption,
}
use mim_swap_sol.Treasury.Accounts.{
  DepositMim, DonateMim, StartDestake, FinalizeDestake, validate_deposit_mim, validate_donate_mim,
  validate_start_destake, validate_finalize_destake,
}

abbrev pub deposit_transfer : DepositMim → Transfer
deposit_transfer a = record {
  program = a.mim_token_program;
  authority = a.depositor;
  from = a.depositor_mim;
  to = a.active_mim_vault;
  mint = a.mim_mint;
}

abbrev pub donate_transfer : DonateMim → Transfer
donate_transfer a = record {
  program = a.mim_token_program;
  authority = a.donor;
  from = a.donor_mim;
  to = a.active_mim_vault;
  mint = a.mim_mint;
}

-- The Mana of a redemption goes to its pending vault.
abbrev pub lock_transfer : StartDestake → Transfer
lock_transfer a = record {
  program = a.mana_token_program;
  authority = a.owner;
  from = a.owner_mana;
  to = a.pending_mana_vault;
  mint = a.mana_mint;
}

-- The MIM of a redemption leaves the active vault for the pending one.
abbrev pub reserve_transfer : StartDestake → Transfer
reserve_transfer a = record {
  program = a.mim_token_program;
  authority = a.treasury_authority;
  from = a.active_mim_vault;
  to = a.pending_mim_vault;
  mint = a.mim_mint;
}

abbrev pub release_transfer : FinalizeDestake → Transfer
release_transfer a = record {
  program = a.mim_token_program;
  authority = a.treasury_authority;
  from = a.pending_mim_vault;
  to = a.owner_mim;
  mint = a.mim_mint;
}

-- `close = owner`: the request's account is gone.
unfoldable pub close {ℓ} : {A : Type ℓ} → Pubkey → List (Pubkey × A) → List (Pubkey × A)
close k [] = []
close k ((j, a) ∷ rest) = if k == j then rest else (j, a) ∷ close k rest

module _ (t : TokenProgram) where
  -- A transfer with the mint's decimals at the start of the instruction.
  unfoldable pub transfer_checked : Clock → Transfer → ℕ → ℕ → t.Ledger → Attempt t.Ledger
  transfer_checked clock accounts amount decimals ledger =
      invoke (t.transfer_checked accounts amount decimals clock.epoch ledger)

  unfoldable pub deposit_mim : Clock → DepositMim → ℕ → ℕ → Treasury t → Attempt (Treasury t)
  deposit_mim clock a amount min_mana_out w = do
    validate_deposit_mim t a w
    require (ltb 0 amount) (treasury TreasuryError.invalid_amount)
    supply ← active_mana_supply (t.mint w.ledger a.mana_mint).supply w.state
    mana_out ←
        calculate_mana_for_deposit amount (t.account w.ledger a.active_mim_vault).amount supply
    require (leb min_mana_out mana_out) (treasury TreasuryError.exceeded_slippage)
    require (ltb 0 mana_out) (treasury TreasuryError.zero_mana_out)
    paid ←
        transfer_checked clock (deposit_transfer a) amount (t.mint w.ledger a.mim_mint).decimals
          w.ledger
    minted ← invoke (t.mint_to a.treasury_authority a.mana_mint a.depositor_mana mana_out paid)
    ok (record w { ledger = minted })

  unfoldable pub donate_mim : Clock → DonateMim → ℕ → Treasury t → Attempt (Treasury t)
  donate_mim clock a amount w = do
    validate_donate_mim t a w
    require (ltb 0 amount) (treasury TreasuryError.invalid_amount)
    paid ←
        transfer_checked clock (donate_transfer a) amount (t.mint w.ledger a.mim_mint).decimals
          w.ledger
    ok (record w { ledger = paid })

  -- The Mana goes into its pending vault, and the MIM that it is worth into the other.
  unfoldable pub destake_moves : Clock → StartDestake → ℕ → ℕ → Treasury t → Attempt t.Ledger
  destake_moves clock a mana_amount reserved_mim w = do
    locked ←
        transfer_checked clock (lock_transfer a) mana_amount (t.mint w.ledger a.mana_mint).decimals
          w.ledger
    transfer_checked clock (reserve_transfer a) reserved_mim (t.mint w.ledger a.mim_mint).decimals
        locked

  unfoldable pub start_destake : Clock → StartDestake → ℕ → ℕ → Treasury t → Attempt (Treasury t)
  start_destake clock a mana_amount min_mim_out w = do
    validate_start_destake t a w
    require (ltb 0 mana_amount) (treasury TreasuryError.invalid_amount)
    supply ← active_mana_supply (t.mint w.ledger a.mana_mint).supply w.state
    reserved_mim ←
        calculate_mim_for_redemption mana_amount (t.account w.ledger a.active_mim_vault).amount
          supply
    require (leb min_mim_out reserved_mim) (treasury TreasuryError.exceeded_slippage)
    require (ltb 0 reserved_mim) (treasury TreasuryError.zero_mim_out)
    ledger ← destake_moves clock a mana_amount reserved_mim w
    pending ←
        ok_or (checked_add u64_max w.state.pending_mana_supply mana_amount)
          (treasury TreasuryError.math_overflow)
    unlock ←
        ok_or (checked_add_i64 clock.unix_timestamp (as_i64 w.state.cooldown_seconds))
          (treasury TreasuryError.math_overflow)
    ok (record w {
      state = record (w.state) { pending_mana_supply = pending };
      requests =
          (
            a.owner,
            record {
              owner = a.owner;
              treasury = w.key;
              mana_amount = mana_amount;
              reserved_mim_amount = reserved_mim;
              unlock_timestamp = unlock;
              finalized = false;
              bump = a.request_bump;
            },
          )
          ∷ w.requests;
      ledger = ledger;
    })

  -- The locked Mana is burnt and the reserved MIM paid to the owner.
  unfoldable pub release_moves :
      Clock → FinalizeDestake → RedemptionRequest → Treasury t → Attempt t.Ledger
  release_moves clock a request w = do
    burnt ←
        invoke (
          t.burn a.treasury_authority a.mana_mint a.pending_mana_vault request.mana_amount w.ledger)
    transfer_checked clock (release_transfer a) request.reserved_mim_amount
        (t.mint w.ledger a.mim_mint).decimals burnt

  -- The request is marked as finalized and its account closed at the end.
  unfoldable pub finalize_destake : Clock → FinalizeDestake → Treasury t → Attempt (Treasury t)
  finalize_destake clock a w = do
    request ← validate_finalize_destake t a w
    require (not request.finalized) (treasury TreasuryError.already_finalized)
    require (leb_ℤ request.unlock_timestamp clock.unix_timestamp)
        (treasury TreasuryError.cooldown_active)
    ledger ← release_moves clock a request w
    pending ←
        ok_or (checked_sub w.state.pending_mana_supply request.mana_amount)
          (treasury TreasuryError.math_overflow)
    ok (record w {
      state = record (w.state) { pending_mana_supply = pending };
      requests = close a.owner w.requests;
      ledger = ledger;
    })
