-- ===== src/Treasury/Reachable.antt =====
-- Every treasury that the instructions of programs/mana-treasury/src/lib.rs can reach from its
-- initialization backs its redemptions.
use mim_swap_sol.Prelude.{
  ℕ, ◌≡◌, ◌≢◌, ◌==◌, refl, ok, require, ok_injective, sym, ap, arith, >>=-elim,
}
use mim_swap_sol.Errors.{Pubkey}
use mim_swap_sol.Token.Interface.{TokenProgram, TokenAccount, Mint}
use mim_swap_sol.Token.Laws.{TransferLaws}
use mim_swap_sol.Token.SupplyLaws.{SupplyLaws}
use mim_swap_sol.Treasury.Errors.{TreasuryError, treasury, Attempt}
use mim_swap_sol.Treasury.State.{Treasury, Clock, mim_mint_key}
use mim_swap_sol.Treasury.Accounts.{DonateAsset}
use mim_swap_sol.Treasury.Router.{asset_transfer}
use mim_swap_sol.Treasury.Runs.{AssetRun, donate_asset-run, swap_asset_to_mim-run}
use mim_swap_sol.Treasury.Admin.{InitializeTreasury, initialize_treasury}
use mim_swap_sol.Treasury.Administration.{
  set_swap_router-IsAdministered, set_cooldown_seconds-IsAdministered,
  set_treasury_authority-IsAdministered, accept_treasury_authority-IsAdministered,
  create_asset_vault-IsAdministered,
}
use mim_swap_sol.Treasury.Holdings.{IsPlain, IsOutside}
use mim_swap_sol.Treasury.Backing.{
  IsBacked, deposit_mim-IsBacked, donate_mim-IsBacked, start_destake-IsBacked,
  finalize_destake-IsBacked,
}
use mim_swap_sol.Treasury.Steps.{
  SparesPending, Step, Reach, SparesPending-IsBacked, IsAdministered-IsBacked,
}

module _ (t : TokenProgram) where
  -- What the accounts of an initialization are: three vaults, and mints without transfer fees.
  pub record IsFoundation (a : InitializeTreasury) (l : t.Ledger) : Type 0 where
    pub active_mim_mim : a.active_mim_vault ≢ a.pending_mim_vault
    pub active_mim_mana : a.active_mim_vault ≢ a.pending_mana_vault
    pub pending_mim_mana : a.pending_mim_vault ≢ a.pending_mana_vault
    pub mim_plain : IsPlain t (t.mint l a.mim_mint)
    pub mana_plain : IsPlain t (t.mint l a.mana_mint)

  initialize_treasury-IsBacked :
      (a : InitializeTreasury) (l : t.Ledger) {w : Treasury t}
      → IsFoundation a l
      → initialize_treasury t a l ≡ ok w
      → IsBacked t w
  unfolding initialize_treasury
  initialize_treasury-IsBacked a l {w} foundation h = >>=-elim (is_mim a.mim_mint) _ h λ _ _ made.
      rw (← ok_injective _ w made) (record {
        vaulted = record {
          active_mim_mim = foundation.active_mim_mim;
          active_mim_mana = foundation.active_mim_mana;
          pending_mim_mana = foundation.pending_mim_mana;
          mim_plain = foundation.mim_plain;
          mana_plain = foundation.mana_plain;
        };
        open_requests = tt;
        mana_counted = refl;
        mana_held = omega arith;
        mim_held = omega arith;
      })
    where
      is_mim : Pubkey → Attempt (Unit {0})
      is_mim k = require (k == mim_mint_key) (treasury TreasuryError.invalid_mim_mint)

  module _ (laws : TransferLaws t) (supplies : SupplyLaws t) where
    donate_asset-SparesPending :
        (clock : Clock) (a : DonateAsset) (amount : ℕ) (w w' : Treasury t)
        → IsOutside t w.state a.donor_asset
        → IsOutside t w.state a.asset_token_account
        → AssetRun t clock a amount w w'
        → SparesPending t w.state w.ledger w'.ledger
    donate_asset-SparesPending clock a amount w w' donor vault run =
        let other =
          λ (k : Pubkey) (no_from : k ≢ a.donor_asset) (no_to : k ≢ a.asset_token_account).
            ap (λ (x : TokenAccount). x.amount)
              (laws.others (asset_transfer a) amount _ clock.epoch w.ledger k {l' = w'.ledger}
                run.moved no_from no_to) in
        let mints = λ (m : Pubkey).
          laws.mints (asset_transfer a) amount _ clock.epoch w.ledger m {l' = w'.ledger}
            run.moved in
        record {
          mim = omega (
            arith,
            other w.state.pending_mim_vault (λ e. donor.pending_mim (sym e))
                (λ e. vault.pending_mim (sym e)),
          );
          mana = omega (
            arith,
            other w.state.pending_mana_vault (λ e. donor.pending_mana (sym e))
                (λ e. vault.pending_mana (sym e)),
          );
          program_same = λ m. ap (λ (x : Mint t.Config). x.token_program) (mints m);
          fee_same = λ m. ap (λ (x : Mint t.Config). x.transfer_fee) (mints m);
        }

    pub Step-IsBacked : {w w' : Treasury t} → Step t w w' → IsBacked t w → IsBacked t w'
    Step-IsBacked {w} {w'} (Step.deposits clock a amount minimum payer receiver h) b =
        deposit_mim-IsBacked t laws supplies clock w b a amount minimum payer receiver h
    Step-IsBacked {w} {w'} (Step.donates clock a amount payer h) b =
        donate_mim-IsBacked t laws supplies clock w b a amount payer h
    Step-IsBacked {w} {w'} (Step.donates_asset clock a amount donor vault _ h) b =
        let run = donate_asset-run t clock a amount w {w' = w'} h in
        SparesPending-IsBacked t w w' b run.after
          (donate_asset-SparesPending clock a amount w w' donor vault run)
    Step-IsBacked {w} {w'} (Step.swaps router metas a amount minimum bytes spares h) b =
        let run = swap_asset_to_mim-run t router metas a amount minimum bytes w {w' = w'} h in
        SparesPending-IsBacked t w w' b run.after (spares _ w'.ledger run.called)
    Step-IsBacked {w} {w'} (Step.starts clock a mana_amount minimum payer h) b =
        start_destake-IsBacked t laws supplies clock w b a mana_amount minimum payer h
    Step-IsBacked {w} {w'} (Step.finishes clock a receiver h) b =
        finalize_destake-IsBacked t laws supplies clock w b a receiver h
    Step-IsBacked {w} {w'} (Step.adds_vault a h) b =
        IsAdministered-IsBacked t w w' b (create_asset_vault-IsAdministered t a w h)
    Step-IsBacked {w} {w'} (Step.sets_router authority router h) b =
        IsAdministered-IsBacked t w w' b (set_swap_router-IsAdministered t authority router w h)
    Step-IsBacked {w} {w'} (Step.sets_cooldown authority seconds h) b =
        IsAdministered-IsBacked t w w' b
          (set_cooldown_seconds-IsAdministered t authority seconds w h)
    Step-IsBacked {w} {w'} (Step.names_authority authority pending h) b =
        IsAdministered-IsBacked t w w' b
          (set_treasury_authority-IsAdministered t authority pending w h)
    Step-IsBacked {w} {w'} (Step.takes_authority authority h) b =
        IsAdministered-IsBacked t w w' b (accept_treasury_authority-IsAdministered t authority w h)
    Step-IsBacked {w} (Step.elsewhere l' spares) b =
        SparesPending-IsBacked t w (record w { ledger = l' }) b refl spares

    pub Reach-IsBacked : {w w' : Treasury t} → Reach t w w' → IsBacked t w → IsBacked t w'
    Reach-IsBacked Reach.here b = b
    Reach-IsBacked (Reach.later step rest) b = Reach-IsBacked rest (Step-IsBacked step b)

    -- Every treasury that any sequence of instructions reaches from an initialization backs its open
    -- redemptions: the pending vaults hold at least the Mana that they locked and the MIM that they
    -- reserved, the state counts that Mana exactly, each request is at its owner's key and
    -- unfinished, and there is one for each owner at most. The token program meets `TransferLaws` and
    -- `SupplyLaws`, the initialization is given three vaults that are apart and mints without
    -- transfer fees, users' accounts are no vaults, and neither the router nor anything outside the
    -- program takes from the pending vaults.
    pub reachable-IsBacked :
        (a : InitializeTreasury) (l : t.Ledger) {w w' : Treasury t}
        → IsFoundation a l
        → initialize_treasury t a l ≡ ok w
        → Reach t w w'
        → IsBacked t w'
    reachable-IsBacked a l {w} {w'} foundation h reach =
        Reach-IsBacked reach (initialize_treasury-IsBacked a l foundation h)
