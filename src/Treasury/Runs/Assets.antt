-- ===== src/Treasury/Runs/Assets.antt =====
-- The steps of `donate_asset` and `swap_asset_to_mim` where they succeed.
use mim_swap_sol.Prelude.{
  ℕ, ◌<◌, ◌≡◌, ◌==◌, ltb, not, Option, List, some, ok, require, arith, >>=-elim,
}
use mim_swap_sol.Errors.{Pubkey, default_pubkey}
use mim_swap_sol.Token.Interface.{TokenProgram}
use mim_swap_sol.Treasury.Errors.{TreasuryError, treasury, Attempt, invoke}
use mim_swap_sol.Treasury.State.{Treasury, Clock, require_authority}
use mim_swap_sol.Treasury.Accounts.{
  DonateAsset, SwapAssetToMim, validate_donate_asset, validate_swap_asset,
}
use mim_swap_sol.Treasury.Staking.{transfer_checked}
use mim_swap_sol.Treasury.Router.{
  AccountMeta, Instruction, asset_transfer, metas_of, donate_asset, check_swap_result,
  swap_asset_to_mim,
}
use mim_swap_sol.Treasury.Runs.Stake.{transfer_checked-some}

module _ (t : TokenProgram) where
  pub record AssetRun (clock : Clock) (a : DonateAsset) (amount : ℕ) (w w' : Treasury t)
      : Type 0 where
    pub moved :
        t.transfer_checked
          (asset_transfer a)
          amount
          (t.mint w.ledger a.asset_mint).decimals
          clock.epoch
          w.ledger
        ≡ some w'.ledger
    pub after : w' ≡ record w { ledger = w'.ledger }

  pub donate_asset-run :
      (clock : Clock) (a : DonateAsset) (amount : ℕ) (w : Treasury t) {w' : Treasury t}
      → donate_asset t clock a amount w ≡ ok w'
      → AssetRun clock a amount w w'
  unfolding donate_asset
  donate_asset-run clock a amount w {w'} h = >>=-elim (validate_donate_asset t a w) _ h λ _ e0 h0.
      >>=-elim (some_amount amount) _ h0 λ _ e1 h1.
        >>=-elim
          (transfer_checked t clock (asset_transfer a) amount
            (t.mint w.ledger a.asset_mint).decimals w.ledger)
          _ h1
          λ paid e2 h2.
            let moved =
              transfer_checked-some t clock (asset_transfer a) amount _ w.ledger {l' = paid} e2 in
            record { moved = ground arith; after = ground arith }
    where
      some_amount : ℕ → Attempt (Unit {0})
      some_amount n = require (ltb 0 n) (treasury TreasuryError.invalid_amount)

  pub record SwapRun (router : Instruction → t.Ledger → Option t.Ledger) (metas : List AccountMeta)
      (a : SwapAssetToMim) (amount minimum : ℕ) (bytes : List ℕ) (w w' : Treasury t) : Type 0 where
    pub authorized : a.authority ≡ w.state.authority
    pub routed : a.router_program ≡ w.state.swap_router
    pub called :
        router
          (record {
            program_id = a.router_program;
            accounts = metas_of a.treasury_authority metas;
            bytes = bytes;
          })
          w.ledger
        ≡ some w'.ledger
    pub checked : check_swap_result t a amount minimum w.ledger w'.ledger ≡ ok tt
    pub valid : validate_swap_asset t a w ≡ ok tt
    pub some_minimum : 0 < minimum
    pub after : w' ≡ record w { ledger = w'.ledger }

  pub swap_asset_to_mim-run :
      (router : Instruction → t.Ledger → Option t.Ledger) (metas : List AccountMeta)
      (a : SwapAssetToMim) (amount minimum : ℕ) (bytes : List ℕ) (w : Treasury t) {w' : Treasury t}
      → swap_asset_to_mim t router metas a amount minimum bytes w ≡ ok w'
      → SwapRun router metas a amount minimum bytes w w'
  unfolding swap_asset_to_mim require_authority
  swap_asset_to_mim-run router metas a amount minimum bytes w {w'} h =
      >>=-elim (validate_swap_asset t a w) _ h λ _ e0 h0.
        >>=-elim (some_amount amount) _ h0 λ _ e1 h1. >>=-elim (some_amount minimum) _ h1 λ _ e2 h2.
          >>=-elim (require_authority w.state a.authority) _ h2 λ _ e3 h3.
            >>=-elim (is_set w.state.swap_router) _ h3 λ _ e4 h4.
              >>=-elim (is_router a.router_program w.state.swap_router) _ h4 λ _ e5 h5.
                >>=-elim
                  (invoke (
                    router
                      (record {
                        program_id = a.router_program;
                        accounts = metas_of a.treasury_authority metas;
                        bytes = bytes;
                      })
                      w.ledger))
                  _ h5
                  λ ledger e6 h6.
                    >>=-elim (check_swap_result t a amount minimum w.ledger ledger) _ h6 λ _ e7 h7.
                      record {
                        authorized = ground arith;
                        routed = ground arith;
                        called = ground arith;
                        checked = ground arith;
                        valid = e0;
                        some_minimum = ground arith;
                        after = ground arith;
                      }
    where
      some_amount : ℕ → Attempt (Unit {0})
      some_amount n = require (ltb 0 n) (treasury TreasuryError.invalid_amount)

      is_set : Pubkey → Attempt (Unit {0})
      is_set k = require (not (k == default_pubkey)) (treasury TreasuryError.swap_router_not_set)

      is_router : Pubkey → Pubkey → Attempt (Unit {0})
      is_router k j = require (k == j) (treasury TreasuryError.invalid_swap_router)
