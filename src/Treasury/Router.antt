-- ===== src/Treasury/Router.antt =====
-- `donate_asset` and `swap_asset_to_mim` of programs/mana-treasury/src/lib.rs. The swap router is a
-- program outside the repository: a parameter, which takes an instruction and changes the ledger or
-- refuses.
use mim_swap_sol.Prelude.{
  ℕ, ◌==◌, ltb, leb, ◌||◌, not, Bool, List, [], ◌∷◌, Option, checked_sub, ok, ok_or, require, ◌>>=◌,
  ◌>>◌,
}
use mim_swap_sol.Errors.{Pubkey, default_pubkey}
use mim_swap_sol.Token.Interface.{TokenProgram, Transfer}
use mim_swap_sol.Treasury.Errors.{TreasuryError, treasury, Attempt, invoke}
use mim_swap_sol.Treasury.State.{Treasury, Clock, require_authority}
use mim_swap_sol.Treasury.Accounts.{
  DonateAsset, SwapAssetToMim, validate_donate_asset, validate_swap_asset,
}
use mim_swap_sol.Treasury.Staking.{transfer_checked}

abbrev pub asset_transfer : DonateAsset → Transfer
asset_transfer a = record {
  program = a.asset_token_program;
  authority = a.donor;
  from = a.donor_asset;
  to = a.asset_token_account;
  mint = a.asset_mint;
}

-- A remaining account of the transaction, and as it is passed to the router.
pub record AccountMeta : Type 0 where
  pub pubkey : Pubkey
  pub is_signer : Bool
  pub is_writable : Bool

pub record Instruction : Type 0 where
  pub program_id : Pubkey
  pub accounts : List AccountMeta
  pub bytes : List ℕ

-- The treasury's authority signs for itself.
unfoldable pub metas_of : Pubkey → List AccountMeta → List AccountMeta
metas_of authority [] = []
metas_of authority (m ∷ ms) =
    record m { is_signer = m.is_signer || m.pubkey == authority } ∷ metas_of authority ms

module _ (t : TokenProgram) where
  unfoldable pub donate_asset : Clock → DonateAsset → ℕ → Treasury t → Attempt (Treasury t)
  donate_asset clock a amount w = do
    validate_donate_asset t a w
    require (ltb 0 amount) (treasury TreasuryError.invalid_amount)
    paid ←
        transfer_checked t clock (asset_transfer a) amount (t.mint w.ledger a.asset_mint).decimals
          w.ledger
    ok (record w { ledger = paid })

  -- Both accounts are read again after the router's call.
  unfoldable pub check_swap_result :
      SwapAssetToMim → ℕ → ℕ → t.Ledger → t.Ledger → Attempt (Unit {0})
  check_swap_result a amount min_mim_out before after = do
    asset_spent ←
        ok_or
          (checked_sub (t.account before a.asset_token_account).amount
            (t.account after a.asset_token_account).amount)
          (treasury TreasuryError.invalid_swap_result)
    mim_out ←
        ok_or
          (checked_sub (t.account after a.active_mim_vault).amount
            (t.account before a.active_mim_vault).amount)
          (treasury TreasuryError.invalid_swap_result)
    require (leb asset_spent amount) (treasury TreasuryError.invalid_swap_result)
    require (leb min_mim_out mim_out) (treasury TreasuryError.exceeded_slippage)

  unfoldable pub swap_asset_to_mim :
      (Instruction → t.Ledger → Option t.Ledger)
      → List AccountMeta
      → SwapAssetToMim
      → ℕ
      → ℕ
      → List ℕ
      → Treasury t
      → Attempt (Treasury t)
  swap_asset_to_mim router remaining_accounts a amount min_mim_out router_ix_data w = do
    validate_swap_asset t a w
    require (ltb 0 amount) (treasury TreasuryError.invalid_amount)
    require (ltb 0 min_mim_out) (treasury TreasuryError.invalid_amount)
    require_authority w.state a.authority
    require (not (w.state.swap_router == default_pubkey))
        (treasury TreasuryError.swap_router_not_set)
    require (a.router_program == w.state.swap_router) (treasury TreasuryError.invalid_swap_router)
    after ← invoke (
        router
          (record {
            program_id = a.router_program;
            accounts = metas_of a.treasury_authority remaining_accounts;
            bytes = router_ix_data;
          })
          w.ledger)
    check_swap_result a amount min_mim_out w.ledger after
    ok (record w { ledger = after })
