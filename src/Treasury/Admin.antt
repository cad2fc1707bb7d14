-- ===== src/Treasury/Admin.antt =====
-- The instructions of programs/mana-treasury/src/lib.rs that set the treasury up and that its
-- authority gives: `initialize_treasury`, `create_asset_vault`, `set_swap_router`,
-- `set_cooldown_seconds`, `set_treasury_authority` and `accept_treasury_authority`.
use mim_swap_sol.Prelude.{ℕ, ◌==◌, not, [], ◌∷◌, ok, require, ◌>>◌}
use mim_swap_sol.Errors.{Pubkey, default_pubkey}
use mim_swap_sol.Token.Interface.{TokenProgram}
use mim_swap_sol.Treasury.Errors.{TreasuryError, treasury, Attempt}
use mim_swap_sol.Treasury.State.{
  Treasury, default_cooldown_seconds, mim_mint_key, require_authority,
}
use mim_swap_sol.Treasury.Accounts.{find, is_new}

pub record InitializeTreasury : Type 0 where
  pub authority : Pubkey
  pub treasury_state : Pubkey
  pub mim_mint : Pubkey
  pub mana_mint : Pubkey
  pub active_mim_vault : Pubkey
  pub pending_mim_vault : Pubkey
  pub pending_mana_vault : Pubkey
  pub treasury_state_bump : ℕ
  pub treasury_authority_bump : ℕ

pub record CreateAssetVault : Type 0 where
  pub authority : Pubkey
  pub asset_mint : Pubkey
  pub asset_token_account : Pubkey
  pub asset_vault_bump : ℕ

module _ (t : TokenProgram) where
  -- `ledger` is the one after Anchor has created the Mana mint and the three vaults. The build is
  -- the one without `local-testing`.
  unfoldable pub initialize_treasury : InitializeTreasury → t.Ledger → Attempt (Treasury t)
  initialize_treasury a ledger = do
    require (a.mim_mint == mim_mint_key) (treasury TreasuryError.invalid_mim_mint)
    ok (record {
      key = a.treasury_state;
      state = record {
        authority = a.authority;
        pending_authority = default_pubkey;
        mim_mint = a.mim_mint;
        mana_mint = a.mana_mint;
        active_mim_vault = a.active_mim_vault;
        pending_mim_vault = a.pending_mim_vault;
        pending_mana_vault = a.pending_mana_vault;
        cooldown_seconds = default_cooldown_seconds;
        swap_router = default_pubkey;
        pending_mana_supply = 0;
        bump = a.treasury_state_bump;
        authority_bump = a.treasury_authority_bump;
      };
      requests = [];
      asset_vaults = [];
      ledger = ledger;
    })

  -- The vault of an asset must be new.
  unfoldable pub create_asset_vault : CreateAssetVault → Treasury t → Attempt (Treasury t)
  create_asset_vault a w = do
    is_new (find a.asset_mint w.asset_vaults)
    require_authority w.state a.authority
    require (not (a.asset_mint == w.state.mim_mint)) (treasury TreasuryError.invalid_asset_mint)
    ok (record w {
      asset_vaults =
          (
            a.asset_mint,
            record {
              treasury = w.key;
              mint = a.asset_mint;
              token_account = a.asset_token_account;
              bump = a.asset_vault_bump;
            },
          )
          ∷ w.asset_vaults;
    })

  unfoldable pub set_swap_router : Pubkey → Pubkey → Treasury t → Attempt (Treasury t)
  set_swap_router authority router w = do
    require_authority w.state authority
    ok (record w { state = record (w.state) { swap_router = router } })

  unfoldable pub set_cooldown_seconds : Pubkey → ℕ → Treasury t → Attempt (Treasury t)
  set_cooldown_seconds authority cooldown_seconds w = do
    require_authority w.state authority
    ok (record w { state = record (w.state) { cooldown_seconds = cooldown_seconds } })

  unfoldable pub set_treasury_authority : Pubkey → Pubkey → Treasury t → Attempt (Treasury t)
  set_treasury_authority authority pending_authority w = do
    require_authority w.state authority
    require (not (pending_authority == default_pubkey)) (treasury TreasuryError.invalid_authority)
    ok (record w { state = record (w.state) { pending_authority = pending_authority } })

  unfoldable pub accept_treasury_authority : Pubkey → Treasury t → Attempt (Treasury t)
  accept_treasury_authority new_authority w = do
    require (new_authority == w.state.pending_authority) (treasury TreasuryError.invalid_authority)
    ok (record w {
      state = record (w.state) { authority = new_authority; pending_authority = default_pubkey };
    })
