-- ===== src/Treasury/Administration.antt =====
-- What the instructions of programs/mana-treasury/src/lib.rs that its authority gives leave as it is.
use mim_swap_sol.Prelude.{ℕ, ◌≡◌, ok, arith, >>=-elim}
use mim_swap_sol.Errors.{Pubkey}
use mim_swap_sol.Token.Interface.{TokenProgram}
use mim_swap_sol.Treasury.State.{Treasury, require_authority}
use mim_swap_sol.Treasury.Accounts.{find, is_new}
use mim_swap_sol.Treasury.Admin.{
  CreateAssetVault, create_asset_vault, set_swap_router, set_cooldown_seconds,
  set_treasury_authority, accept_treasury_authority,
}
use mim_swap_sol.Treasury.Holdings.{HasSameVaults}

module _ (t : TokenProgram) where
  -- What an instruction of the authority leaves as it is.
  pub record IsAdministered (w w' : Treasury t) : Type 0 where
    pub key_same : w'.key ≡ w.key
    pub requests_same : w'.requests ≡ w.requests
    pub ledger_same : w'.ledger ≡ w.ledger
    pub pending_same : w'.state.pending_mana_supply ≡ w.state.pending_mana_supply
    pub vaults_same : HasSameVaults t w.state w'.state

  pub set_swap_router-IsAdministered :
      (authority router : Pubkey) (w : Treasury t) {w' : Treasury t}
      → set_swap_router t authority router w ≡ ok w'
      → IsAdministered w w'
  unfolding set_swap_router require_authority
  set_swap_router-IsAdministered authority router w {w'} h = ground arith

  pub set_cooldown_seconds-IsAdministered :
      (authority : Pubkey) (seconds : ℕ) (w : Treasury t) {w' : Treasury t}
      → set_cooldown_seconds t authority seconds w ≡ ok w'
      → IsAdministered w w'
  unfolding set_cooldown_seconds require_authority
  set_cooldown_seconds-IsAdministered authority seconds w {w'} h = ground arith

  pub set_treasury_authority-IsAdministered :
      (authority pending : Pubkey) (w : Treasury t) {w' : Treasury t}
      → set_treasury_authority t authority pending w ≡ ok w'
      → IsAdministered w w'
  unfolding set_treasury_authority require_authority
  set_treasury_authority-IsAdministered authority pending w {w'} h = ground arith

  pub accept_treasury_authority-IsAdministered :
      (authority : Pubkey) (w : Treasury t) {w' : Treasury t}
      → accept_treasury_authority t authority w ≡ ok w'
      → IsAdministered w w'
  unfolding accept_treasury_authority
  accept_treasury_authority-IsAdministered authority w {w'} h = ground arith

  pub create_asset_vault-IsAdministered :
      (a : CreateAssetVault) (w : Treasury t) {w' : Treasury t}
      → create_asset_vault t a w ≡ ok w'
      → IsAdministered w w'
  unfolding create_asset_vault require_authority
  create_asset_vault-IsAdministered a w {w'} h =
      >>=-elim (is_new (find a.asset_mint w.asset_vaults)) _ h λ _ e0 h0. ground arith
