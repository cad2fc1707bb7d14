-- ===== src/Treasury/Authority.antt =====
-- What the treasury's authority can do in programs/mana-treasury/src/lib.rs, beside setting numbers:
-- hand itself over, and have assets swapped.
use mim_swap_sol.Prelude.{
  ℕ, ◌+◌, ◌≤◌, ◌<◌, ◌≡◌, ◌≢◌, Option, List, ok, checked_sub, ap, arith, >>=-elim,
}
use mim_swap_sol.Errors.{Pubkey, default_pubkey}
use mim_swap_sol.Token.Interface.{TokenProgram}
use mim_swap_sol.Treasury.State.{Treasury, require_authority}
use mim_swap_sol.Treasury.Accounts.{
  SwapAssetToMim, at_address, validate_asset_vault, validate_swap_asset,
}
use mim_swap_sol.Treasury.Admin.{set_treasury_authority, accept_treasury_authority}
use mim_swap_sol.Treasury.Router.{AccountMeta, Instruction, check_swap_result, swap_asset_to_mim}
use mim_swap_sol.Treasury.Runs.{at_address-eq, swap_asset_to_mim-run}
use mim_swap_sol.Treasury.Holdings.{held, active_mim}

module _ (t : TokenProgram) where
  -- The treasury is handed over in two steps: the authority names a successor, which is not the
  -- default key, and where an account then accepts it is that successor; it has become the
  -- authority, no successor is named any more, and nothing else has changed.
  pub set-accept_handover :
      (authority named successor : Pubkey) (w v w' : Treasury t)
      → set_treasury_authority t authority named w ≡ ok v
      → accept_treasury_authority t successor v ≡ ok w'
      → (authority ≡ w.state.authority)
        × (successor ≡ named)
        × (named ≢ default_pubkey)
        × (w' ≡ record w {
          state = record (w.state) { authority = named; pending_authority = default_pubkey };
        })
  unfolding set_treasury_authority accept_treasury_authority require_authority
  set-accept_handover authority named successor w v w' names accepts = ground arith

  check_swap_result-limits :
      (a : SwapAssetToMim) (amount minimum : ℕ) (before after : t.Ledger)
      → check_swap_result t a amount minimum before after ≡ ok tt
      → (held t before a.asset_token_account ≤ held t after a.asset_token_account + amount)
        × (held t before a.active_mim_vault + minimum ≤ held t after a.active_mim_vault)
  unfolding check_swap_result checked_sub
  check_swap_result-limits a amount minimum before after h = ground arith

  validate_swap_asset-vault :
      (a : SwapAssetToMim) (w : Treasury t)
      → validate_swap_asset t a w ≡ ok tt
      → a.active_mim_vault ≡ w.state.active_mim_vault
  unfolding validate_swap_asset
  validate_swap_asset-vault a w h =
      >>=-elim (validate_asset_vault t a.asset_vault a.asset_mint a.asset_token_account w) _ h
        λ vault e0 h0.
          >>=-elim (at_address vault.token_account a.asset_token_account) _ h0
            λ _ e1 h1. at_address-eq _ _ h1

  -- A swap of an asset that succeeds, whatever the router does, is by the authority and through the
  -- router that the treasury names; the asset's vault has lost no more than the amount, the active
  -- MIM has grown by at least the minimum, which is not 0, and the treasury's state, its requests and
  -- its asset vaults are as they were.
  pub swap_asset_to_mim-limits :
      (router : Instruction → t.Ledger → Option t.Ledger) (metas : List AccountMeta)
      (a : SwapAssetToMim) (amount minimum : ℕ) (bytes : List ℕ) (w : Treasury t) {w' : Treasury t}
      → swap_asset_to_mim t router metas a amount minimum bytes w ≡ ok w'
      → (a.authority ≡ w.state.authority)
        × (a.router_program ≡ w.state.swap_router)
        × (held t w.ledger a.asset_token_account ≤ held t w'.ledger a.asset_token_account + amount)
        × (active_mim t w + minimum ≤ active_mim t w')
        × (0 < minimum)
        × (w' ≡ record w { ledger = w'.ledger })
  swap_asset_to_mim-limits router metas a amount minimum bytes w {w'} h =
      let run = swap_asset_to_mim-run t router metas a amount minimum bytes w {w' = w'} h in
      let (spent, gained) =
        check_swap_result-limits a amount minimum w.ledger w'.ledger run.checked in
      let state = ap (λ (x : Treasury t). x.state) run.after in
      let gained_here = rw (validate_swap_asset-vault a w run.valid) at gained in
      (run.authorized, run.routed, spent, rw state gained_here, run.some_minimum, run.after)
