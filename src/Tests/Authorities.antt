-- ===== src/Tests/Authorities.antt =====
-- The theorems about the treasury's authority, at the treasury of `Tests.Vaults`.
use mim_swap_sol.Prelude.{ℕ, ◌+◌, ◌≤◌, ◌<◌, ◌≡◌, ◌≢◌, refl, Option, some, [], ◌∷◌, checked_sub, ok}
use mim_swap_sol.Errors.{default_pubkey}
use mim_swap_sol.Token.Simple.{SimpleLedger, simple, update, with_amount}
use mim_swap_sol.Treasury.State.{Treasury, require_authority}
use mim_swap_sol.Treasury.Accounts.{SwapAssetToMim, find, validate_asset_vault, validate_swap_asset}
use mim_swap_sol.Treasury.Admin.{set_treasury_authority, accept_treasury_authority}
use mim_swap_sol.Treasury.Router.{Instruction, metas_of, check_swap_result, swap_asset_to_mim}
use mim_swap_sol.Treasury.Holdings.{active_mim, held}
use mim_swap_sol.Treasury.Authority.{set-accept_handover, swap_asset_to_mim-limits}
use mim_swap_sol.Tests.Vaults.{founded, reached}

abbrev offered : Treasury simple
offered = record founded { state = record (founded.state) { pending_authority = 8 } }

abbrev handed : Treasury simple
handed = record founded { state = record (founded.state) { authority = 8 } }

offers : set_treasury_authority simple 3 8 founded ≡ ok offered
unfolding set_treasury_authority require_authority
offers = refl

accepts : accept_treasury_authority simple 8 offered ≡ ok handed
unfolding accept_treasury_authority
accepts = refl

set-accept_handover_example :
    ((let n : ℕ = 3 in n) ≡ founded.state.authority)
    × ((let n : ℕ = 8 in n) ≡ 8)
    × ((let n : ℕ = 8 in n) ≢ default_pubkey)
    × (handed ≡ record founded {
      state = record (founded.state) { authority = 8; pending_authority = default_pubkey };
    })
set-accept_handover_example = set-accept_handover simple 3 8 8 founded offered handed offers accepts

-- The router takes 100 of the asset and gives 80 MIM.
abbrev router : Instruction → SimpleLedger → Option SimpleLedger
router ix l = some (record l {
  accounts =
      update (update l.accounts 55 (with_amount (l.accounts 55) 300)) 50
        (with_amount (l.accounts 50) 80);
})

abbrev stocked : Treasury simple
stocked = record founded {
  state = record (founded.state) { swap_router = 90 };
  asset_vaults = (62, record { treasury = 40; mint = 62; token_account = 55; bump = 1 }) ∷ [];
}

abbrev swap : SwapAssetToMim
swap = record {
  authority = 3;
  treasury_authority = 70;
  asset_mint = 62;
  asset_vault = 62;
  asset_token_account = 55;
  active_mim_vault = 50;
  router_program = 90;
}

abbrev swapped : Treasury simple
swapped = reached founded (swap_asset_to_mim simple router [] swap 100 80 [] stocked)

swaps : swap_asset_to_mim simple router [] swap 100 80 [] stocked ≡ ok swapped
unfolding swap_asset_to_mim validate_swap_asset validate_asset_vault find require_authority metas_of
    check_swap_result checked_sub
swaps = refl

swap_asset_to_mim-limits_example :
    (swap.authority ≡ stocked.state.authority)
    × (swap.router_program ≡ stocked.state.swap_router)
    × (held simple stocked.ledger 55 ≤ held simple swapped.ledger 55 + 100)
    × (active_mim simple stocked + 80 ≤ active_mim simple swapped)
    × (0 < 80)
    × (swapped ≡ record stocked { ledger = swapped.ledger })
swap_asset_to_mim-limits_example =
    swap_asset_to_mim-limits simple router [] swap 100 80 [] stocked swaps
