-- ===== src/Tests/Treasuries.antt =====
-- The theorems about the treasury, at the one of `Tests.Vaults`.
use mim_swap_sol.Prelude.{
  ℕ, ◌≤◌, ◌<◌, ◌≡◌, ◌⊎◌, refl, some, false, checked_add, checked_mul, checked_sub, checked_div,
  narrow, ok, arith,
}
use mim_swap_sol.Prelude.Int.{pos, as_i64, checked_add_i64}
use mim_swap_sol.Token.Simple.{
  simple, simple-TransferLaws, simple-SupplyLaws, transfer_checked, mint_to,
}
use mim_swap_sol.Treasury.State.{
  RedemptionRequest, Treasury, active_mana_supply, calculate_mana_for_deposit,
  calculate_mim_for_redemption,
}
use mim_swap_sol.Treasury.Accounts.{
  find, validate_deposit_mim, validate_donate_mim, validate_start_destake,
}
use mim_swap_sol.Treasury.Staking.{deposit_mim, donate_mim, destake_moves, start_destake}
use mim_swap_sol.Treasury.Staking
use mim_swap_sol.Treasury.Pricing.{deposit-redeem_le}
use mim_swap_sol.Treasury.Holdings.{active_mim}
use mim_swap_sol.Treasury.Prices.{
  active_mana, KeepsPrice, deposit_mim-KeepsPrice, start_destake-KeepsPrice, finalize_destake-same,
}
use mim_swap_sol.Treasury.Backing.{IsBacked}
use mim_swap_sol.Treasury.Steps.{Reach}
use mim_swap_sol.Treasury.Reachable.{Reach-IsBacked, reachable-IsBacked}
use mim_swap_sol.Treasury.Redemption.{
  HasBegun, HasEnded, start_destake-HasBegun, finalize_destake-HasEnded,
}
use mim_swap_sol.Treasury.Lifetime.{WasEnded, request-kept_or_ended}
use mim_swap_sol.Tests.Vaults.{
  ledger, early, late, setup, founded, founds, setup-IsFoundation, deposit, redemption, payout,
  enriched, grown, leaving, left, grows, leaves, ends, history, future, leaving_mim-IsOutside,
  grown-IsOutside, enriched-IsOutside, enriched-IsReached, grown-IsReached,
}

founded-IsBacked : IsBacked simple founded
founded-IsBacked =
    reachable-IsBacked simple simple-TransferLaws simple-SupplyLaws setup ledger setup-IsFoundation
      founds Reach.here

at_later : {w : Treasury simple} → Reach simple founded w → IsBacked simple w
at_later reach = Reach-IsBacked simple simple-TransferLaws simple-SupplyLaws reach founded-IsBacked

reachable-IsBacked_example : IsBacked simple leaving
reachable-IsBacked_example =
    reachable-IsBacked simple simple-TransferLaws simple-SupplyLaws setup ledger setup-IsFoundation
      founds history

-- The request that the owner has in `leaving`.
abbrev request : RedemptionRequest
request = record {
  owner = 6;
  treasury = 40;
  mana_amount = 300;
  reserved_mim_amount = 330;
  unlock_timestamp = pos 260_200;
  finalized = false;
  bump = 253;
}

asked : find 6 leaving.requests ≡ some request
unfolding donate_mim validate_donate_mim deposit_mim validate_deposit_mim active_mana_supply
    calculate_mana_for_deposit Staking.transfer_checked transfer_checked mint_to checked_sub
    checked_mul checked_div narrow start_destake validate_start_destake find destake_moves
    calculate_mim_for_redemption checked_add checked_add_i64 as_i64
asked = refl

request-kept_or_ended_example :
    (find 6 left.requests ≡ some request)
    ⊎ WasEnded simple simple-TransferLaws simple-SupplyLaws 6 request leaving left
request-kept_or_ended_example =
    request-kept_or_ended simple simple-TransferLaws simple-SupplyLaws 6 request (at_later history)
      asked future

finalize_destake-HasEnded_example :
    (r : RedemptionRequest) × (find 6 leaving.requests ≡ some r)
    × HasEnded simple simple-TransferLaws simple-SupplyLaws late leaving payout r left
finalize_destake-HasEnded_example =
    finalize_destake-HasEnded simple simple-TransferLaws simple-SupplyLaws late leaving payout
      (at_later history) leaving_mim-IsOutside ends

start_destake-HasBegun_example :
    HasBegun simple simple-TransferLaws simple-SupplyLaws early grown redemption 300 330 leaving
start_destake-HasBegun_example =
    start_destake-HasBegun simple simple-TransferLaws simple-SupplyLaws early grown redemption 300
      330 (at_later grown-IsReached).vaulted grown-IsOutside leaves

start_destake-KeepsPrice_example : KeepsPrice simple grown leaving
start_destake-KeepsPrice_example =
    start_destake-KeepsPrice simple simple-TransferLaws simple-SupplyLaws early grown redemption 300
      330 (at_later grown-IsReached).vaulted grown-IsOutside leaves

some_active : 0 < active_mana simple enriched
unfolding donate_mim validate_donate_mim deposit_mim validate_deposit_mim active_mana_supply
    calculate_mana_for_deposit Staking.transfer_checked transfer_checked mint_to checked_sub
    checked_mul checked_div narrow
some_active = omega arith

deposit_mim-KeepsPrice_example : KeepsPrice simple enriched grown
deposit_mim-KeepsPrice_example =
    deposit_mim-KeepsPrice simple simple-TransferLaws simple-SupplyLaws early enriched deposit 550
      500 (at_later enriched-IsReached).vaulted enriched-IsOutside.0 enriched-IsOutside.1
      some_active grows

finalize_destake-same_example :
    (active_mim simple left ≡ active_mim simple leaving)
    × (active_mana simple left ≡ active_mana simple leaving)
finalize_destake-same_example =
    finalize_destake-same simple simple-TransferLaws simple-SupplyLaws late leaving payout
      (at_later history).vaulted leaving_mim-IsOutside ends

abbrev thousand : ℕ
thousand = 1_000

minted : calculate_mana_for_deposit 550 1_100 thousand ≡ ok 500
unfolding calculate_mana_for_deposit checked_mul checked_div narrow
minted = refl

redeemed : calculate_mim_for_redemption 500 1_650 1_500 ≡ ok 550
unfolding calculate_mim_for_redemption checked_mul checked_div narrow
redeemed = refl

deposit-redeem_le_example : ◌≤◌ 550 550
deposit-redeem_le_example = deposit-redeem_le 550 1_100 1_000 (omega arith) minted redeemed
