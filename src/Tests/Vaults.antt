-- ===== src/Tests/Vaults.antt =====
-- A treasury on the concrete ledger of `Token.Simple`: it is initialized, takes two deposits and a
-- donation, and one redemption is begun and finished.
use mim_swap_sol.Prelude.{
  some, ℕ, ◌≡◌, ◌==◌, if◌then◌else◌, refl, none, [], inl, ok, err, panic, checked_add, checked_mul,
  checked_sub, checked_div, narrow, arith,
}
use mim_swap_sol.Prelude.Int.{pos, as_i64, checked_add_i64}
use mim_swap_sol.Errors.{Pubkey}
use mim_swap_sol.Token.Interface.{TokenAccount, Mint}
use mim_swap_sol.Token.Simple.{SimpleLedger, simple, classic_id, transfer_checked, mint_to, burn}
use mim_swap_sol.Treasury.Errors.{Attempt}
use mim_swap_sol.Treasury.State.{
  Treasury, Clock, mim_mint_key, active_mana_supply, calculate_mana_for_deposit,
  calculate_mim_for_redemption,
}
use mim_swap_sol.Treasury.Accounts.{
  DepositMim, DonateMim, StartDestake, FinalizeDestake, find, validate_deposit_mim,
  validate_donate_mim, validate_start_destake, validate_finalize_destake,
}
use mim_swap_sol.Treasury.Staking.{
  close, deposit_mim, donate_mim, destake_moves, start_destake, release_moves, finalize_destake,
}
use mim_swap_sol.Treasury.Staking
use mim_swap_sol.Treasury.Admin.{InitializeTreasury, initialize_treasury}
use mim_swap_sol.Treasury.Holdings.{IsOutside}
use mim_swap_sol.Treasury.Steps.{Reach, Step}
use mim_swap_sol.Treasury.Reachable.{IsFoundation}

abbrev token : Pubkey → Pubkey → ℕ → TokenAccount
token mint owner amount = record { mint = mint; owner = owner; amount = amount }

-- The vaults are 50, 51 and 52, Mana is mint 61, and the user 6 has MIM at 12 and Mana at 13. The
-- asset of mint 62 is in the vault 55.
abbrev token_accounts : Pubkey → TokenAccount
token_accounts k =
    if k == 50
    then token mim_mint_key 70 0
    else if k == 51
    then token mim_mint_key 70 0
    else if k == 52
    then token 61 70 0
    else if k == 12
    then token mim_mint_key 6 10_000
    else if k == 13
    then token 61 6 0
    else token 62 70 400

abbrev mints : Pubkey → Mint ℕ
mints k = record {
  token_program = classic_id;
  decimals = 6;
  supply = 0;
  transfer_fee = none;
  extensions = some [];
}

abbrev pub ledger : SimpleLedger
ledger = record { accounts = token_accounts; mints = mints }

abbrev pub early : Clock
early = record { unix_timestamp = pos 1000; epoch = 7 }

abbrev pub late : Clock
late = record { unix_timestamp = pos 300_000; epoch = 8 }

abbrev pub reached : Treasury simple → Attempt (Treasury simple) → Treasury simple
reached w (ok v) = v
reached w (err _) = w
reached w panic = w

abbrev pub setup : InitializeTreasury
setup = record {
  authority = 3;
  treasury_state = 40;
  mim_mint = mim_mint_key;
  mana_mint = 61;
  active_mim_vault = 50;
  pending_mim_vault = 51;
  pending_mana_vault = 52;
  treasury_state_bump = 255;
  treasury_authority_bump = 254;
}

abbrev pub founded : Treasury simple
founded = record {
  key = 40;
  state = record {
    authority = 3;
    pending_authority = 0;
    mim_mint = mim_mint_key;
    mana_mint = 61;
    active_mim_vault = 50;
    pending_mim_vault = 51;
    pending_mana_vault = 52;
    cooldown_seconds = 259_200;
    swap_router = 0;
    pending_mana_supply = 0;
    bump = 255;
    authority_bump = 254;
  };
  requests = [];
  asset_vaults = [];
  ledger = ledger;
}

pub founds : initialize_treasury simple setup ledger ≡ ok founded
unfolding initialize_treasury
founds = refl

pub setup-IsFoundation : IsFoundation simple setup ledger
setup-IsFoundation = record {
  active_mim_mim = λ e. omega (arith, e);
  active_mim_mana = λ e. omega (arith, e);
  pending_mim_mana = λ e. omega (arith, e);
  mim_plain = inl refl;
  mana_plain = inl refl;
}

abbrev pub deposit : DepositMim
deposit = record {
  depositor = 6;
  treasury_authority = 70;
  mim_mint = mim_mint_key;
  mana_mint = 61;
  depositor_mim = 12;
  depositor_mana = 13;
  active_mim_vault = 50;
  mim_token_program = classic_id;
}

abbrev pub donation : DonateMim
donation = record {
  donor = 6;
  mim_mint = mim_mint_key;
  donor_mim = 12;
  active_mim_vault = 50;
  mim_token_program = classic_id;
}

abbrev pub redemption : StartDestake
redemption = record {
  owner = 6;
  treasury_authority = 70;
  mim_mint = mim_mint_key;
  mana_mint = 61;
  owner_mana = 13;
  pending_mana_vault = 52;
  active_mim_vault = 50;
  pending_mim_vault = 51;
  request_bump = 253;
  mim_token_program = classic_id;
  mana_token_program = classic_id;
}

abbrev pub payout : FinalizeDestake
payout = record {
  owner = 6;
  treasury_authority = 70;
  mim_mint = mim_mint_key;
  mana_mint = 61;
  pending_mim_vault = 51;
  pending_mana_vault = 52;
  owner_mim = 12;
  mim_token_program = classic_id;
}

pub mim-IsOutside : IsOutside simple founded.state 12
mim-IsOutside = record {
  active_mim = λ e. omega (arith, e);
  pending_mim = λ e. omega (arith, e);
  pending_mana = λ e. omega (arith, e);
}

pub mana-IsOutside : IsOutside simple founded.state 13
mana-IsOutside = record {
  active_mim = λ e. omega (arith, e);
  pending_mim = λ e. omega (arith, e);
  pending_mana = λ e. omega (arith, e);
}

-- 1_000 MIM for as much Mana, a gift of 100, 550 MIM for 500 Mana, and 300 Mana for 330 MIM.
abbrev pub staked : Treasury simple
staked = reached founded (deposit_mim simple early deposit 1_000 1_000 founded)

abbrev pub enriched : Treasury simple
enriched = reached founded (donate_mim simple early donation 100 staked)

abbrev pub grown : Treasury simple
grown = reached founded (deposit_mim simple early deposit 550 500 enriched)

abbrev pub leaving : Treasury simple
leaving = reached founded (start_destake simple early redemption 300 330 grown)

abbrev pub left : Treasury simple
left = reached founded (finalize_destake simple late payout leaving)

pub stakes : deposit_mim simple early deposit 1_000 1_000 founded ≡ ok staked
unfolding deposit_mim validate_deposit_mim active_mana_supply calculate_mana_for_deposit
    Staking.transfer_checked transfer_checked mint_to checked_sub checked_mul checked_div narrow
stakes = refl

pub enriches : donate_mim simple early donation 100 staked ≡ ok enriched
unfolding donate_mim validate_donate_mim deposit_mim validate_deposit_mim active_mana_supply
    calculate_mana_for_deposit Staking.transfer_checked transfer_checked mint_to checked_sub
    checked_mul checked_div narrow
enriches = refl

pub grows : deposit_mim simple early deposit 550 500 enriched ≡ ok grown
unfolding donate_mim validate_donate_mim deposit_mim validate_deposit_mim active_mana_supply
    calculate_mana_for_deposit Staking.transfer_checked transfer_checked mint_to checked_sub
    checked_mul checked_div narrow
grows = refl

pub leaves : start_destake simple early redemption 300 330 grown ≡ ok leaving
unfolding donate_mim validate_donate_mim deposit_mim validate_deposit_mim active_mana_supply
    calculate_mana_for_deposit Staking.transfer_checked transfer_checked mint_to checked_sub
    checked_mul checked_div narrow start_destake validate_start_destake find destake_moves
    calculate_mim_for_redemption checked_add checked_add_i64 as_i64
leaves = refl

pub ends : finalize_destake simple late payout leaving ≡ ok left
unfolding donate_mim validate_donate_mim deposit_mim validate_deposit_mim active_mana_supply
    calculate_mana_for_deposit Staking.transfer_checked transfer_checked mint_to checked_sub
    checked_mul checked_div narrow start_destake validate_start_destake find destake_moves
    calculate_mim_for_redemption checked_add checked_add_i64 as_i64 finalize_destake
    validate_finalize_destake release_moves burn close
ends = refl

pub history : Reach simple founded leaving
unfolding donate_mim deposit_mim validate_deposit_mim active_mana_supply checked_sub
    calculate_mana_for_deposit Staking.transfer_checked transfer_checked mint_to start_destake
    validate_donate_mim checked_mul checked_div narrow
history =
    Reach.later (Step.deposits early deposit 1_000 1_000 mim-IsOutside mana-IsOutside stakes) (
      Reach.later (Step.donates early donation 100 mim-IsOutside enriches) (
        Reach.later (Step.deposits early deposit 550 500 mim-IsOutside mana-IsOutside grows)
          (Reach.later (Step.starts early redemption 300 330 mana-IsOutside leaves) Reach.here)))

pub leaving_mim-IsOutside : IsOutside simple leaving.state 12
unfolding donate_mim deposit_mim validate_deposit_mim active_mana_supply checked_sub
    calculate_mana_for_deposit Staking.transfer_checked transfer_checked mint_to start_destake
    validate_donate_mim checked_mul checked_div narrow validate_start_destake find destake_moves
    calculate_mim_for_redemption checked_add checked_add_i64 as_i64
leaving_mim-IsOutside = record {
  active_mim = mim-IsOutside.active_mim;
  pending_mim = mim-IsOutside.pending_mim;
  pending_mana = mim-IsOutside.pending_mana;
}

pub future : Reach simple leaving left
future = Reach.later (Step.finishes late payout leaving_mim-IsOutside ends) Reach.here

pub grown-IsOutside : IsOutside simple grown.state 13
unfolding donate_mim validate_donate_mim deposit_mim validate_deposit_mim active_mana_supply
    calculate_mana_for_deposit Staking.transfer_checked transfer_checked mint_to checked_sub
    checked_mul checked_div narrow
grown-IsOutside = mana-IsOutside

pub enriched-IsOutside : IsOutside simple enriched.state 12 × IsOutside simple enriched.state 13
unfolding donate_mim validate_donate_mim deposit_mim validate_deposit_mim active_mana_supply
    calculate_mana_for_deposit Staking.transfer_checked transfer_checked mint_to checked_sub
    checked_mul checked_div narrow
enriched-IsOutside = (mim-IsOutside, mana-IsOutside)

-- What `history` passes through.
pub enriched-IsReached : Reach simple founded enriched
unfolding donate_mim deposit_mim validate_deposit_mim active_mana_supply checked_sub
    calculate_mana_for_deposit Staking.transfer_checked transfer_checked mint_to validate_donate_mim
    checked_mul checked_div narrow
enriched-IsReached =
    Reach.later (Step.deposits early deposit 1_000 1_000 mim-IsOutside mana-IsOutside stakes)
      (Reach.later (Step.donates early donation 100 mim-IsOutside enriches) Reach.here)

pub grown-IsReached : Reach simple founded grown
unfolding donate_mim deposit_mim validate_deposit_mim active_mana_supply checked_sub
    calculate_mana_for_deposit Staking.transfer_checked transfer_checked mint_to validate_donate_mim
    checked_mul checked_div narrow
grown-IsReached =
    Reach.later (Step.deposits early deposit 1_000 1_000 mim-IsOutside mana-IsOutside stakes) (
      Reach.later (Step.donates early donation 100 mim-IsOutside enriches) (
        Reach.later (Step.deposits early deposit 550 500 mim-IsOutside mana-IsOutside grows)
          Reach.here))
