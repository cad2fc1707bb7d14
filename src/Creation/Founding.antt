-- ===== src/Creation/Founding.antt =====
-- What a new pool (programs/cp-swap/src/instructions/initialize.rs, initialize_with_permission.rs) is
-- like: it has the properties that swaps, deposits and withdrawals keep.
use mim_swap_sol.Prelude.{
  ℕ, ◌+◌, ◌*◌, ◌≤◌, ◌<◌, ◌≡◌, ◌≢◌, ◌==◌, ltb, not, Bool, true, false, Option, List, some, refl,
  ok_injective, checked_sub, ok, ok_or, require, sym, ap, ◌∙◌, arith, >>=-elim,
}
use mim_swap_sol.Errors.{Pubkey, ErrorCode, AnchorError, code, anchor, Result}
use mim_swap_sol.Token.Interface.{TokenProgram, TokenAccount, Mint}
use mim_swap_sol.Token.Calls.{AccountInfo, token_mint_to}
use mim_swap_sol.Token.Laws.{TransferLaws}
use mim_swap_sol.Token.SupplyLaws.{SupplyLaws}
use mim_swap_sol.States.Pool.{CreatorFeeOn, initialize}
use mim_swap_sol.States.PoolLaws.{fees_0, fees_1, IsSolvent}
use mim_swap_sol.States.Config.{AmmConfig}
use mim_swap_sol.Swap.Accounts.{Clock, World}
use mim_swap_sol.Swap.SettleLaws.{amount}
use mim_swap_sol.Swap.Safety.{vault_0, vault_1}
use mim_swap_sol.Creation.System.{SystemProgram}
use mim_swap_sol.Creation.Accounts.{Program, Permission, CreationAccounts}
use mim_swap_sol.Creation.Root.{opening-later, IsSqrt, initial_liquidity-root}
use mim_swap_sol.Creation.Handlers.{
  opening, initial_liquidity, validate_creation, check_mints, fill_vaults, charge_pool_fee,
  found_pool, handle_initialize, handle_initialize_with_permission, lock_lp_amount,
}
use mim_swap_sol.Creation.SystemLaws.{
  SystemLaws, call-some, charge_pool_fee-others, charge_pool_fee-mints,
}
use mim_swap_sol.Creation.Mints.{fill_vaults-mints}

module _ (t : TokenProgram) (s : SystemProgram t) where
  -- The accounts that are paid after the vaults are filled are not the vaults.
  pub record IsCreationApart (a : CreationAccounts) : Type 0 where
    pub lp_vault_0 : a.payer_lp_token ≢ a.token_0_vault
    pub lp_vault_1 : a.payer_lp_token ≢ a.token_1_vault
    pub fee_vault_0 : a.create_pool_fee ≢ a.token_0_vault
    pub fee_vault_1 : a.create_pool_fee ≢ a.token_1_vault

  module _ (system : SystemLaws t s) (program : Program) (config : AmmConfig) (clock : Clock) where
    -- A pool as `creator` founds it on the ledger `l`, with the creator's fee on or off. Its lp supply
    -- is the root of the product of the vaults, and the supply of its lp mint grows by what the pool
    -- counts, less what stays locked.
    pub record IsFounded (creator : Pubkey) (with_creator_fee : Bool) (l : t.Ledger) (w' : World t)
        : Type 0 where
      pub solvent : IsSolvent (vault_0 t w') (vault_1 t w') w'.pool
      pub owes_no_0 : fees_0 w'.pool ≡ 0
      pub owes_no_1 : fees_1 w'.pool ≡ 0
      pub some_0 : 0 < vault_0 t w'
      pub some_1 : 0 < vault_1 t w'
      pub root_below : w'.pool.lp_supply * w'.pool.lp_supply ≤ vault_0 t w' * vault_1 t w'
      pub root_above :
          vault_0 t w' * vault_1 t w' < (w'.pool.lp_supply + 1) * (w'.pool.lp_supply + 1)
      pub enough : lock_lp_amount ≤ w'.pool.lp_supply
      pub counted :
          (t.mint w'.ledger w'.pool.lp_mint).supply + lock_lp_amount
          ≡ (t.mint l w'.pool.lp_mint).supply + w'.pool.lp_supply
      pub opens_later : clock.unix_timestamp < w'.pool.open_time
      pub ordered : w'.pool.token_0_mint < w'.pool.token_1_mint
      pub all_open : w'.pool.status ≡ 0
      pub by_creator : w'.pool.pool_creator ≡ creator
      pub creator_fee_set : w'.pool.enable_creator_fee ≡ with_creator_fee

    validate_creation-ordered :
        (a : CreationAccounts) (l : t.Ledger)
        → validate_creation t s program config clock a l ≡ ok tt
        → a.token_0_mint < a.token_1_mint
    unfolding validate_creation
    validate_creation-ordered a l h =
        >>=-elim (of_program (t.mint l a.token_0_mint).token_program a.token_0_program) _ h
          λ _ e0 h0. >>=-elim (less a.token_0_mint a.token_1_mint) _ h0 λ _ e1 h1. ground arith
      where
        of_program : Pubkey → Pubkey → Result (Unit {0})
        of_program x y = require (x == y) (anchor AnchorError.constraint_mint_token_program)

        less : Pubkey → Pubkey → Result (Unit {0})
        less x y = require (ltb x y) (anchor AnchorError.constraint_raw)

    module _ (laws : TransferLaws t) (supplies : SupplyLaws t)
        (root : IsSqrt program.integer_sqrt) where
      -- Filling the vaults and the fee for the pool leave the supply of the lp mint.
      counted_supply :
          (a : CreationAccounts) (amount_0 amount_1 minted : ℕ) (l filled with_lp : t.Ledger)
          {charged : t.Ledger}
          → fill_vaults t s program config clock a amount_0 amount_1 l ≡ ok filled
          → t.mint_to a.authority a.lp_mint a.payer_lp_token minted filled ≡ some with_lp
          → charge_pool_fee t s program config clock a with_lp ≡ ok charged
          → (t.mint charged a.lp_mint).supply ≡ (t.mint l a.lp_mint).supply + minted
      counted_supply a amount_0 amount_1 minted l filled with_lp {charged} fills mints charges =
          ap (λ (x : Mint t.Config). x.supply)
            (charge_pool_fee-mints t s system program config clock a with_lp a.lp_mint
              {l' = charged} charges)
          ∙ supplies.mint_supply a.authority a.lp_mint a.payer_lp_token minted filled {l' = with_lp}
              mints
          ∙ ap (λ (x : Mint t.Config). x.supply + minted)
              (fill_vaults-mints t s system a.lp_mint laws program config clock a amount_0 amount_1
                l {l' = filled} fills)

      found_pool-IsFounded :
          (a : CreationAccounts) (infos : List AccountInfo) (amount_0 amount_1 open_time : ℕ)
          (fee_on : CreatorFeeOn) (enable : Bool) (l : t.Ledger) {w' : World t}
          → IsCreationApart a
          → found_pool t s program config clock a infos amount_0 amount_1 open_time fee_on enable l
            ≡ ok w'
          → IsFounded a.creator enable l w'
      unfolding found_pool initialize checked_sub token_mint_to
      found_pool-IsFounded a infos amount_0 amount_1 open_time fee_on enable l {w'} apart h =
          >>=-elim (validate_creation t s program config clock a l) _ h λ _ e0 h0.
            >>=-elim (check_mints t s program config clock a infos l) _ h0 λ _ e1 h1.
              >>=-elim (not_disabled config.disable_create_pool) _ h1 λ _ e2 h2.
                >>=-elim (opening open_time clock.unix_timestamp) _ h2 λ opens e3 h3.
                  >>=-elim (fill_vaults t s program config clock a amount_0 amount_1 l) _ h3
                    λ filled e4 h4.
                      >>=-elim
                        (initial_liquidity program (amount t filled a.token_0_vault)
                          (amount t filled a.token_1_vault))
                        _ h4
                        λ liquidity e5 h5. >>=-elim (unlocked liquidity) _ h5 λ minted e6 h6.
                          >>=-elim
                            (token_mint_to t a.authority a.lp_mint a.payer_lp_token minted filled) _
                            h6
                            λ with_lp e7 h7.
                              >>=-elim (charge_pool_fee t s program config clock a with_lp) _ h7
                                λ charged e8 h8.
                                  let numbers = initial_liquidity-root program root _ _ e5 in
                                  let done : t.mint_to a.authority a.lp_mint a.payer_lp_token minted
                                        filled
                                      ≡ some with_lp =
                                    call-some _ e7 in
                                  let kept =
                                    λ (k : Pubkey) (no_lp : k ≢ a.payer_lp_token)
                                        (no_fee : k ≢ a.create_pool_fee).
                                      charge_pool_fee-others t s system program config clock a
                                        with_lp k {l' = charged} e8 no_fee
                                      ∙ ap (λ (x : TokenAccount). x.amount)
                                          (supplies.mint_others a.authority a.lp_mint
                                            a.payer_lp_token minted filled k {l' = with_lp} done
                                            no_lp) in
                                  let kept_0 =
                                    kept a.token_0_vault (λ e. apart.lp_vault_0 (sym e))
                                      (λ e. apart.fee_vault_0 (sym e)) in
                                  let kept_1 =
                                    kept a.token_1_vault (λ e. apart.lp_vault_1 (sym e))
                                      (λ e. apart.fee_vault_1 (sym e)) in
                                  let (some_0, some_1, below, above) =
                                    rw (← kept_0, ← kept_1) at numbers in
                                  let supply =
                                    counted_supply a amount_0 amount_1 minted l filled with_lp
                                      {charged = charged} e4 done e8 in
                                  let locked = unlocked_sum liquidity e6 in
                                  let later = opening-later open_time clock.unix_timestamp e3 in
                                  let ordered = validate_creation-ordered a l e0 in
                                  rw (← ok_injective _ w' h8) (record {
                                    solvent = record {
                                      covers_0 = omega arith;
                                      covers_1 = omega arith;
                                      fits_0 = omega arith;
                                      fits_1 = omega arith;
                                    };
                                    owes_no_0 = refl;
                                    owes_no_1 = refl;
                                    some_0 = some_0;
                                    some_1 = some_1;
                                    root_below = below;
                                    root_above = above;
                                    enough = ground arith;
                                    counted = omega arith;
                                    opens_later = later;
                                    ordered = ordered;
                                    all_open = refl;
                                    by_creator = refl;
                                    creator_fee_set = refl;
                                  })
        where
          not_disabled : Bool → Result (Unit {0})
          not_disabled b = require (not b) (code ErrorCode.not_approved)

          unlocked : ℕ → Result ℕ
          unlocked n = ok_or (checked_sub n lock_lp_amount) (code ErrorCode.init_lp_amount_too_less)

          unlocked_sum : (n : ℕ) {m : ℕ} → unlocked n ≡ ok m → m + lock_lp_amount ≡ n
          unlocked_sum n e = ground arith

      -- `initialize` that succeeds leaves a pool of the payer's that owes no fees, with both vaults
      -- filled, and with a lp supply that is the square root of the product of the vaults, rounded
      -- down, and at least the 100 that stay locked; the supply of the lp mint has grown by all of it
      -- but those 100. The mints are in order, every status bit is open, swaps open in the future, and
      -- the creator's fee is off. The token program meets `TransferLaws` and `SupplyLaws`, the system
      -- program `SystemLaws`, `integer_sqrt` is the square root rounded down, and the payer's lp account
      -- and the one for the fee are no vaults.
      pub handle_initialize-IsFounded :
          (a : CreationAccounts) (infos : List AccountInfo) (amount_0 amount_1 open_time : ℕ)
          (l : t.Ledger) {w' : World t}
          → IsCreationApart a
          → handle_initialize t s program config clock a infos amount_0 amount_1 open_time l ≡ ok w'
          → IsFounded a.payer false l w'
      unfolding handle_initialize
      handle_initialize-IsFounded a infos amount_0 amount_1 open_time l {w'} apart h =
          found_pool-IsFounded (record a { creator = a.payer }) infos amount_0 amount_1 open_time
            CreatorFeeOn.both_token false l {w' = w'}
            (record {
              lp_vault_0 = apart.lp_vault_0;
              lp_vault_1 = apart.lp_vault_1;
              fee_vault_0 = apart.fee_vault_0;
              fee_vault_1 = apart.fee_vault_1;
            })
            h

      -- `initialize_with_permission` that succeeds leaves a pool of the creator's that owes no fees,
      -- with both vaults filled, and with a lp supply that is the square root of the product of the
      -- vaults, rounded down, and at least the 100 that stay locked; the supply of the lp mint has
      -- grown by all of it but those 100. The mints are in order, every status bit is open, swaps open
      -- in the future, and the creator's fee is on. The program has a permission at the address that is
      -- derived from the payer. The token program meets `TransferLaws` and `SupplyLaws`, the system
      -- program `SystemLaws`, `integer_sqrt` is the square root rounded down, and the payer's lp account
      -- and the one for the fee are no vaults.
      pub handle_initialize_with_permission-IsFounded :
          (permissions : Pubkey → Option Permission) (permission : Pubkey) (a : CreationAccounts)
          (infos : List AccountInfo) (amount_0 amount_1 open_time : ℕ) (fee_on : CreatorFeeOn)
          (l : t.Ledger) {w' : World t}
          → IsCreationApart a
          → handle_initialize_with_permission t s program config clock permissions permission a
              infos amount_0 amount_1 open_time fee_on l
            ≡ ok w'
          → IsFounded a.creator true l w'
            × (p : Permission) × (permissions (program.permission_address a.payer) ≡ some p)
      unfolding handle_initialize_with_permission
      handle_initialize_with_permission-IsFounded permissions permission a infos amount_0 amount_1
            open_time fee_on l {w'} apart h =
          >>=-elim (ok_or (permissions permission) (anchor AnchorError.account_not_initialized)) _ h
            λ p e0 h0.
              >>=-elim (same permission (program.permission_address a.payer)) _ h0 λ _ e1 h1. (
                found_pool-IsFounded a infos amount_0 amount_1 open_time fee_on true l {w' = w'}
                    apart h1,
                p,
                rw (← derived permission (program.permission_address a.payer) e1)
                    (held (permissions permission) e0),
              )
        where
          same : Pubkey → Pubkey → Result (Unit {0})
          same x y = require (x == y) (anchor AnchorError.constraint_seeds)

          derived : (x y : ℕ) → same x y ≡ ok tt → x ≡ y
          derived x y e = ground arith

          held :
              (o : Option Permission) {p : Permission}
              → ok_or o (anchor AnchorError.account_not_initialized) ≡ ok p
              → o ≡ some p
          held o e = ground arith
