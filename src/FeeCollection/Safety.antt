-- ===== src/FeeCollection/Safety.antt =====
-- What the collection of fees keeps and whom it pays
-- (programs/cp-swap/src/instructions/admin/collect_protocol_fee.rs, admin/collect_fund_fee.rs and
-- collect_creator_fee.rs).
use mim_swap_sol.Prelude.{ℕ, ◌+◌, ◌≡◌, ◌≢◌, ◌==◌, min, ok, arith, >>=-elim, require}
use mim_swap_sol.Errors.{Pubkey, AnchorError, anchor, Result}
use mim_swap_sol.Token.Interface.{TokenProgram}
use mim_swap_sol.Token.Laws.{TransferLaws}
use mim_swap_sol.States.PoolLaws.{IsSolvent}
use mim_swap_sol.States.Config.{AmmConfig, TreasuryAddresses}
use mim_swap_sol.Swap.Accounts.{Clock, World}
use mim_swap_sol.Swap.Safety.{vault_0, vault_1}
use mim_swap_sol.FeeCollection.Accounts.{
  CollectAccounts, TokenPrograms, CreatorPrograms, validate_collect, validate_collect_creator,
}
use mim_swap_sol.FeeCollection.Handlers.{
  take_protocol_fees, take_fund_fees, take_creator_fees, validate_recipients, collect_protocol_fee,
  collect_fund_fee, collect_creator_fee,
}
use mim_swap_sol.FeeCollection.Payout.{
  IsCollectApart, take_protocol_fees-IsTaken, take_fund_fees-IsTaken, take_creator_fees-IsTaken,
  KeepsReserves, collect_vaults, pay_out-KeepsReserves,
}
use mim_swap_sol.FeeCollection.Recipients.{PaysTreasury, pay_out-PaysTreasury}

module _ (t : TokenProgram) (clock : Clock) (a : CollectAccounts) (w : World t) where
  module _ (laws : TransferLaws t) where
    pub collect_protocol_fee-reserves :
        (derive : TreasuryAddresses) (config : AmmConfig) (p : TokenPrograms)
        (requested_0 requested_1 : ℕ) {w' : World t}
        → IsCollectApart a
        → IsSolvent (vault_0 t w) (vault_1 t w) w.pool
        → collect_protocol_fee t clock derive config a p requested_0 requested_1 w ≡ ok w'
        → KeepsReserves t w w'
          × (w.pool.protocol_fees_token_0
              ≡ w'.pool.protocol_fees_token_0 + min requested_0 w.pool.protocol_fees_token_0)
          × (w.pool.protocol_fees_token_1
              ≡ w'.pool.protocol_fees_token_1 + min requested_1 w.pool.protocol_fees_token_1)
    unfolding collect_protocol_fee
    collect_protocol_fee-reserves derive config p requested_0 requested_1 {w'} apart solvent h =
        >>=-elim (validate_collect t a w) _ h λ _ e0 h0.
          >>=-elim (validate_recipients t clock derive config a w) _ h0 λ _ e1 h1.
            >>=-elim (take_protocol_fees clock.epoch requested_0 requested_1 w.pool) _ h1 λ c e2 h2.
              let (taken, left_0, left_1, _, _) =
                take_protocol_fees-IsTaken clock.epoch requested_0 requested_1 w.pool {c = c} e2 in
              let (keeps, same) =
                pay_out-KeepsReserves t laws clock a w apart _ _ c {w' = w'}
                  (collect_vaults t a w e0) solvent taken h2 in
              (keeps, rw same left_0, rw same left_1)

    collect_protocol_fee-PaysTreasury :
        (derive : TreasuryAddresses) (config : AmmConfig) (p : TokenPrograms)
        (requested_0 requested_1 : ℕ) {w' : World t}
        → IsCollectApart a
        → a.vault_0_mint ≢ a.vault_1_mint
        → collect_protocol_fee t clock derive config a p requested_0 requested_1 w ≡ ok w'
        → PaysTreasury t clock a w w' derive config
            (min requested_0 w.pool.protocol_fees_token_0)
            (min requested_1 w.pool.protocol_fees_token_1)
    unfolding collect_protocol_fee
    collect_protocol_fee-PaysTreasury derive config p requested_0 requested_1 {w'} apart two_mints
          h =
        >>=-elim (validate_collect t a w) _ h λ _ e0 h0.
          >>=-elim (validate_recipients t clock derive config a w) _ h0 λ _ e1 h1.
            >>=-elim (take_protocol_fees clock.epoch requested_0 requested_1 w.pool) _ h1 λ c e2 h2.
              let (_, _, _, all_0, all_1) =
                take_protocol_fees-IsTaken clock.epoch requested_0 requested_1 w.pool {c = c} e2 in
              rw (← all_0, ← all_1)
                (pay_out-PaysTreasury t laws clock a w apart derive config _ _ c {w' = w'} two_mints
                  e1 h2)

    -- A collection of protocol fees that succeeds pays the accounts of the treasury that the
    -- configuration names, each in the mint of its vault, the amount requested or all that is owed
    -- where that is less, of which the token program withholds its fee. Those amounts come off the
    -- fees that the pool owes, and the reserves beside the fees and the lp supply stay as they were,
    -- the vaults still covering the fees. The token program meets `TransferLaws`, the pool was
    -- solvent, the accounts are apart, and the two mints differ.
    pub collect_protocol_fee-KeepsReserves :
        (derive : TreasuryAddresses) (config : AmmConfig) (p : TokenPrograms)
        (requested_0 requested_1 : ℕ) {w' : World t}
        → IsCollectApart a
        → a.vault_0_mint ≢ a.vault_1_mint
        → IsSolvent (vault_0 t w) (vault_1 t w) w.pool
        → collect_protocol_fee t clock derive config a p requested_0 requested_1 w ≡ ok w'
        → KeepsReserves t w w'
          × PaysTreasury t clock a w w' derive config
              (min requested_0 w.pool.protocol_fees_token_0)
              (min requested_1 w.pool.protocol_fees_token_1)
          × (w.pool.protocol_fees_token_0
              ≡ w'.pool.protocol_fees_token_0 + min requested_0 w.pool.protocol_fees_token_0)
          × (w.pool.protocol_fees_token_1
              ≡ w'.pool.protocol_fees_token_1 + min requested_1 w.pool.protocol_fees_token_1)
    collect_protocol_fee-KeepsReserves derive config p requested_0 requested_1 {w'} apart two_mints
          solvent h =
        let (keeps, left_0, left_1) =
          collect_protocol_fee-reserves derive config p requested_0 requested_1 {w' = w'} apart
            solvent h in
        (
          keeps,
          collect_protocol_fee-PaysTreasury derive config p requested_0 requested_1 {w' = w'} apart
              two_mints h,
          left_0,
          left_1,
        )

    pub collect_fund_fee-reserves :
        (derive : TreasuryAddresses) (config : AmmConfig) (p : TokenPrograms)
        (requested_0 requested_1 : ℕ) {w' : World t}
        → IsCollectApart a
        → IsSolvent (vault_0 t w) (vault_1 t w) w.pool
        → collect_fund_fee t clock derive config a p requested_0 requested_1 w ≡ ok w'
        → KeepsReserves t w w'
          × (w.pool.fund_fees_token_0
              ≡ w'.pool.fund_fees_token_0 + min requested_0 w.pool.fund_fees_token_0)
          × (w.pool.fund_fees_token_1
              ≡ w'.pool.fund_fees_token_1 + min requested_1 w.pool.fund_fees_token_1)
    unfolding collect_fund_fee
    collect_fund_fee-reserves derive config p requested_0 requested_1 {w'} apart solvent h =
        >>=-elim (validate_collect t a w) _ h λ _ e0 h0.
          >>=-elim (validate_recipients t clock derive config a w) _ h0 λ _ e1 h1.
            >>=-elim (take_fund_fees clock.epoch requested_0 requested_1 w.pool) _ h1 λ c e2 h2.
              let (taken, left_0, left_1, _, _) =
                take_fund_fees-IsTaken clock.epoch requested_0 requested_1 w.pool {c = c} e2 in
              let (keeps, same) =
                pay_out-KeepsReserves t laws clock a w apart _ _ c {w' = w'}
                  (collect_vaults t a w e0) solvent taken h2 in
              (keeps, rw same left_0, rw same left_1)

    collect_fund_fee-PaysTreasury :
        (derive : TreasuryAddresses) (config : AmmConfig) (p : TokenPrograms)
        (requested_0 requested_1 : ℕ) {w' : World t}
        → IsCollectApart a
        → a.vault_0_mint ≢ a.vault_1_mint
        → collect_fund_fee t clock derive config a p requested_0 requested_1 w ≡ ok w'
        → PaysTreasury t clock a w w' derive config
            (min requested_0 w.pool.fund_fees_token_0)
            (min requested_1 w.pool.fund_fees_token_1)
    unfolding collect_fund_fee
    collect_fund_fee-PaysTreasury derive config p requested_0 requested_1 {w'} apart two_mints h =
        >>=-elim (validate_collect t a w) _ h λ _ e0 h0.
          >>=-elim (validate_recipients t clock derive config a w) _ h0 λ _ e1 h1.
            >>=-elim (take_fund_fees clock.epoch requested_0 requested_1 w.pool) _ h1 λ c e2 h2.
              let (_, _, _, all_0, all_1) =
                take_fund_fees-IsTaken clock.epoch requested_0 requested_1 w.pool {c = c} e2 in
              rw (← all_0, ← all_1)
                (pay_out-PaysTreasury t laws clock a w apart derive config _ _ c {w' = w'} two_mints
                  e1 h2)

    -- A collection of fund fees that succeeds pays the accounts of the treasury that the
    -- configuration names, each in the mint of its vault, the amount requested or all that is owed
    -- where that is less, of which the token program withholds its fee. Those amounts come off the
    -- fees that the pool owes, and the reserves beside the fees and the lp supply stay as they were,
    -- the vaults still covering the fees. The token program meets `TransferLaws`, the pool was
    -- solvent, the accounts are apart, and the two mints differ.
    pub collect_fund_fee-KeepsReserves :
        (derive : TreasuryAddresses) (config : AmmConfig) (p : TokenPrograms)
        (requested_0 requested_1 : ℕ) {w' : World t}
        → IsCollectApart a
        → a.vault_0_mint ≢ a.vault_1_mint
        → IsSolvent (vault_0 t w) (vault_1 t w) w.pool
        → collect_fund_fee t clock derive config a p requested_0 requested_1 w ≡ ok w'
        → KeepsReserves t w w'
          × PaysTreasury t clock a w w' derive config
              (min requested_0 w.pool.fund_fees_token_0)
              (min requested_1 w.pool.fund_fees_token_1)
          × (w.pool.fund_fees_token_0
              ≡ w'.pool.fund_fees_token_0 + min requested_0 w.pool.fund_fees_token_0)
          × (w.pool.fund_fees_token_1
              ≡ w'.pool.fund_fees_token_1 + min requested_1 w.pool.fund_fees_token_1)
    collect_fund_fee-KeepsReserves derive config p requested_0 requested_1 {w'} apart two_mints
          solvent h =
        let (keeps, left_0, left_1) =
          collect_fund_fee-reserves derive config p requested_0 requested_1 {w' = w'} apart solvent
            h in
        (
          keeps,
          collect_fund_fee-PaysTreasury derive config p requested_0 requested_1 {w' = w'} apart
              two_mints h,
          left_0,
          left_1,
        )

    -- A collection of creator fees that succeeds is by the pool's creator, leaves nothing owed to
    -- the creator, and leaves the reserves beside the fees and the lp supply as they were, the vaults
    -- still covering the fees. The token program meets `TransferLaws`, the pool was solvent, and the
    -- accounts are apart.
    pub collect_creator_fee-KeepsReserves :
        (creator : Pubkey) (p : CreatorPrograms) {w' : World t}
        → IsCollectApart a
        → IsSolvent (vault_0 t w) (vault_1 t w) w.pool
        → collect_creator_fee t clock creator a p w ≡ ok w'
        → KeepsReserves t w w'
          × (creator ≡ w.pool.pool_creator)
          × (w'.pool.creator_fees_token_0 ≡ 0)
          × (w'.pool.creator_fees_token_1 ≡ 0)
    unfolding collect_creator_fee validate_collect_creator
    collect_creator_fee-KeepsReserves creator p {w'} apart solvent h =
        >>=-elim (validate_collect_creator t creator a w) _ h λ _ valid h0.
          >>=-elim (take_creator_fees clock.epoch w.pool) _ h0 λ c e1 h1.
            >>=-elim (is_creator creator w.pool.pool_creator) _ valid λ _ e2 h2.
              let (taken, none_0, none_1) =
                take_creator_fees-IsTaken clock.epoch w.pool {c = c} e1 in
              let (keeps, same) =
                pay_out-KeepsReserves t laws clock a w apart _ _ c {w' = w'}
                  (collect_vaults t a w h2) solvent taken h1 in
              (keeps, ground arith, rw same none_0, rw same none_1)
      where
        is_creator : ℕ → ℕ → Result (Unit {0})
        is_creator x y = require (x == y) (anchor AnchorError.constraint_address)
