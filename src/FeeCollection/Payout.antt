-- ===== src/FeeCollection/Payout.antt =====
-- What the two transfers out of the vaults do, and what the accounts were checked for.
use mim_swap_sol.Prelude.{
  ℕ, ◌+◌, ◌≡◌, ◌≢◌, ◌==◌, min, checked_sub, ok, arith, sym, ap, ◌∙◌, refl, >>=-elim, require,
}
use mim_swap_sol.Errors.{Pubkey, ErrorCode, AnchorError, code, anchor, Result}
use mim_swap_sol.Token.Interface.{TokenProgram, TokenAccount}
use mim_swap_sol.Token.Calls.{transfer_from_user_to_pool_vault, transfer_from_pool_vault_to_user}
use mim_swap_sol.Token.Laws.{TransferLaws, transfer-Moves}
use mim_swap_sol.States.Pool.{PoolState}
use mim_swap_sol.States.PoolLaws.{fees_0, fees_1, IsSolvent}
use mim_swap_sol.States.Config.{
  AmmConfig, TreasuryAddresses, treasury_authority, expected_fee_receiver,
}
use mim_swap_sol.Swap.Accounts.{Clock, World}
use mim_swap_sol.Swap.SettleLaws.{amount}
use mim_swap_sol.Swap.Safety.{vault_0, vault_1, reserve_0, reserve_1}
use mim_swap_sol.FeeCollection.Accounts.{
  CollectAccounts, validate_collect, validate_fee_recipient, payment_0, payment_1,
}
use mim_swap_sol.FeeCollection.Handlers.{
  Collected, take_protocol_fees, take_fund_fees, take_creator_fees, pay_out,
}

-- The recipients are not the vaults, and the vaults are two.
pub record IsCollectApart (a : CollectAccounts) : Type 0 where
  pub vaults : a.token_0_vault ≢ a.token_1_vault
  pub recipient_0_vault_0 : a.recipient_token_0_account ≢ a.token_0_vault
  pub recipient_0_vault_1 : a.recipient_token_0_account ≢ a.token_1_vault
  pub recipient_1_vault_0 : a.recipient_token_1_account ≢ a.token_0_vault
  pub recipient_1_vault_1 : a.recipient_token_1_account ≢ a.token_1_vault

-- What is taken comes off what the pool owes, and off nothing else that the reserves depend on.
pub record IsTaken (p : PoolState) (c : Collected) : Type 0 where
  pub owed_0 : fees_0 p ≡ fees_0 c.pool + c.amount_0
  pub owed_1 : fees_1 p ≡ fees_1 c.pool + c.amount_1
  pub vault_0_same : c.pool.token_0_vault ≡ p.token_0_vault
  pub vault_1_same : c.pool.token_1_vault ≡ p.token_1_vault
  pub lp_supply_same : c.pool.lp_supply ≡ p.lp_supply

pub take_protocol_fees-IsTaken :
    (epoch requested_0 requested_1 : ℕ) (p : PoolState) {c : Collected}
    → take_protocol_fees epoch requested_0 requested_1 p ≡ ok c
    → IsTaken p c
      × (p.protocol_fees_token_0
          ≡ c.pool.protocol_fees_token_0 + min requested_0 p.protocol_fees_token_0)
      × (p.protocol_fees_token_1
          ≡ c.pool.protocol_fees_token_1 + min requested_1 p.protocol_fees_token_1)
      × (c.amount_0 ≡ min requested_0 p.protocol_fees_token_0)
      × (c.amount_1 ≡ min requested_1 p.protocol_fees_token_1)
unfolding take_protocol_fees checked_sub
take_protocol_fees-IsTaken epoch requested_0 requested_1 p {c} h = ground arith

pub take_fund_fees-IsTaken :
    (epoch requested_0 requested_1 : ℕ) (p : PoolState) {c : Collected}
    → take_fund_fees epoch requested_0 requested_1 p ≡ ok c
    → IsTaken p c
      × (p.fund_fees_token_0 ≡ c.pool.fund_fees_token_0 + min requested_0 p.fund_fees_token_0)
      × (p.fund_fees_token_1 ≡ c.pool.fund_fees_token_1 + min requested_1 p.fund_fees_token_1)
      × (c.amount_0 ≡ min requested_0 p.fund_fees_token_0)
      × (c.amount_1 ≡ min requested_1 p.fund_fees_token_1)
unfolding take_fund_fees checked_sub
take_fund_fees-IsTaken epoch requested_0 requested_1 p {c} h = ground arith

pub take_creator_fees-IsTaken :
    (epoch : ℕ) (p : PoolState) {c : Collected}
    → take_creator_fees epoch p ≡ ok c
    → IsTaken p c × (c.pool.creator_fees_token_0 ≡ 0) × (c.pool.creator_fees_token_1 ≡ 0)
unfolding take_creator_fees
take_creator_fees-IsTaken epoch p {c} h = ground arith

module _ (t : TokenProgram) where
  -- The fees are covered after the step, and neither the reserves nor the lp supply has changed.
  pub record KeepsReserves (w w' : World t) : Type 0 where
    pub solvent : IsSolvent (vault_0 t w') (vault_1 t w') w'.pool
    pub reserve_0_same : reserve_0 t w' ≡ reserve_0 t w
    pub reserve_1_same : reserve_1 t w' ≡ reserve_1 t w
    pub supply_same : w'.pool.lp_supply ≡ w.pool.lp_supply

  pub collect_vaults :
      (a : CollectAccounts) (w : World t)
      → validate_collect t a w ≡ ok tt
      → (a.token_0_vault ≡ w.pool.token_0_vault) × (a.token_1_vault ≡ w.pool.token_1_vault)
  unfolding validate_collect
  collect_vaults a w h = >>=-elim (same_config a.amm_config w.pool.amm_config) _ h λ _ e0 h0.
      >>=-elim (same a.token_0_vault w.pool.token_0_vault) _ h0 λ _ e1 h1.
        >>=-elim (same a.token_1_vault w.pool.token_1_vault) _ h1
          λ _ e2 h2. (ground arith, ground arith)
    where
      same_config : ℕ → ℕ → Result (Unit {0})
      same_config x y = require (x == y) (anchor AnchorError.constraint_address)

      same : ℕ → ℕ → Result (Unit {0})
      same x y = require (x == y) (anchor AnchorError.constraint_raw)

  -- The recipient is an account of the treasury's authority for the mint, and is the one that the
  -- configuration names.
  pub record IsTreasurys (derive : TreasuryAddresses) (config : AmmConfig) (key : Pubkey)
      (account : TokenAccount) (mint : Pubkey) : Type 0 where
    pub of_mint : account.mint ≡ mint
    pub owned : treasury_authority derive config ≡ ok account.owner
    pub named : expected_fee_receiver derive mint config ≡ ok key

  pub validate_fee_recipient-IsTreasurys :
      (derive : TreasuryAddresses) (config : AmmConfig) (key : Pubkey) (account : TokenAccount)
      (mint : Pubkey)
      → validate_fee_recipient t derive config key account mint ≡ ok tt
      → IsTreasurys derive config key account mint
  unfolding validate_fee_recipient
  validate_fee_recipient-IsTreasurys derive config key account mint h =
      >>=-elim (same account.mint mint) _ h λ _ e0 h0.
        >>=-elim (treasury_authority derive config) _ h0 λ authority e1 h1.
          >>=-elim (same account.owner authority) _ h1 λ _ e2 h2.
            >>=-elim (expected_fee_receiver derive mint config) _ h2 λ receiver e3 h3.
              let owner_same : authority ≡ account.owner = ground arith in
              let key_same : receiver ≡ key = ground arith in
              record {
                of_mint = ground arith;
                owned = e1 ∙ ap (λ (k : Pubkey). ok k) owner_same;
                named = e3 ∙ ap (λ (k : Pubkey). ok k) key_same;
              }
    where
      same : ℕ → ℕ → Result (Unit {0})
      same x y = require (x == y) (code ErrorCode.invalid_fee_recipient)

  module _ (laws : TransferLaws t) (clock : Clock) (a : CollectAccounts) (w : World t)
      (apart : IsCollectApart a) where
    -- What is taken leaves the vaults, so the reserves stay.
    pub pay_out-KeepsReserves :
        (program_0 program_1 : Pubkey) (c : Collected) {w' : World t}
        → (a.token_0_vault ≡ w.pool.token_0_vault) × (a.token_1_vault ≡ w.pool.token_1_vault)
        → IsSolvent (vault_0 t w) (vault_1 t w) w.pool
        → IsTaken w.pool c
        → pay_out t clock program_0 program_1 a c w ≡ ok w'
        → KeepsReserves w w' × (w'.pool ≡ c.pool)
    unfolding pay_out transfer_from_pool_vault_to_user
    pay_out-KeepsReserves program_0 program_1 c {w'} (k0, k1) solvent taken h =
        >>=-elim
          (transfer_from_pool_vault_to_user t clock.epoch (payment_0 program_0 a) c.amount_0
            (t.mint w.ledger a.vault_0_mint).decimals w.ledger)
          _ h
          λ mid first rest.
            >>=-elim
              (transfer_from_pool_vault_to_user t clock.epoch (payment_1 program_1 a) c.amount_1
                (t.mint w.ledger a.vault_1_mint).decimals mid)
              _ rest
              λ last second done.
                let m1 =
                  transfer-Moves t laws (payment_0 program_0 a) clock.epoch c.amount_0
                    (t.mint w.ledger a.vault_0_mint).decimals w.ledger {l' = mid}
                    (unfold transfer_from_user_to_pool_vault in first)
                    (λ e. apart.recipient_0_vault_0 (sym e)) in
                let m2 =
                  transfer-Moves t laws (payment_1 program_1 a) clock.epoch c.amount_1
                    (t.mint w.ledger a.vault_1_mint).decimals mid {l' = last}
                    (unfold transfer_from_user_to_pool_vault in second)
                    (λ e. apart.recipient_1_vault_1 (sym e)) in
                let later =
                  ap (λ (x : TokenAccount). x.amount)
                    (m2.others_same a.token_0_vault apart.vaults
                      (λ e. apart.recipient_1_vault_0 (sym e))) in
                let before =
                  ap (λ (x : TokenAccount). x.amount)
                    (m1.others_same a.token_1_vault (λ e. apart.vaults (sym e))
                      (λ e. apart.recipient_0_vault_1 (sym e))) in
                let pool_same : w'.pool ≡ c.pool = ground arith in
                let ledger_same : w'.ledger ≡ last = ground arith in
                let loss_0 : amount t w.ledger a.token_0_vault
                    ≡ amount t last a.token_0_vault + c.amount_0 =
                  omega (arith, m1.debited, later) in
                let loss_1 : amount t w.ledger a.token_1_vault
                    ≡ amount t last a.token_1_vault + c.amount_1 =
                  omega (arith, m2.debited, before) in
                let after_0 : vault_0 t w' ≡ amount t last a.token_0_vault =
                  rw (pool_same, ledger_same, taken.vault_0_same, k0) refl in
                let after_1 : vault_1 t w' ≡ amount t last a.token_1_vault =
                  rw (pool_same, ledger_same, taken.vault_1_same, k1) refl in
                let before_0 = ap (λ (k : Pubkey). amount t w.ledger k) k0 in
                let before_1 = ap (λ (k : Pubkey). amount t w.ledger k) k1 in
                let owed_0 = ap (λ (p : PoolState). fees_0 p) pool_same in
                let owed_1 = ap (λ (p : PoolState). fees_1 p) pool_same in
                (
                  record {
                    solvent = record {
                      covers_0 = omega (arith, taken.owed_0, solvent.covers_0);
                      covers_1 = omega (arith, taken.owed_1, solvent.covers_1);
                      fits_0 = omega (arith, taken.owed_0, solvent.fits_0);
                      fits_1 = omega (arith, taken.owed_1, solvent.fits_1);
                    };
                    reserve_0_same = omega (arith, taken.owed_0, solvent.covers_0);
                    reserve_1_same = omega (arith, taken.owed_1, solvent.covers_1);
                    supply_same =
                        ap (λ (p : PoolState). p.lp_supply) pool_same ∙ taken.lp_supply_same;
                  },
                  pool_same,
                )
