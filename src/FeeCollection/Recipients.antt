-- ===== src/FeeCollection/Recipients.antt =====
-- Whom the two transfers out of the vaults pay, and what arrives
-- (programs/cp-swap/src/instructions/admin/collect_protocol_fee.rs, admin/collect_fund_fee.rs).
use mim_swap_sol.Prelude.{
  ℕ, ◌+◌, ◌≡◌, ◌≢◌, ◌==◌, ok, arith, sym, ap, ◌∙◌, refl, Bool-cases, inl, inr, ok_injective,
  >>=-elim,
}
use mim_swap_sol.Errors.{Pubkey}
use mim_swap_sol.Token.Interface.{TokenProgram, TokenAccount, Transfer, Mint}
use mim_swap_sol.Token.Calls.{transfer_from_user_to_pool_vault, transfer_from_pool_vault_to_user}
use mim_swap_sol.Token.Laws.{TransferLaws, Withholds, transfer-Moves}
use mim_swap_sol.States.Config.{AmmConfig, TreasuryAddresses}
use mim_swap_sol.Swap.Accounts.{Clock, World}
use mim_swap_sol.Swap.SettleLaws.{amount}
use mim_swap_sol.FeeCollection.Accounts.{
  CollectAccounts, validate_fee_recipient, payment_0, payment_1,
}
use mim_swap_sol.FeeCollection.Handlers.{Collected, validate_recipients, pay_out}
use mim_swap_sol.FeeCollection.Payout.{
  IsCollectApart, IsTreasurys, validate_fee_recipient-IsTreasurys,
}

module _ (t : TokenProgram) where
  -- An account that held `before` holds `after`, having been paid an amount of the mint: it gains the
  -- amount less what the token program withholds of it.
  pub data IsPaid (epoch : ℕ) (mint : Mint t.Config) (paid before after : ℕ) : Type 0 where
    nothing : paid ≡ 0 → after ≡ before → IsPaid epoch mint paid before after
    credited :
        (fee : ℕ)
        → Withholds t epoch paid mint fee
        → after + fee ≡ before + paid
        → IsPaid epoch mint paid before after

  transfer-IsPaid :
      (laws : TransferLaws t) (x : Transfer) (epoch paid decimals : ℕ) (l : t.Ledger)
      {l' : t.Ledger}
      → transfer_from_user_to_pool_vault t epoch x paid decimals l ≡ ok l'
      → x.from ≢ x.to
      → IsPaid epoch (t.mint l x.mint) paid (amount t l x.to) (amount t l' x.to)
  unfolding transfer_from_user_to_pool_vault
  transfer-IsPaid laws x epoch paid decimals l {l'} h apart = elim (Bool-cases (paid == 0)) [
    | inl none_due ↦
        let same : l ≡ l' = ok_injective l l' (rw none_due at h) in
        IsPaid.nothing (ground arith) (rw same refl)
    | inr due ↦
        let moves = transfer-Moves t laws x epoch paid decimals l {l' = l'} h apart in
        let (fee, withheld) = moves.withheld (ground arith) in
        IsPaid.credited fee withheld (moves.credited fee withheld)
  ]

  module _ (clock : Clock) (a : CollectAccounts) (w w' : World t) where
    -- Both recipients are the treasury's accounts, and are paid the two amounts, each in the mint of
    -- its vault.
    pub record PaysTreasury (derive : TreasuryAddresses) (config : AmmConfig) (paid_0 paid_1 : ℕ)
        : Type 0 where
      pub treasurys_0 :
          IsTreasurys t derive config a.recipient_token_0_account
            (t.account w.ledger a.recipient_token_0_account)
            a.vault_0_mint
      pub treasurys_1 :
          IsTreasurys t derive config a.recipient_token_1_account
            (t.account w.ledger a.recipient_token_1_account)
            a.vault_1_mint
      pub receives_0 :
          IsPaid clock.epoch
            (t.mint w.ledger a.vault_0_mint)
            paid_0
            (amount t w.ledger a.recipient_token_0_account)
            (amount t w'.ledger a.recipient_token_0_account)
      pub receives_1 :
          IsPaid clock.epoch
            (t.mint w.ledger a.vault_1_mint)
            paid_1
            (amount t w.ledger a.recipient_token_1_account)
            (amount t w'.ledger a.recipient_token_1_account)

  module _ (laws : TransferLaws t) (clock : Clock) (a : CollectAccounts) (w : World t)
      (apart : IsCollectApart a) where
    validate_recipients-IsTreasurys :
        (derive : TreasuryAddresses) (config : AmmConfig)
        → validate_recipients t clock derive config a w ≡ ok tt
        → IsTreasurys t derive config a.recipient_token_0_account
            (t.account w.ledger a.recipient_token_0_account)
            a.vault_0_mint
          × IsTreasurys t derive config a.recipient_token_1_account
              (t.account w.ledger a.recipient_token_1_account)
              a.vault_1_mint
    unfolding validate_recipients
    validate_recipients-IsTreasurys derive config h =
        >>=-elim
          (validate_fee_recipient t derive config a.recipient_token_0_account
            (t.account w.ledger a.recipient_token_0_account) a.vault_0_mint)
          _ h
          λ _ e0 h0. (
            validate_fee_recipient-IsTreasurys t derive config _ _ _ e0,
            validate_fee_recipient-IsTreasurys t derive config _ _ _ h0,
          )

    -- What arrives, where the recipients are two.
    pay_out-IsPaid :
        (program_0 program_1 : Pubkey) (c : Collected) {w' : World t}
        → a.recipient_token_0_account ≢ a.recipient_token_1_account
        → pay_out t clock program_0 program_1 a c w ≡ ok w'
        → IsPaid clock.epoch
            (t.mint w.ledger a.vault_0_mint)
            c.amount_0
            (amount t w.ledger a.recipient_token_0_account)
            (amount t w'.ledger a.recipient_token_0_account)
          × IsPaid clock.epoch
              (t.mint w.ledger a.vault_1_mint)
              c.amount_1
              (amount t w.ledger a.recipient_token_1_account)
              (amount t w'.ledger a.recipient_token_1_account)
    unfolding pay_out transfer_from_pool_vault_to_user
    pay_out-IsPaid program_0 program_1 c {w'} two h =
        >>=-elim
          (transfer_from_pool_vault_to_user t clock.epoch (payment_0 program_0 a) c.amount_0
            (t.mint w.ledger a.vault_0_mint).decimals w.ledger)
          _ h
          λ mid first rest.
            >>=-elim
              (transfer_from_pool_vault_to_user t clock.epoch (payment_1 program_1 a) c.amount_1
                (t.mint w.ledger a.vault_1_mint).decimals mid)
              _ rest
              λ last second done.
                let h0 : transfer_from_user_to_pool_vault t clock.epoch (payment_0 program_0 a)
                      c.amount_0 (t.mint w.ledger a.vault_0_mint).decimals w.ledger
                    ≡ ok mid =
                  unfold transfer_from_user_to_pool_vault in first in
                let h1 : transfer_from_user_to_pool_vault t clock.epoch (payment_1 program_1 a)
                      c.amount_1 (t.mint w.ledger a.vault_1_mint).decimals mid
                    ≡ ok last =
                  unfold transfer_from_user_to_pool_vault in second in
                let out_0 = λ (e : a.token_0_vault ≡ a.recipient_token_0_account).
                  apart.recipient_0_vault_0 (sym e) in
                let out_1 = λ (e : a.token_1_vault ≡ a.recipient_token_1_account).
                  apart.recipient_1_vault_1 (sym e) in
                let m0 =
                  transfer-Moves t laws (payment_0 program_0 a) clock.epoch c.amount_0 _ w.ledger
                    {l' = mid} h0 out_0 in
                let m1 =
                  transfer-Moves t laws (payment_1 program_1 a) clock.epoch c.amount_1 _ mid
                    {l' = last} h1 out_1 in
                let later =
                  ap (λ (x : TokenAccount). x.amount)
                    (m1.others_same a.recipient_token_0_account apart.recipient_0_vault_1 two) in
                let before =
                  ap (λ (x : TokenAccount). x.amount)
                    (m0.others_same a.recipient_token_1_account apart.recipient_1_vault_0
                      (λ e. two (sym e))) in
                let ledger_same : w'.ledger ≡ last = ground arith in
                let paid_0 =
                  transfer-IsPaid laws (payment_0 program_0 a) clock.epoch c.amount_0 _ w.ledger
                    {l' = mid} h0 out_0 in
                let paid_1 =
                  transfer-IsPaid laws (payment_1 program_1 a) clock.epoch c.amount_1 _ mid
                    {l' = last} h1 out_1 in
                (
                  rw (ledger_same, later) paid_0,
                  rw (ledger_same, ← before, ← m0.mints_same a.vault_1_mint) paid_1,
                )

    -- A payout to recipients that were checked pays the treasury. Their mints, and so they, are two.
    pub pay_out-PaysTreasury :
        (derive : TreasuryAddresses) (config : AmmConfig) (program_0 program_1 : Pubkey)
        (c : Collected) {w' : World t}
        → a.vault_0_mint ≢ a.vault_1_mint
        → validate_recipients t clock derive config a w ≡ ok tt
        → pay_out t clock program_0 program_1 a c w ≡ ok w'
        → PaysTreasury clock a w w' derive config c.amount_0 c.amount_1
    pay_out-PaysTreasury derive config program_0 program_1 c {w'} two_mints valid h =
        let (of_0, of_1) = validate_recipients-IsTreasurys derive config valid in
        let two = λ (e : a.recipient_token_0_account ≡ a.recipient_token_1_account).
          two_mints (
            sym of_0.of_mint ∙ ap (λ (k : Pubkey). (t.account w.ledger k).mint) e ∙ of_1.of_mint) in
        let (paid_0, paid_1) = pay_out-IsPaid program_0 program_1 c {w' = w'} two h in
        record { treasurys_0 = of_0; treasurys_1 = of_1; receives_0 = paid_0; receives_1 = paid_1 }
