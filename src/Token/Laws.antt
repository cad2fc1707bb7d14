-- ===== src/Token/Laws.antt =====
-- What the documentation of SPL Token and Token-2022 promises of a call that succeeds. These are
-- hypotheses: the token programs are not part of the repository. `Token.Simple` meets them.
use mim_swap_sol.Prelude.{
  ℕ, ◌+◌, ◌≤◌, ◌≡◌, ◌≢◌, ◌==◌, none, some, u64_max, ok, arith, unwrap, Option-cases, Bool-cases,
  inl, inr, refl,
}
use mim_swap_sol.Errors.{Pubkey, Error}
use mim_swap_sol.Token.Interface.{Mint, Transfer, TokenProgram}
use mim_swap_sol.Token.Calls.{get_transfer_fee, transfer_from_user_to_pool_vault}

module _ (t : TokenProgram) where
  -- What a transfer of `amount` leaves withheld from the account that receives it.
  pub data Withholds (epoch amount : ℕ) (m : Mint t.Config) (fee : ℕ) : Type 0 where
    classic : m.token_program ≡ t.token_id → fee ≡ 0 → Withholds epoch amount m fee
    unextended : m.transfer_fee ≡ none → fee ≡ 0 → Withholds epoch amount m fee
    extended :
        (config : t.Config)
        → m.transfer_fee ≡ some config
        → m.token_program ≢ t.token_id
        → t.calculate_epoch_fee config epoch amount ≡ some fee
        → Withholds epoch amount m fee

  -- A transfer debits one account by the amount and credits the other by the amount less the fee;
  -- it touches no other account and no mint, and the fee could be computed. An amount fits a `u64`,
  -- and no fee exceeds the amount or the maximum.
  pub record TransferLaws : Type 0 where
    pub amount_le : (l : t.Ledger) (k : Pubkey) → (t.account l k).amount ≤ u64_max
    pub fee_le :
        (config : t.Config) (epoch amount : ℕ) {fee : ℕ}
        → t.calculate_epoch_fee config epoch amount ≡ some fee
        → fee ≤ amount
    pub fee_le_maximum :
        (config : t.Config) (epoch amount : ℕ) {fee : ℕ}
        → t.calculate_epoch_fee config epoch amount ≡ some fee
        → fee ≤ t.maximum_fee config epoch
    pub debits :
        (x : Transfer) (amount decimals epoch : ℕ) (l : t.Ledger) {l' : t.Ledger}
        → t.transfer_checked x amount decimals epoch l ≡ some l'
        → x.from ≢ x.to
        → (t.account l x.from).amount ≡ (t.account l' x.from).amount + amount
    pub credits :
        (x : Transfer) (amount decimals epoch fee : ℕ) (l : t.Ledger) {l' : t.Ledger}
        → t.transfer_checked x amount decimals epoch l ≡ some l'
        → x.from ≢ x.to
        → Withholds epoch amount (t.mint l x.mint) fee
        → (t.account l' x.to).amount + fee ≡ (t.account l x.to).amount + amount
    pub fee_exists :
        (x : Transfer) (amount decimals epoch : ℕ) (l : t.Ledger) {l' : t.Ledger}
        → t.transfer_checked x amount decimals epoch l ≡ some l'
        → (fee : ℕ) × Withholds epoch amount (t.mint l x.mint) fee
    pub others :
        (x : Transfer) (amount decimals epoch : ℕ) (l : t.Ledger) (k : Pubkey) {l' : t.Ledger}
        → t.transfer_checked x amount decimals epoch l ≡ some l'
        → k ≢ x.from
        → k ≢ x.to
        → t.account l' k ≡ t.account l k
    pub mints :
        (x : Transfer) (amount decimals epoch : ℕ) (l : t.Ledger) (m : Pubkey) {l' : t.Ledger}
        → t.transfer_checked x amount decimals epoch l ≡ some l'
        → t.mint l' m ≡ t.mint l m

  -- `get_transfer_fee` gives the fee that the token program withholds.
  pub get_transfer_fee-Withholds :
      (epoch : ℕ) (m : Mint t.Config) (amount : ℕ) {fee : ℕ}
      → get_transfer_fee t epoch m amount ≡ ok fee
      → Withholds epoch amount m fee
  unfolding get_transfer_fee
  get_transfer_fee-Withholds epoch m amount {fee} h =
      elim (Bool-cases (m.token_program == t.token_id)) [
        | inl same ↦ Withholds.classic (ground arith) (ground arith)
        | inr differs ↦ elim (Option-cases m.transfer_fee) [
          | inl e ↦ Withholds.unextended e (ground arith)
          | inr (config, e) ↦
              Withholds.extended config e (ground arith) (charged config (rw (differs, e) at h))
        ]
      ]
    where
      charged :
          (config : t.Config)
          → unwrap {E = Error} (t.calculate_epoch_fee config epoch amount) ≡ ok fee
          → t.calculate_epoch_fee config epoch amount ≡ some fee
      charged config e = ground arith

  -- A transfer that may be skipped because its amount is 0.
  pub record Moves (x : Transfer) (epoch amount : ℕ) (l l' : t.Ledger) : Type 0 where
    pub debited : (t.account l x.from).amount ≡ (t.account l' x.from).amount + amount
    pub credited :
        (fee : ℕ)
        → Withholds epoch amount (t.mint l x.mint) fee
        → (t.account l' x.to).amount + fee ≡ (t.account l x.to).amount + amount
    pub withheld : amount ≢ 0 → (fee : ℕ) × Withholds epoch amount (t.mint l x.mint) fee
    pub others_same : (k : Pubkey) → k ≢ x.from → k ≢ x.to → t.account l' k ≡ t.account l k
    pub mints_same : (m : Pubkey) → t.mint l' m ≡ t.mint l m

  module _ (laws : TransferLaws) where
    fee_of_nothing : (epoch : ℕ) (m : Mint t.Config) {fee : ℕ} → Withholds epoch 0 m fee → fee ≡ 0
    fee_of_nothing epoch m (Withholds.classic _ e) = e
    fee_of_nothing epoch m (Withholds.unextended _ e) = e
    fee_of_nothing epoch m (Withholds.extended config _ _ e) =
        omega (arith, laws.fee_le config epoch 0 e)

    pub Withholds-le :
        (epoch amount : ℕ) (m : Mint t.Config) {fee : ℕ}
        → Withholds epoch amount m fee
        → fee ≤ amount
    Withholds-le epoch amount m (Withholds.classic _ e) = omega arith
    Withholds-le epoch amount m (Withholds.unextended _ e) = omega arith
    Withholds-le epoch amount m (Withholds.extended config _ _ e) =
        laws.fee_le config epoch amount e

    -- A transfer that the token program has made.
    pub transfer_checked-Moves :
        (x : Transfer) (epoch amount decimals : ℕ) (l : t.Ledger) {l' : t.Ledger}
        → t.transfer_checked x amount decimals epoch l ≡ some l'
        → x.from ≢ x.to
        → Moves x epoch amount l l'
    transfer_checked-Moves x epoch amount decimals l done apart = record {
      debited = laws.debits x amount decimals epoch l done apart;
      credited = λ fee. laws.credits x amount decimals epoch fee l done apart;
      withheld = λ _. laws.fee_exists x amount decimals epoch l done;
      others_same = λ k. laws.others x amount decimals epoch l k done;
      mints_same = λ m. laws.mints x amount decimals epoch l m done;
    }

    pub transfer-Moves :
        (x : Transfer) (epoch amount decimals : ℕ) (l : t.Ledger) {l' : t.Ledger}
        → transfer_from_user_to_pool_vault t epoch x amount decimals l ≡ ok l'
        → x.from ≢ x.to
        → Moves x epoch amount l l'
    unfolding transfer_from_user_to_pool_vault
    transfer-Moves x epoch amount decimals l {l'} h apart = elim (Bool-cases (amount == 0)) [
      | inl nothing ↦
          let zero_amount : amount ≡ 0 = ground arith in
          let same : l ≡ l' = ground arith in
          rw (← same) (record {
            debited = omega arith;
            credited = λ fee w.
                omega (arith, fee_of_nothing epoch (t.mint l x.mint) (rw zero_amount at w));
            withheld = λ some_amount. absurd (some_amount zero_amount);
            others_same = λ k _ _. refl;
            mints_same = λ m. refl;
          })
      | inr moves ↦ transfer_checked-Moves x epoch amount decimals l {l' = l'} (ground arith) apart
    ]
