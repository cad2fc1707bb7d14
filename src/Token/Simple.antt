-- ===== src/Token/Simple.antt =====
-- A concrete token program: a flat transfer fee, and accounts and mints as functions of the key.
-- It shows that the hypotheses of `Token.Laws` can hold, and runs the examples.
use mim_swap_sol.Prelude.{
  ℕ, ◌+◌, ◌-◌, ◌≤◌, ◌≡◌, ◌≢◌, ◌==◌, leb, ltb, if◌then◌else◌, ◌||◌, Option, none, some, u64_max, min,
  arith, refl, Bool-cases, Option-cases, inl, inr,
}
use mim_swap_sol.Errors.{Pubkey}
use mim_swap_sol.Token.Interface.{TokenAccount, Mint, Transfer, TokenProgram}
use mim_swap_sol.Token.Laws.{Withholds, TransferLaws}
use mim_swap_sol.Token.SupplyLaws.{SupplyLaws}

pub record SimpleLedger : Type 0 where
  pub accounts : Pubkey → TokenAccount
  pub mints : Pubkey → Mint ℕ

abbrev pub update {ℓ} : {A : Type ℓ} → (Pubkey → A) → Pubkey → A → Pubkey → A
update f k v j = if j == k then v else f j

abbrev pub classic_id : Pubkey
classic_id = 1

abbrev pub clamp : ℕ → ℕ
clamp n = if leb n u64_max then n else u64_max

abbrev pub account : SimpleLedger → Pubkey → TokenAccount
account l k = record (l.accounts k) { amount = clamp (l.accounts k).amount }

abbrev pub flat_fee : Option ℕ → ℕ → ℕ
flat_fee none amount = 0
flat_fee (some fee) amount = min fee amount

abbrev pub withheld : Mint ℕ → ℕ → ℕ
withheld m amount = if m.token_program == classic_id then 0 else flat_fee m.transfer_fee amount

abbrev pub with_amount : TokenAccount → ℕ → TokenAccount
with_amount a n = record a { amount = n }

abbrev pub moved : Transfer → ℕ → SimpleLedger → SimpleLedger
moved x amount l =
    let received = amount - withheld (l.mints x.mint) amount in
    let debit =
      update l.accounts x.from
        (with_amount (l.accounts x.from) ((account l x.from).amount - amount)) in
    record l {
      accounts =
          update debit x.to (with_amount (l.accounts x.to) ((account l x.to).amount + received));
    }

unfoldable pub transfer_checked : Transfer → ℕ → ℕ → ℕ → SimpleLedger → Option SimpleLedger
transfer_checked x amount decimals epoch l =
    if ltb (account l x.from).amount amount || ltb u64_max ((account l x.to).amount + amount)
    then none
    else some (moved x amount l)

unfoldable pub mint_to : Pubkey → Pubkey → Pubkey → ℕ → SimpleLedger → Option SimpleLedger
mint_to authority mint to amount l =
    if ltb u64_max ((account l to).amount + amount)
    then none
    else some (record {
      accounts =
          update l.accounts to (with_amount (l.accounts to) ((account l to).amount + amount));
      mints =
          update l.mints mint (record (l.mints mint) { supply = (l.mints mint).supply + amount });
    })

unfoldable pub burn : Pubkey → Pubkey → Pubkey → ℕ → SimpleLedger → Option SimpleLedger
burn authority mint from amount l =
    if ltb (account l from).amount amount || ltb (l.mints mint).supply amount
    then none
    else some (record {
      accounts =
          update l.accounts from (with_amount (l.accounts from) ((account l from).amount - amount));
      mints =
          update l.mints mint (record (l.mints mint) { supply = (l.mints mint).supply - amount });
    })

abbrev pub simple : TokenProgram
simple = record {
  Ledger = SimpleLedger;
  Config = ℕ;
  account = account;
  mint = λ l. l.mints;
  transfer_checked = transfer_checked;
  mint_to = mint_to;
  burn = burn;
  token_id = classic_id;
  basis_points = λ fee epoch. 0;
  maximum_fee = λ fee epoch. fee;
  calculate_epoch_fee = λ fee epoch amount. some (min fee amount);
  calculate_inverse_epoch_fee = λ fee epoch amount. some fee;
}

transfer_checked-moved :
    (x : Transfer) (amount decimals epoch : ℕ) (l : SimpleLedger) {l' : SimpleLedger}
    → transfer_checked x amount decimals epoch l ≡ some l'
    → (moved x amount l ≡ l')
      × (amount ≤ clamp (l.accounts x.from).amount)
      × (clamp (l.accounts x.to).amount + amount ≤ u64_max)
unfolding transfer_checked
transfer_checked-moved x amount decimals epoch l {l'} h = ground arith

moved-debits :
    (x : Transfer) (amount : ℕ) (l : SimpleLedger)
    → x.from ≢ x.to
    → amount ≤ clamp (l.accounts x.from).amount
    → clamp (l.accounts x.from).amount ≡ (account (moved x amount l) x.from).amount + amount
moved-debits x amount l apart enough = ground arith

withheld-le : (m : Mint ℕ) (amount : ℕ) → withheld m amount ≤ amount
withheld-le m amount = ground arith

moved-credits :
    (x : Transfer) (amount : ℕ) (l : SimpleLedger)
    → clamp (l.accounts x.to).amount + amount ≤ u64_max
    → (account (moved x amount l) x.to).amount + withheld (l.mints x.mint) amount
      ≡ clamp (l.accounts x.to).amount + amount
moved-credits x amount l room = ground (arith, withheld-le (l.mints x.mint) amount)

Withholds-withheld :
    (epoch amount : ℕ) (m : Mint ℕ) {fee : ℕ}
    → Withholds simple epoch amount m fee
    → withheld m amount ≡ fee
Withholds-withheld epoch amount m (Withholds.classic same e) = ground arith
Withholds-withheld epoch amount m (Withholds.unextended no_config e) = ground arith
Withholds-withheld epoch amount m (Withholds.extended config e other fee) = ground arith

withheld-Withholds :
    (epoch amount : ℕ) (m : Mint ℕ) → (fee : ℕ) × Withholds simple epoch amount m fee
withheld-Withholds epoch amount m = elim (Bool-cases (m.token_program == classic_id)) [
  | inl same ↦ (0, Withholds.classic (ground arith) refl)
  | inr differs ↦ elim (Option-cases m.transfer_fee) [
    | inl e ↦ (0, Withholds.unextended e refl)
    | inr (config, e) ↦ (min config amount, Withholds.extended config e (ground arith) refl)
  ]
]

pub simple-TransferLaws : TransferLaws simple
simple-TransferLaws = record {
  amount_le = λ l k. ground arith;
  fee_le = λ config epoch amount h. ground arith;
  fee_le_maximum = λ config epoch amount h. ground arith;
  debits = λ x amount decimals epoch l h apart.
      let (e, enough, room) = transfer_checked-moved x amount decimals epoch l h in
      rw (← e) (moved-debits x amount l apart enough);
  credits = λ x amount decimals epoch fee l h apart w.
      let (e, enough, room) = transfer_checked-moved x amount decimals epoch l h in
      rw (← e, ← Withholds-withheld epoch amount (l.mints x.mint) w)
        (moved-credits x amount l room);
  fee_exists = λ x amount decimals epoch l h. withheld-Withholds epoch amount (l.mints x.mint);
  others = λ x amount decimals epoch l k h not_from not_to.
      let (e, enough, room) = transfer_checked-moved x amount decimals epoch l h in
      rw (← e) (ground arith);
  mints = λ x amount decimals epoch l m h.
      let (e, enough, room) = transfer_checked-moved x amount decimals epoch l h in rw (← e) refl;
}

mint_to-eq :
    (authority mint to amount : ℕ) (l : SimpleLedger) {l' : SimpleLedger}
    → mint_to authority mint to amount l ≡ some l'
    → (clamp (l.accounts to).amount + amount ≤ u64_max)
      × (l'.accounts
          ≡ update l.accounts to
              (with_amount (l.accounts to) (clamp (l.accounts to).amount + amount)))
      × (l'.mints
          ≡ update l.mints mint (record (l.mints mint) { supply = (l.mints mint).supply + amount }))
unfolding mint_to
mint_to-eq authority mint to amount l {l'} h = ground arith

burn-eq :
    (authority mint from amount : ℕ) (l : SimpleLedger) {l' : SimpleLedger}
    → burn authority mint from amount l ≡ some l'
    → (amount ≤ clamp (l.accounts from).amount)
      × (amount ≤ (l.mints mint).supply)
      × (l'.accounts
          ≡ update l.accounts from
              (with_amount (l.accounts from) (clamp (l.accounts from).amount - amount)))
      × (l'.mints
          ≡ update l.mints mint (record (l.mints mint) { supply = (l.mints mint).supply - amount }))
unfolding burn
burn-eq authority mint from amount l {l'} h = ground arith

pub simple-SupplyLaws : SupplyLaws simple
simple-SupplyLaws = record {
  mint_credits = λ authority mint to amount l h.
      let (room, e, _) = mint_to-eq authority mint to amount l h in rw e (ground arith);
  mint_others = λ authority mint to amount l k h apart.
      let (room, e, _) = mint_to-eq authority mint to amount l h in rw e (ground arith);
  mint_supply = λ authority mint to amount l h.
      let (_, _, e) = mint_to-eq authority mint to amount l h in rw e (ground arith);
  mint_keeps_fees = λ authority mint to amount l m h.
      let (_, _, e) = mint_to-eq authority mint to amount l h in rw e (ground arith);
  burn_debits = λ authority mint from amount l h.
      let (enough, _, e, _) = burn-eq authority mint from amount l h in rw e (ground arith);
  burn_others = λ authority mint from amount l k h apart.
      let (_, _, e, _) = burn-eq authority mint from amount l h in rw e (ground arith);
  burn_supply = λ authority mint from amount l h.
      let (_, enough, _, e) = burn-eq authority mint from amount l h in rw e (ground arith);
  burn_keeps_fees = λ authority mint from amount l m h.
      let (_, _, _, e) = burn-eq authority mint from amount l h in rw e (ground arith);
}
