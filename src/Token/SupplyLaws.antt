-- ===== src/Token/SupplyLaws.antt =====
-- What the documentation of SPL Token promises of minting and burning. These are hypotheses: the
-- token programs are not part of the repository. `Token.Simple` meets them.
use mim_swap_sol.Prelude.{ℕ, ◌+◌, ◌≡◌, ◌≢◌, some, sym, ◌∙◌}
use mim_swap_sol.Errors.{Pubkey}
use mim_swap_sol.Token.Interface.{Mint, TokenProgram}
use mim_swap_sol.Token.Laws.{Withholds}

module _ (t : TokenProgram) where
  -- Minting credits one account and raises the mint's supply, burning undoes both; neither touches
  -- another account, and both leave what the mints say of their fees.
  pub record SupplyLaws : Type 0 where
    pub mint_credits :
        (authority mint to amount : ℕ) (l : t.Ledger) {l' : t.Ledger}
        → t.mint_to authority mint to amount l ≡ some l'
        → (t.account l' to).amount ≡ (t.account l to).amount + amount
    pub mint_others :
        (authority mint to amount : ℕ) (l : t.Ledger) (k : Pubkey) {l' : t.Ledger}
        → t.mint_to authority mint to amount l ≡ some l'
        → k ≢ to
        → t.account l' k ≡ t.account l k
    pub mint_supply :
        (authority mint to amount : ℕ) (l : t.Ledger) {l' : t.Ledger}
        → t.mint_to authority mint to amount l ≡ some l'
        → (t.mint l' mint).supply ≡ (t.mint l mint).supply + amount
    pub mint_keeps_fees :
        (authority mint to amount : ℕ) (l : t.Ledger) (m : Pubkey) {l' : t.Ledger}
        → t.mint_to authority mint to amount l ≡ some l'
        → ((t.mint l' m).token_program ≡ (t.mint l m).token_program)
          × ((t.mint l' m).transfer_fee ≡ (t.mint l m).transfer_fee)
    pub burn_debits :
        (authority mint from amount : ℕ) (l : t.Ledger) {l' : t.Ledger}
        → t.burn authority mint from amount l ≡ some l'
        → (t.account l from).amount ≡ (t.account l' from).amount + amount
    pub burn_others :
        (authority mint from amount : ℕ) (l : t.Ledger) (k : Pubkey) {l' : t.Ledger}
        → t.burn authority mint from amount l ≡ some l'
        → k ≢ from
        → t.account l' k ≡ t.account l k
    pub burn_supply :
        (authority mint from amount : ℕ) (l : t.Ledger) {l' : t.Ledger}
        → t.burn authority mint from amount l ≡ some l'
        → (t.mint l mint).supply ≡ (t.mint l' mint).supply + amount
    pub burn_keeps_fees :
        (authority mint from amount : ℕ) (l : t.Ledger) (m : Pubkey) {l' : t.Ledger}
        → t.burn authority mint from amount l ≡ some l'
        → ((t.mint l' m).token_program ≡ (t.mint l m).token_program)
          × ((t.mint l' m).transfer_fee ≡ (t.mint l m).transfer_fee)

  -- What is withheld depends on the mint's program and its fees only.
  pub Withholds-same :
      (epoch amount : ℕ) (m m' : Mint t.Config) {fee : ℕ}
      → m'.token_program ≡ m.token_program
      → m'.transfer_fee ≡ m.transfer_fee
      → Withholds t epoch amount m fee
      → Withholds t epoch amount m' fee
  Withholds-same epoch amount m m' p f (Withholds.classic same e) = Withholds.classic (p ∙ same) e
  Withholds-same epoch amount m m' p f (Withholds.unextended no_fee e) =
      Withholds.unextended (f ∙ no_fee) e
  Withholds-same epoch amount m m' p f (Withholds.extended config some_fee other e) =
      Withholds.extended config (f ∙ some_fee) (λ same. other (sym p ∙ same)) e
