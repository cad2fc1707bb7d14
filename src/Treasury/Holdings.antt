-- ===== src/Treasury/Holdings.antt =====
-- What the treasury of programs/mana-treasury/src/lib.rs holds, and how a transfer of a token
-- without a transfer fee changes it.
use mim_swap_sol.Prelude.{ℕ, ◌+◌, ◌≡◌, ◌≢◌, ◌⊎◌, inl, inr, refl, none, some, ap, ◌∙◌, arith}
use mim_swap_sol.Errors.{Pubkey}
use mim_swap_sol.Token.Interface.{TokenProgram, TokenAccount, Mint, Transfer}
use mim_swap_sol.Token.Laws.{Withholds, TransferLaws, transfer_checked-Moves}
use mim_swap_sol.Treasury.State.{TreasuryState, Treasury}

module _ (t : TokenProgram) where
  abbrev pub held : t.Ledger → Pubkey → ℕ
  held l k = (t.account l k).amount

  abbrev pub active_mim : Treasury t → ℕ
  active_mim w = held w.ledger w.state.active_mim_vault

  abbrev pub pending_mim : Treasury t → ℕ
  pending_mim w = held w.ledger w.state.pending_mim_vault

  abbrev pub pending_mana : Treasury t → ℕ
  pending_mana w = held w.ledger w.state.pending_mana_vault

  abbrev pub mana_supply : Treasury t → ℕ
  mana_supply w = (t.mint w.ledger w.state.mana_mint).supply

  -- A mint whose transfers withhold nothing.
  abbrev pub IsPlain : Mint t.Config → Type 0
  IsPlain m = (m.token_program ≡ t.token_id) ⊎ (m.transfer_fee ≡ none)

  pub IsPlain-Withholds :
      (epoch amount : ℕ) (m : Mint t.Config) → IsPlain m → Withholds t epoch amount m 0
  IsPlain-Withholds epoch amount m (inl same) = Withholds.classic same refl
  IsPlain-Withholds epoch amount m (inr no_fee) = Withholds.unextended no_fee refl

  pub IsPlain-same :
      (m m' : Mint t.Config)
      → m'.token_program ≡ m.token_program
      → m'.transfer_fee ≡ m.transfer_fee
      → IsPlain m
      → IsPlain m'
  IsPlain-same m m' p f (inl same) = inl (p ∙ same)
  IsPlain-same m m' p f (inr no_fee) = inr (f ∙ no_fee)

  -- A transfer of which all arrives.
  pub record HasPaid (x : Transfer) (n : ℕ) (l l' : t.Ledger) : Type 0 where
    pub debited : held l x.from ≡ held l' x.from + n
    pub credited : held l' x.to ≡ held l x.to + n
    pub others : (k : Pubkey) → k ≢ x.from → k ≢ x.to → held l' k ≡ held l k
    pub mints_same : (m : Pubkey) → t.mint l' m ≡ t.mint l m

  pub transfer_checked-HasPaid :
      (laws : TransferLaws t) (x : Transfer) (n decimals epoch : ℕ) (l : t.Ledger) {l' : t.Ledger}
      → t.transfer_checked x n decimals epoch l ≡ some l'
      → x.from ≢ x.to
      → IsPlain (t.mint l x.mint)
      → HasPaid x n l l'
  transfer_checked-HasPaid laws x n decimals epoch l {l'} done apart plain =
      let moves = transfer_checked-Moves t laws x epoch n decimals l {l' = l'} done apart in
      let all = moves.credited 0 (IsPlain-Withholds epoch n (t.mint l x.mint) plain) in
      record {
        debited = moves.debited;
        credited = omega arith;
        others = λ k no_from no_to.
            ap (λ (a : TokenAccount). a.amount) (moves.others_same k no_from no_to);
        mints_same = moves.mints_same;
      }

  -- The three vaults are apart, and neither MIM nor Mana has a transfer fee.
  pub record IsVaulted (w : Treasury t) : Type 0 where
    pub active_mim_mim : w.state.active_mim_vault ≢ w.state.pending_mim_vault
    pub active_mim_mana : w.state.active_mim_vault ≢ w.state.pending_mana_vault
    pub pending_mim_mana : w.state.pending_mim_vault ≢ w.state.pending_mana_vault
    pub mim_plain : IsPlain (t.mint w.ledger w.state.mim_mint)
    pub mana_plain : IsPlain (t.mint w.ledger w.state.mana_mint)

  -- An account that is no vault. The vaults belong to a derived address, which gives no instruction.
  pub record IsOutside (s : TreasuryState) (k : Pubkey) : Type 0 where
    pub active_mim : k ≢ s.active_mim_vault
    pub pending_mim : k ≢ s.pending_mim_vault
    pub pending_mana : k ≢ s.pending_mana_vault

  -- The vaults and the mints are the same accounts as before.
  pub record HasSameVaults (s s' : TreasuryState) : Type 0 where
    pub active_mim : s'.active_mim_vault ≡ s.active_mim_vault
    pub pending_mim : s'.pending_mim_vault ≡ s.pending_mim_vault
    pub pending_mana : s'.pending_mana_vault ≡ s.pending_mana_vault
    pub mim_mint : s'.mim_mint ≡ s.mim_mint
    pub mana_mint : s'.mana_mint ≡ s.mana_mint

  -- How the ledger changes for the treasury of a state: the amounts that go in and out of the active
  -- MIM, the pending MIM and the pending Mana, and the Mana that is minted and burnt.
  pub record HasChanged (s : TreasuryState)
      (active_in active_out mim_in mim_out mana_in mana_out minted burnt : ℕ) (l l' : t.Ledger)
      : Type 0 where
    pub active : held l' s.active_mim_vault + active_out ≡ held l s.active_mim_vault + active_in
    pub mim : held l' s.pending_mim_vault + mim_out ≡ held l s.pending_mim_vault + mim_in
    pub mana : held l' s.pending_mana_vault + mana_out ≡ held l s.pending_mana_vault + mana_in
    pub supply : (t.mint l' s.mana_mint).supply + burnt ≡ (t.mint l s.mana_mint).supply + minted
    pub program_same : (m : Pubkey) → (t.mint l' m).token_program ≡ (t.mint l m).token_program
    pub fee_same : (m : Pubkey) → (t.mint l' m).transfer_fee ≡ (t.mint l m).transfer_fee

  pub HasChanged-IsVaulted :
      (w w' : Treasury t) {ai ao mi mo ni no minted burnt : ℕ}
      → IsVaulted w
      → HasSameVaults w.state w'.state
      → HasChanged w.state ai ao mi mo ni no minted burnt w.ledger w'.ledger
      → IsVaulted w'
  HasChanged-IsVaulted w w' v same changed = record {
    active_mim_mim = rw (same.active_mim, same.pending_mim) v.active_mim_mim;
    active_mim_mana = rw (same.active_mim, same.pending_mana) v.active_mim_mana;
    pending_mim_mana = rw (same.pending_mim, same.pending_mana) v.pending_mim_mana;
    mim_plain = rw same.mim_mint (
        IsPlain-same (t.mint w.ledger w.state.mim_mint) (t.mint w'.ledger w.state.mim_mint)
          (changed.program_same w.state.mim_mint) (changed.fee_same w.state.mim_mint) v.mim_plain);
    mana_plain = rw same.mana_mint (
        IsPlain-same (t.mint w.ledger w.state.mana_mint) (t.mint w'.ledger w.state.mana_mint)
          (changed.program_same w.state.mana_mint) (changed.fee_same w.state.mana_mint)
          v.mana_plain);
  }
