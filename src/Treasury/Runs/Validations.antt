-- ===== src/Treasury/Runs/Validations.antt =====
-- What the constraints on the accounts of `deposit_mim`, `donate_mim`, `start_destake` and
-- `finalize_destake` say where they hold.
use mim_swap_sol.Prelude.{
  ◌≡◌, refl, ◌==◌, Option, none, some, ok, require, arith, ok_injective, >>=-elim,
}
use mim_swap_sol.Errors.{Pubkey}
use mim_swap_sol.Token.Interface.{TokenProgram}
use mim_swap_sol.Treasury.Errors.{TreasuryError, treasury, Attempt}
use mim_swap_sol.Treasury.State.{RedemptionRequest, Treasury}
use mim_swap_sol.Treasury.Accounts.{
  DepositMim, DonateMim, StartDestake, FinalizeDestake, find, at_address, is_new, exists, token_of,
  validate_deposit_mim, validate_donate_mim, validate_start_destake, validate_finalize_destake,
}

pub at_address-eq : (k j : Pubkey) → at_address k j ≡ ok tt → j ≡ k
at_address-eq k j h = ground arith

module _ (t : TokenProgram) (w : Treasury t) where
  -- The accounts named are those of the treasury's state.
  pub record IsDepositOf (a : DepositMim) : Type 0 where
    pub mim_mint : a.mim_mint ≡ w.state.mim_mint
    pub mana_mint : a.mana_mint ≡ w.state.mana_mint
    pub active_mim_vault : a.active_mim_vault ≡ w.state.active_mim_vault

  pub validate_deposit_mim-IsDepositOf :
      (a : DepositMim) → validate_deposit_mim t a w ≡ ok tt → IsDepositOf a
  unfolding validate_deposit_mim
  validate_deposit_mim-IsDepositOf a h =
      >>=-elim (at_address w.state.mim_mint a.mim_mint) _ h λ _ e0 h0.
        >>=-elim (at_address w.state.mana_mint a.mana_mint) _ h0 λ _ e1 h1.
          >>=-elim (token_of a.mim_mint a.depositor (t.account w.ledger a.depositor_mim)) _ h1
            λ _ e2 h2. record {
              mim_mint = at_address-eq _ _ e0;
              mana_mint = at_address-eq _ _ e1;
              active_mim_vault = at_address-eq _ _ h2;
            }

  pub record IsDonationTo (a : DonateMim) : Type 0 where
    pub mim_mint : a.mim_mint ≡ w.state.mim_mint
    pub active_mim_vault : a.active_mim_vault ≡ w.state.active_mim_vault

  pub validate_donate_mim-IsDonationTo :
      (a : DonateMim) → validate_donate_mim t a w ≡ ok tt → IsDonationTo a
  unfolding validate_donate_mim
  validate_donate_mim-IsDonationTo a h =
      >>=-elim (at_address w.state.mim_mint a.mim_mint) _ h λ _ e0 h0.
        >>=-elim (token_of a.mim_mint a.donor (t.account w.ledger a.donor_mim)) _ h0 λ _ e1 h1.
          record { mim_mint = at_address-eq _ _ e0; active_mim_vault = at_address-eq _ _ h1 }

  pub record IsDestakeOf (a : StartDestake) : Type 0 where
    pub is_first : find a.owner w.requests ≡ none
    pub mim_mint : a.mim_mint ≡ w.state.mim_mint
    pub mana_mint : a.mana_mint ≡ w.state.mana_mint
    pub pending_mana_vault : a.pending_mana_vault ≡ w.state.pending_mana_vault
    pub active_mim_vault : a.active_mim_vault ≡ w.state.active_mim_vault
    pub pending_mim_vault : a.pending_mim_vault ≡ w.state.pending_mim_vault

  pub validate_start_destake-IsDestakeOf :
      (a : StartDestake) → validate_start_destake t a w ≡ ok tt → IsDestakeOf a
  unfolding validate_start_destake
  validate_start_destake-IsDestakeOf a h =
      >>=-elim (is_new (find a.owner w.requests)) _ h λ _ e0 h0.
        >>=-elim (at_address w.state.mim_mint a.mim_mint) _ h0 λ _ e1 h1.
          >>=-elim (at_address w.state.mana_mint a.mana_mint) _ h1 λ _ e2 h2.
            >>=-elim (token_of a.mana_mint a.owner (t.account w.ledger a.owner_mana)) _ h2
              λ _ e3 h3.
                >>=-elim (at_address w.state.pending_mana_vault a.pending_mana_vault) _ h3
                  λ _ e4 h4.
                    >>=-elim (at_address w.state.active_mim_vault a.active_mim_vault) _ h4
                      λ _ e5 h5. record {
                        is_first = is_new-none (find a.owner w.requests) e0;
                        mim_mint = at_address-eq _ _ e1;
                        mana_mint = at_address-eq _ _ e2;
                        pending_mana_vault = at_address-eq _ _ e4;
                        active_mim_vault = at_address-eq _ _ e5;
                        pending_mim_vault = at_address-eq _ _ h5;
                      }
    where
      is_new-none : (o : Option RedemptionRequest) → is_new o ≡ ok tt → o ≡ none
      is_new-none none e = refl
      is_new-none (some r) e = absurd (let no : ⊥ = cc in no)

  pub record IsFinalOf (a : FinalizeDestake) (request : RedemptionRequest) : Type 0 where
    pub found : find a.owner w.requests ≡ some request
    pub mim_mint : a.mim_mint ≡ w.state.mim_mint
    pub mana_mint : a.mana_mint ≡ w.state.mana_mint
    pub pending_mim_vault : a.pending_mim_vault ≡ w.state.pending_mim_vault
    pub pending_mana_vault : a.pending_mana_vault ≡ w.state.pending_mana_vault
    pub owner : request.owner ≡ a.owner
    pub treasury : request.treasury ≡ w.key

  pub validate_finalize_destake-IsFinalOf :
      (a : FinalizeDestake) {request : RedemptionRequest}
      → validate_finalize_destake t a w ≡ ok request
      → IsFinalOf a request
  unfolding validate_finalize_destake
  validate_finalize_destake-IsFinalOf a {request} h =
      >>=-elim (exists (find a.owner w.requests)) _ h λ found e0 h0.
        >>=-elim (at_address w.state.mim_mint a.mim_mint) _ h0 λ _ e1 h1.
          >>=-elim (at_address w.state.mana_mint a.mana_mint) _ h1 λ _ e2 h2.
            >>=-elim (at_address w.state.pending_mim_vault a.pending_mim_vault) _ h2 λ _ e3 h3.
              >>=-elim (at_address w.state.pending_mana_vault a.pending_mana_vault) _ h3 λ _ e4 h4.
                >>=-elim (same found.owner a.owner) _ h4 λ _ e5 h5.
                  >>=-elim (same found.treasury w.key) _ h5 λ _ e6 h6.
                    let is_found : found ≡ request = ok_injective found request h6 in
                    rw (← is_found) (record {
                      found = exists-some (find a.owner w.requests) e0;
                      mim_mint = at_address-eq _ _ e1;
                      mana_mint = at_address-eq _ _ e2;
                      pending_mim_vault = at_address-eq _ _ e3;
                      pending_mana_vault = at_address-eq _ _ e4;
                      owner = same-eq _ _ e5;
                      treasury = same-eq _ _ e6;
                    })
    where
      same : Pubkey → Pubkey → Attempt (Unit {0})
      same x y = require (x == y) (treasury TreasuryError.invalid_redemption_owner)

      same-eq : (x y : Pubkey) → same x y ≡ ok tt → x ≡ y
      same-eq x y e = ground arith

      exists-some :
          (o : Option RedemptionRequest) {r : RedemptionRequest} → exists o ≡ ok r → o ≡ some r
      exists-some none e = absurd (let no : ⊥ = cc in no)
      exists-some (some r) e = cc
