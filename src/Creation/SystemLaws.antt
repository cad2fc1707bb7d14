-- ===== src/Creation/SystemLaws.antt =====
-- What the system program's calls leave when a pool is created
-- (programs/cp-swap/src/instructions/initialize.rs, the fee for the pool).
use mim_swap_sol.Prelude.{
  ℕ, ◌≡◌, ◌≢◌, ◌==◌, Option, none, some, refl, ok_injective, Bool-cases, inl, inr, ok, ap, ◌∙◌,
  >>=-elim,
}
use mim_swap_sol.Errors.{Pubkey, call}
use mim_swap_sol.Token.Interface.{TokenProgram, TokenAccount}
use mim_swap_sol.States.Config.{AmmConfig}
use mim_swap_sol.Swap.Accounts.{Clock}
use mim_swap_sol.Swap.SettleLaws.{amount}
use mim_swap_sol.Creation.System.{SystemProgram}
use mim_swap_sol.Creation.Accounts.{Program, CreationAccounts}
use mim_swap_sol.Creation.Handlers.{charge_pool_fee}

pub call-some {ℓ} : {A : Type ℓ} (o : Option A) {a : A} → call o ≡ ok a → o ≡ some a
call-some none h = absurd (let no : ⊥ = cc in no)
call-some (some b) {a} h = ap some (ok_injective b a h)

-- What the system program's calls leave: they change no mint, a transfer of lamports changes no token
-- account, and `sync_native` only the account that it is for.
module _ (t : TokenProgram) (s : SystemProgram t) where
  pub record SystemLaws : Type 0 where
    pub transfer_accounts :
        (from to lamports : ℕ) (l : t.Ledger) (k : Pubkey) {l' : t.Ledger}
        → s.transfer from to lamports l ≡ some l'
        → t.account l' k ≡ t.account l k
    pub transfer_mints :
        (from to lamports : ℕ) (l : t.Ledger) (m : Pubkey) {l' : t.Ledger}
        → s.transfer from to lamports l ≡ some l'
        → t.mint l' m ≡ t.mint l m
    pub sync_others :
        (program account : Pubkey) (l : t.Ledger) (k : Pubkey) {l' : t.Ledger}
        → s.sync_native program account l ≡ some l'
        → k ≢ account
        → t.account l' k ≡ t.account l k
    pub sync_mints :
        (program account : Pubkey) (l : t.Ledger) (m : Pubkey) {l' : t.Ledger}
        → s.sync_native program account l ≡ some l'
        → t.mint l' m ≡ t.mint l m
    pub create_mints :
        (payer account lamports space program : ℕ) (l : t.Ledger) (m : Pubkey) {l' : t.Ledger}
        → s.create_account payer account lamports space program l ≡ some l'
        → t.mint l' m ≡ t.mint l m
    pub allocate_mints :
        (account space : ℕ) (l : t.Ledger) (m : Pubkey) {l' : t.Ledger}
        → s.allocate account space l ≡ some l'
        → t.mint l' m ≡ t.mint l m
    pub assign_mints :
        (account program : Pubkey) (l : t.Ledger) (m : Pubkey) {l' : t.Ledger}
        → s.assign account program l ≡ some l'
        → t.mint l' m ≡ t.mint l m
    pub initialize_mints :
        (program account mint owner : Pubkey) (l : t.Ledger) (m : Pubkey) {l' : t.Ledger}
        → s.initialize_account3 program account mint owner l ≡ some l'
        → t.mint l' m ≡ t.mint l m

  module _ (system : SystemLaws) (program : Program) (config : AmmConfig) (clock : Clock) where
    pub charge_pool_fee-others :
        (a : CreationAccounts) (l : t.Ledger) (k : Pubkey) {l' : t.Ledger}
        → charge_pool_fee t s program config clock a l ≡ ok l'
        → k ≢ a.create_pool_fee
        → amount t l' k ≡ amount t l k
    unfolding charge_pool_fee
    charge_pool_fee-others a l k {l'} h apart = elim (Bool-cases (config.create_pool_fee == 0)) [
      | inl free ↦ let same : l ≡ l' = ok_injective l l' (rw free at h) in rw same refl
      | inr charged ↦
          >>=-elim (call (s.transfer a.payer a.create_pool_fee config.create_pool_fee l)) _
            (rw charged at h)
            λ paid e0 h0.
              let moved =
                call-some (s.transfer a.payer a.create_pool_fee config.create_pool_fee l) e0 in
              let synced = call-some (s.sync_native a.token_program a.create_pool_fee paid) h0 in
              ap (λ (x : TokenAccount). x.amount)
                (system.sync_others a.token_program a.create_pool_fee paid k {l' = l'} synced apart
                  ∙ system.transfer_accounts a.payer a.create_pool_fee config.create_pool_fee l k
                      {l' = paid} moved)
    ]

    pub charge_pool_fee-mints :
        (a : CreationAccounts) (l : t.Ledger) (m : Pubkey) {l' : t.Ledger}
        → charge_pool_fee t s program config clock a l ≡ ok l'
        → t.mint l' m ≡ t.mint l m
    unfolding charge_pool_fee
    charge_pool_fee-mints a l m {l'} h = elim (Bool-cases (config.create_pool_fee == 0)) [
      | inl free ↦ let same : l ≡ l' = ok_injective l l' (rw free at h) in rw same refl
      | inr charged ↦
          >>=-elim (call (s.transfer a.payer a.create_pool_fee config.create_pool_fee l)) _
            (rw charged at h)
            λ paid e0 h0.
              let moved =
                call-some (s.transfer a.payer a.create_pool_fee config.create_pool_fee l) e0 in
              let synced = call-some (s.sync_native a.token_program a.create_pool_fee paid) h0 in
              system.sync_mints a.token_program a.create_pool_fee paid m {l' = l'} synced
              ∙ system.transfer_mints a.payer a.create_pool_fee config.create_pool_fee l m
                  {l' = paid} moved
    ]
