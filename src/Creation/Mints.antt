-- ===== src/Creation/Mints.antt =====
-- The creation of the vaults and of the pool's account (`create_token_account` and
-- `create_or_allocate_account` of programs/cp-swap/src/utils/token.rs, `create_pool` of
-- instructions/initialize.rs), with the payments, changes no mint.
use mim_swap_sol.Prelude.{
  ℕ, Bool, ◌>>=◌, ◌-◌, ◌≡◌, ◌==◌, ltb, not, ◌&&◌, refl, ok_injective, Bool-cases, inl, inr, ok, err,
  ◌∙◌, >>=-elim,
}
use Prim.Native.Nat.{max}
use mim_swap_sol.Errors.{Pubkey, Result, Error, call}
use mim_swap_sol.Token.Interface.{Transfer, TokenProgram}
use mim_swap_sol.Token.Calls.{transfer_from_user_to_pool_vault}
use mim_swap_sol.Token.Laws.{TransferLaws}
use mim_swap_sol.States.Config.{AmmConfig}
use mim_swap_sol.Swap.Accounts.{Clock}
use mim_swap_sol.Creation.System.{
  SystemProgram, pool_len, allocate_account, create_or_allocate_account, token_account_space,
  create_token_account, create_pool,
}
use mim_swap_sol.Creation.Accounts.{Program, CreationAccounts, payment_0, payment_1}
use mim_swap_sol.Creation.Handlers.{fill_vaults}
use mim_swap_sol.Creation.SystemLaws.{SystemLaws, call-some}

module _ (t : TokenProgram) (s : SystemProgram t) (system : SystemLaws t s) (m : Pubkey) where
  allocate_account-mints :
      (program payer target space : ℕ) (l : t.Ledger) {l' : t.Ledger}
      → allocate_account t s program payer target space l ≡ ok l'
      → t.mint l' m ≡ t.mint l m
  unfolding allocate_account
  allocate_account-mints program payer target space l {l'} h =
      let required = max (s.minimum_balance space) 1 - s.lamports l target in
      elim (Bool-cases (ltb 0 required)) [
        | inl short ↦
            >>=-elim (call (s.transfer payer target required l)) _ (rw short at h) λ funded e0 h0.
              spaced funded h0
              ∙ system.transfer_mints payer target required l m {l' = funded} (call-some _ e0)
        | inr enough ↦ spaced l (rw enough at h)
      ]
    where
      spaced :
          (funded : t.Ledger)
          → (call (s.allocate target space funded) >>= λ x. call (s.assign target program x))
            ≡ ok l'
          → t.mint l' m ≡ t.mint funded m
      spaced funded e = >>=-elim (call (s.allocate target space funded)) _ e λ allocated e0 h0.
          system.assign_mints target program allocated m {l' = l'} (call-some _ h0)
          ∙ system.allocate_mints target space funded m {l' = allocated} (call-some _ e0)

  create_or_allocate_account-mints :
      (program payer target space : ℕ) (l : t.Ledger) {l' : t.Ledger}
      → create_or_allocate_account t s program payer target space l ≡ ok l'
      → t.mint l' m ≡ t.mint l m
  unfolding create_or_allocate_account
  create_or_allocate_account-mints program payer target space l {l'} h =
      elim (Bool-cases (s.lamports l target == 0)) [
        | inl empty ↦
            system.create_mints payer target (s.minimum_balance space) space program l m {l' = l'}
              (call-some _ (rw empty at h))
        | inr funded ↦
            allocate_account-mints program payer target space l {l' = l'} (rw funded at h)
      ]

  create_token_account-mints :
      (authority payer account mint program : Pubkey) (l : t.Ledger) {l' : t.Ledger}
      → create_token_account t s authority payer account mint program l ≡ ok l'
      → t.mint l' m ≡ t.mint l m
  unfolding create_token_account
  create_token_account-mints authority payer account mint program l {l'} h =
      >>=-elim (token_account_space t s (t.mint l mint)) _ h λ space e0 h0.
        >>=-elim (create_or_allocate_account t s program payer account space l) _ h0
          λ created e1 h1.
            system.initialize_mints program account mint authority created m {l' = l'}
              (call-some _ h1)
            ∙ create_or_allocate_account-mints program payer account space l {l' = created} e1

  create_pool-mints :
      (program expected payer account : Pubkey) (is_signer : Bool) (l : t.Ledger) {l' : t.Ledger}
      → create_pool t s program expected payer account is_signer l ≡ ok l'
      → t.mint l' m ≡ t.mint l m
  unfolding create_pool
  create_pool-mints program expected payer account is_signer l {l'} h =
      elim (Bool-cases (not (s.owner l account == s.id))) [
        | inl owned ↦ absurd (refused (rw owned at h))
        | inr free ↦ elim (Bool-cases (not (account == expected) && not is_signer)) [
          | inl elsewhere ↦ absurd (refused (rw (free, elsewhere) at h))
          | inr placed ↦
              create_or_allocate_account-mints program payer account pool_len l {l' = l'}
                (rw (free, placed) at h)
        ]
      ]
    where
      refused : {e : Error} → ◌≡◌ {A = Result t.Ledger} (err e) (ok l') → ⊥
      refused e = cc

  module _ (laws : TransferLaws t) where
    payment-mints :
        (epoch amount decimals : ℕ) (x : Transfer) (l : t.Ledger) {l' : t.Ledger}
        → transfer_from_user_to_pool_vault t epoch x amount decimals l ≡ ok l'
        → t.mint l' m ≡ t.mint l m
    unfolding transfer_from_user_to_pool_vault
    payment-mints epoch amount decimals x l {l'} h = elim (Bool-cases (amount == 0)) [
      | inl nothing ↦ let same : l ≡ l' = ok_injective l l' (rw nothing at h) in rw same refl
      | inr moves ↦ laws.mints x amount decimals epoch l m {l' = l'} (call-some _ (rw moves at h))
    ]

    pub fill_vaults-mints :
        (program : Program) (config : AmmConfig) (clock : Clock) (a : CreationAccounts)
        (amount_0 amount_1 : ℕ) (l : t.Ledger) {l' : t.Ledger}
        → fill_vaults t s program config clock a amount_0 amount_1 l ≡ ok l'
        → t.mint l' m ≡ t.mint l m
    unfolding fill_vaults
    fill_vaults-mints program config clock a amount_0 amount_1 l {l'} h =
        >>=-elim
          (create_token_account t s a.authority a.payer a.token_0_vault a.token_0_mint
            a.token_0_program l)
          _ h
          λ l0 e0 h0.
            >>=-elim
              (create_token_account t s a.authority a.payer a.token_1_vault a.token_1_mint
                a.token_1_program l0)
              _ h0
              λ l1 e1 h1.
                >>=-elim
                  (create_pool t s program.id
                    (program.pool_address a.amm_config a.token_0_mint a.token_1_mint) a.payer
                    a.pool_state a.pool_state_is_signer l1)
                  _ h1
                  λ l2 e2 h2.
                    >>=-elim
                      (transfer_from_user_to_pool_vault t clock.epoch (payment_0 a) amount_0
                        (t.mint l a.token_0_mint).decimals l2)
                      _ h2
                      λ l3 e3 h3.
                        payment-mints clock.epoch amount_1 _ (payment_1 a) l3 {l' = l'} h3
                        ∙ payment-mints clock.epoch amount_0 _ (payment_0 a) l2 {l' = l3} e3
                        ∙ create_pool-mints program.id _ a.payer a.pool_state a.pool_state_is_signer
                            l1 {l' = l2} e2
                        ∙ create_token_account-mints a.authority a.payer a.token_1_vault
                            a.token_1_mint a.token_1_program l0 {l' = l1} e1
                        ∙ create_token_account-mints a.authority a.payer a.token_0_vault
                            a.token_0_mint a.token_0_program l {l' = l0} e0
