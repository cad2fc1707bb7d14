-- ===== src/Liquidity/Shares.antt =====
-- What deposits and withdrawals share: the accounts apart, and the reserves behind a lp token.
use mim_swap_sol.Prelude.{
  ℕ, ◌+◌, ◌*◌, ◌-◌, ◌≤◌, ◌<◌, ◌≡◌, ◌≢◌, ◌==◌, min, ok, arith, ap, >>=-elim, require,
}
use native.Mathlib.Nat.{le_trans, mul-le-mul_left, mul-le-mul_right}
use mim_swap_sol.Errors.{Pubkey, AnchorError, anchor, Result}
use mim_swap_sol.Curve.FeeLaws.{IsFloor}
use mim_swap_sol.Token.Interface.{TokenProgram, Transfer}
use mim_swap_sol.Token.Calls.{get_transfer_inverse_fee}
use mim_swap_sol.Token.Laws.{TransferLaws, Moves}
use mim_swap_sol.States.PoolLaws.{fees_0, fees_1, IsSolvent}
use mim_swap_sol.Swap.Accounts.{World}
use mim_swap_sol.Swap.SettleLaws.{amount}
use mim_swap_sol.Swap.Quotes.{get_transfer_inverse_fee-covers}
use mim_swap_sol.Swap.Safety.{vault_0, vault_1, reserve_0, reserve_1}
use mim_swap_sol.Liquidity.Accounts.{LpAccounts, validate_vaults}

-- The accounts of the user are neither vaults nor each other, and the vaults are two.
pub record IsLpApart (a : LpAccounts) : Type 0 where
  pub vaults : a.token_0_vault ≢ a.token_1_vault
  pub token_0_vault_0 : a.token_0_account ≢ a.token_0_vault
  pub token_0_vault_1 : a.token_0_account ≢ a.token_1_vault
  pub token_1_vault_0 : a.token_1_account ≢ a.token_0_vault
  pub token_1_vault_1 : a.token_1_account ≢ a.token_1_vault
  pub tokens : a.token_0_account ≢ a.token_1_account
  pub lp_vault_0 : a.owner_lp_token ≢ a.token_0_vault
  pub lp_vault_1 : a.owner_lp_token ≢ a.token_1_vault
  pub lp_token_0 : a.owner_lp_token ≢ a.token_0_account
  pub lp_token_1 : a.owner_lp_token ≢ a.token_1_account

-- A reserve that has gained at least the share of the new lp tokens.
pub grown :
    (v v' fees net share s s' lp : ℕ)
    → v ≡ net + fees
    → v + share ≤ v'
    → s' ≡ s + lp
    → net * (s + lp) ≤ (net + share) * s
    → (v - fees) * s' ≤ (v' - fees) * s
grown v v' fees net share s s' lp e gain e' h =
    let before : v - fees ≡ net = omega arith in
    let after : net + share ≤ v' - fees = omega arith in
    rw (before, e') (le_trans h (mul-le-mul_right s after))

-- A reserve that has lost at most the share of the lp tokens that are gone.
pub shrunk :
    (v v' fees net share taken s s' lp : ℕ)
    → v ≡ net + fees
    → v ≡ v' + taken
    → taken ≡ min net share
    → s ≡ s' + lp
    → IsFloor (lp * net) s share
    → (fees ≤ v') × ((v - fees) * s' ≤ (v' - fees) * s)
shrunk v v' fees net share taken s s' lp e loss least e' floor =
    let capped : taken ≤ share = ground arith in
    let within : taken ≤ net = ground arith in
    let before : v - fees ≡ net = omega arith in
    let split : net ≡ taken + (v' - fees) = omega arith in
    let lower : s * taken ≤ s * share = mul-le-mul_left s capped in
    (
      omega arith,
      rw before (omega (arith, ap (λ (t : ℕ). net * t) e', ap (λ (t : ℕ). t * s) split)),
    )

module _ (t : TokenProgram) where
  -- The fees are covered after the step, and a lp token's share of either reserve has not fallen.
  pub record KeepsShare (w w' : World t) : Type 0 where
    pub solvent : IsSolvent (vault_0 t w') (vault_1 t w') w'.pool
    pub share_0 : reserve_0 t w * w'.pool.lp_supply ≤ reserve_0 t w' * w.pool.lp_supply
    pub share_1 : reserve_1 t w * w'.pool.lp_supply ≤ reserve_1 t w' * w.pool.lp_supply

  pub vaults_of :
      (a : LpAccounts) (w : World t)
      → validate_vaults t a w ≡ ok tt
      → (a.token_0_vault ≡ w.pool.token_0_vault) × (a.token_1_vault ≡ w.pool.token_1_vault)
  unfolding validate_vaults
  vaults_of a w h = >>=-elim (same a.token_0_vault w.pool.token_0_vault) _ h λ _ e0 h0.
      >>=-elim (same a.token_1_vault w.pool.token_1_vault) _ h0
        λ _ e1 h1. (ground arith, ground arith)
    where
      same : ℕ → ℕ → Result (Unit {0})
      same x y = require (x == y) (anchor AnchorError.constraint_raw)

  -- The step in numbers: `v` is a vault, `fees` what the pool owes of its token.
  pub KeepsShare-intro :
      (w w' : World t) (k0 k1 : Pubkey)
      → k0 ≡ w.pool.token_0_vault
      → k1 ≡ w.pool.token_1_vault
      → w'.pool.token_0_vault ≡ w.pool.token_0_vault
      → w'.pool.token_1_vault ≡ w.pool.token_1_vault
      → fees_0 w'.pool ≡ fees_0 w.pool
      → fees_1 w'.pool ≡ fees_1 w.pool
      → IsSolvent (amount t w'.ledger k0) (amount t w'.ledger k1) w.pool
      → (amount t w.ledger k0 - fees_0 w.pool) * w'.pool.lp_supply
        ≤ (amount t w'.ledger k0 - fees_0 w.pool) * w.pool.lp_supply
      → (amount t w.ledger k1 - fees_1 w.pool) * w'.pool.lp_supply
        ≤ (amount t w'.ledger k1 - fees_1 w.pool) * w.pool.lp_supply
      → KeepsShare w w'
  KeepsShare-intro w w' k0 k1 e0 e1 s0 s1 f0 f1 solvent h0 h1 =
      let p0 = ap (λ (k : Pubkey). amount t w'.ledger k) s0 in
      let p1 = ap (λ (k : Pubkey). amount t w'.ledger k) s1 in
      let q0 = ap (λ (k : Pubkey). amount t w'.ledger k) e0 in
      let q1 = ap (λ (k : Pubkey). amount t w'.ledger k) e1 in
      record {
        solvent = record {
          covers_0 = omega (arith, solvent.covers_0);
          covers_1 = omega (arith, solvent.covers_1);
          fits_0 = omega (arith, solvent.fits_0);
          fits_1 = omega (arith, solvent.fits_1);
        };
        share_0 = rw (p0, f0) (rw e0 at h0);
        share_1 = rw (p1, f1) (rw e1 at h1);
      }

  module _ (laws : TransferLaws t) where
    -- A transfer of a share grossed up by the inverse fee brings at least the share.
    pub brings_share :
        (x : Transfer) (epoch share fee paid : ℕ) (l l' : t.Ledger)
        → Moves t x epoch paid l l'
        → get_transfer_inverse_fee t epoch (t.mint l x.mint) share ≡ ok fee
        → paid ≡ share + fee
        → 0 < share
        → amount t l x.to + share ≤ amount t l' x.to
    brings_share x epoch share fee paid l l' moves inverse e pos =
        let (withheld, w) = moves.withheld (λ z. omega (arith, z)) in
        let small =
          get_transfer_inverse_fee-covers t laws epoch share (t.mint l x.mint) {fee = fee} inverse
            (rw e at w) in
        omega (arith, moves.credited withheld w)
