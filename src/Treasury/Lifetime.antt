-- ===== src/Treasury/Lifetime.antt =====
-- The life of a redemption request of programs/mana-treasury/src/lib.rs among all that may happen to
-- the treasury.
use mim_swap_sol.Prelude.{
  ◌≡◌, ◌≢◌, ◌==◌, ◌⊎◌, inl, inr, Bool-cases, false, some, ok, sym, ap, ◌∙◌, arith,
}
use mathlib.Core.Option.{some-injective}
use mathlib.Core.Path.{subst}
use mim_swap_sol.Errors.{Pubkey}
use mim_swap_sol.Token.Interface.{TokenProgram}
use mim_swap_sol.Token.Laws.{TransferLaws}
use mim_swap_sol.Token.SupplyLaws.{SupplyLaws}
use mim_swap_sol.Treasury.State.{RedemptionRequest, Treasury, Clock}
use mim_swap_sol.Treasury.Accounts.{FinalizeDestake, find}
use mim_swap_sol.Treasury.Staking.{finalize_destake}
use mim_swap_sol.Treasury.Requests.{key_of, find-close_apart, find-cons_apart}
use mim_swap_sol.Treasury.Runs.{
  deposit_mim-run, donate_mim-run, donate_asset-run, swap_asset_to_mim-run, start_destake-run,
  finalize_destake-run, opened,
}
use mim_swap_sol.Treasury.Administration.{
  set_swap_router-IsAdministered, set_cooldown_seconds-IsAdministered,
  set_treasury_authority-IsAdministered, accept_treasury_authority-IsAdministered,
  create_asset_vault-IsAdministered,
}
use mim_swap_sol.Treasury.Holdings.{IsOutside}
use mim_swap_sol.Treasury.Backing.{IsBacked}
use mim_swap_sol.Treasury.Steps.{Step, Reach}
use mim_swap_sol.Treasury.Reachable.{Step-IsBacked}
use mim_swap_sol.Treasury.Redemption.{HasEnded, finalize_destake-HasEnded}

module _ (t : TokenProgram) where
  -- A step that finishes the redemption of an owner.
  pub record IsFinal (k : Pubkey) (w w' : Treasury t) : Type 0 where
    pub clock : Clock
    pub accounts : FinalizeDestake
    pub owner : accounts.owner ≡ k
    pub receiver : IsOutside t w.state accounts.owner_mim
    pub done : finalize_destake t clock accounts w ≡ ok w'

  same_requests :
      (k : Pubkey) (r : RedemptionRequest) (w w' : Treasury t)
      → find k w.requests ≡ some r
      → w'.requests ≡ w.requests
      → (find k w'.requests ≡ some r) ⊎ IsFinal k w w'
  same_requests k r w w' found same = inl (ap (λ xs. find k xs) same ∙ found)

  of_ledger : (w w' : Treasury t) → w' ≡ record w { ledger = w'.ledger } → w'.requests ≡ w.requests
  of_ledger w w' after = ap (λ (x : Treasury t). x.requests) after

  Step-request :
      (k : Pubkey) (r : RedemptionRequest) {w w' : Treasury t}
      → Step t w w'
      → find k w.requests ≡ some r
      → (find k w'.requests ≡ some r) ⊎ IsFinal k w w'
  Step-request k r {w} {w'} (Step.deposits clock a amount minimum _ _ h) found =
      same_requests k r w w' found
        (of_ledger w w' (deposit_mim-run t clock w a amount minimum {w' = w'} h).after)
  Step-request k r {w} {w'} (Step.donates clock a amount _ h) found =
      same_requests k r w w' found
        (of_ledger w w' (donate_mim-run t clock w a amount {w' = w'} h).after)
  Step-request k r {w} {w'} (Step.donates_asset clock a amount _ _ _ h) found =
      same_requests k r w w' found
        (of_ledger w w' (donate_asset-run t clock a amount w {w' = w'} h).after)
  Step-request k r {w} {w'} (Step.swaps router metas a amount minimum bytes _ h) found =
      same_requests k r w w' found (
        of_ledger w w'
          (swap_asset_to_mim-run t router metas a amount minimum bytes w {w' = w'} h).after)
  Step-request k r {w} {w'} (Step.starts clock a mana_amount minimum _ h) found =
      let run = start_destake-run t clock w a mana_amount minimum {w' = w'} h in
      inl (
        ap (λ xs. find k xs) run.requests_after
        ∙ find-cons_apart k a.owner (opened t clock w a mana_amount run.reserved run.unlock)
            w.requests run.accounts.is_first found)
  Step-request k r {w} {w'} (Step.finishes clock a receiver h) found =
      elim (Bool-cases (k == a.owner)) [
        | inl same ↦ inr (record {
          clock = clock;
          accounts = a;
          owner = key_of k a.owner same;
          receiver = receiver;
          done = h;
        })
        | inr other ↦
            let run = finalize_destake-run t clock w a {w' = w'} h in
            inl (
              ap (λ xs. find k xs) run.requests_after
              ∙ (find-close_apart k a.owner w.requests (apart k a.owner other) ∙ found))
      ]
    where
      apart : (j i : Pubkey) → (j == i) ≡ false → j ≢ i
      apart j i e same = ground arith
  Step-request k r {w} {w'} (Step.adds_vault a h) found =
      same_requests k r w w' found
        (create_asset_vault-IsAdministered t a w {w' = w'} h).requests_same
  Step-request k r {w} {w'} (Step.sets_router authority router h) found =
      same_requests k r w w' found
        (set_swap_router-IsAdministered t authority router w {w' = w'} h).requests_same
  Step-request k r {w} {w'} (Step.sets_cooldown authority seconds h) found =
      same_requests k r w w' found
        (set_cooldown_seconds-IsAdministered t authority seconds w {w' = w'} h).requests_same
  Step-request k r {w} {w'} (Step.names_authority authority pending h) found =
      same_requests k r w w' found
        (set_treasury_authority-IsAdministered t authority pending w {w' = w'} h).requests_same
  Step-request k r {w} {w'} (Step.takes_authority authority h) found =
      same_requests k r w w' found
        (accept_treasury_authority-IsAdministered t authority w {w' = w'} h).requests_same
  Step-request k r {w} (Step.elsewhere l' spares) found = inl found

  module _ (laws : TransferLaws t) (supplies : SupplyLaws t) where
    -- A request that was ended on the way from one treasury to another, by its owner and as it
    -- stood.
    pub record WasEnded (k : Pubkey) (r : RedemptionRequest) (w w' : Treasury t) : Type 0 where
      pub before : Treasury t
      pub after : Treasury t
      pub final : IsFinal k before after
      pub unchanged : find k before.requests ≡ some r
      pub ended : HasEnded t laws supplies final.clock before final.accounts r after
      pub way : Reach t w before
      pub rest : Reach t after w'

    extend :
        (k : Pubkey) (r : RedemptionRequest) {w v w' : Treasury t}
        → Step t w v
        → (find k w'.requests ≡ some r) ⊎ WasEnded k r v w'
        → (find k w'.requests ≡ some r) ⊎ WasEnded k r w w'
    extend k r step (inl kept) = inl kept
    extend k r step (inr e) = inr (record {
      before = e.before;
      after = e.after;
      final = e.final;
      unchanged = e.unchanged;
      ended = e.ended;
      way = Reach.later step e.way;
      rest = e.rest;
    })

    -- Whatever happens to the treasury, a request that was opened is either still there, and
    -- unchanged, or was ended by `finalize_destake` for its owner at a time when it was due, paying
    -- exactly what it had reserved and burning exactly what it had locked. The token program meets
    -- `TransferLaws` and `SupplyLaws`, the treasury backs its redemptions at the start, users'
    -- accounts are no vaults, and neither the router nor anything outside the program takes from the
    -- pending vaults.
    pub request-kept_or_ended :
        (k : Pubkey) (r : RedemptionRequest) {w w' : Treasury t}
        → IsBacked t w
        → find k w.requests ≡ some r
        → Reach t w w'
        → (find k w'.requests ≡ some r) ⊎ WasEnded k r w w'
    request-kept_or_ended k r b found Reach.here = inl found
    request-kept_or_ended k r {w} {w'} b found (Reach.later {v = v} step rest) =
        elim (Step-request k r {w' = v} step found) [
          | inl kept ↦
              extend k r step
                (request-kept_or_ended k r (Step-IsBacked t laws supplies step b) kept rest)
          | inr final ↦
              let (request, at, ended) =
                finalize_destake-HasEnded t laws supplies final.clock w final.accounts {w' = v} b
                  final.receiver final.done in
              let same : request ≡ r =
                some-injective _ _ (sym at ∙ (ap (λ j. find j w.requests) final.owner ∙ found)) in
              inr (record {
                before = w;
                after = v;
                final = final;
                unchanged = found;
                ended =
                    subst (λ x. HasEnded t laws supplies final.clock w final.accounts x v) same
                      ended;
                way = Reach.here;
                rest = rest;
              })
        ]
