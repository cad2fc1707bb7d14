-- ===== src/Treasury/Accounts.antt =====
-- The accounts of the treasury's instructions with Anchor's constraints on them, in the order of
-- their fields (programs/mana-treasury/src/lib.rs). That signers sign, that `treasury_authority` and
-- the accounts with seeds are the derived addresses, that an associated account is found or created
-- and that a token account belongs to the token program given with it is Anchor's.
use mim_swap_sol.Prelude.{
  ℕ, ◌==◌, if◌then◌else◌, Option, none, some, List, [], ◌∷◌, err, ok, require, ◌>>=◌, ◌>>◌,
}
use mim_swap_sol.Errors.{Pubkey, AnchorError}
use mim_swap_sol.Token.Interface.{TokenProgram, TokenAccount}
use mim_swap_sol.Treasury.Errors.{TreasuryError, treasury, anchor, external, Attempt}
use mim_swap_sol.Treasury.State.{AssetVault, RedemptionRequest, Treasury}

pub record DepositMim : Type 0 where
  pub depositor : Pubkey
  pub treasury_authority : Pubkey
  pub mim_mint : Pubkey
  pub mana_mint : Pubkey
  pub depositor_mim : Pubkey
  pub depositor_mana : Pubkey
  pub active_mim_vault : Pubkey
  pub mim_token_program : Pubkey

pub record DonateMim : Type 0 where
  pub donor : Pubkey
  pub mim_mint : Pubkey
  pub donor_mim : Pubkey
  pub active_mim_vault : Pubkey
  pub mim_token_program : Pubkey

pub record DonateAsset : Type 0 where
  pub donor : Pubkey
  pub asset_mint : Pubkey
  pub asset_vault : Pubkey
  pub donor_asset : Pubkey
  pub asset_token_account : Pubkey
  pub asset_token_program : Pubkey

pub record SwapAssetToMim : Type 0 where
  pub authority : Pubkey
  pub treasury_authority : Pubkey
  pub asset_mint : Pubkey
  pub asset_vault : Pubkey
  pub asset_token_account : Pubkey
  pub active_mim_vault : Pubkey
  pub router_program : Pubkey

pub record StartDestake : Type 0 where
  pub owner : Pubkey
  pub treasury_authority : Pubkey
  pub mim_mint : Pubkey
  pub mana_mint : Pubkey
  pub owner_mana : Pubkey
  pub pending_mana_vault : Pubkey
  pub active_mim_vault : Pubkey
  pub pending_mim_vault : Pubkey
  pub request_bump : ℕ
  pub mim_token_program : Pubkey
  pub mana_token_program : Pubkey

pub record FinalizeDestake : Type 0 where
  pub owner : Pubkey
  pub treasury_authority : Pubkey
  pub mim_mint : Pubkey
  pub mana_mint : Pubkey
  pub pending_mim_vault : Pubkey
  pub pending_mana_vault : Pubkey
  pub owner_mim : Pubkey
  pub mim_token_program : Pubkey

-- The account of `k` among those kept by a key.
unfoldable pub find {ℓ} : {A : Type ℓ} → Pubkey → List (Pubkey × A) → Option A
find k [] = none
find k ((j, a) ∷ rest) = if k == j then some a else find k rest

-- `address = key`
abbrev pub at_address : Pubkey → Pubkey → Attempt (Unit {0})
at_address key account = require (account == key) (anchor AnchorError.constraint_address)

-- `token::mint = mint, token::authority = authority`
abbrev pub token_of : Pubkey → Pubkey → TokenAccount → Attempt (Unit {0})
token_of mint authority account = do
  require (account.owner == authority) (anchor AnchorError.constraint_token_owner)
  require (account.mint == mint) (anchor AnchorError.constraint_token_mint)

-- `init`: the account must not exist.
abbrev pub is_new {ℓ} : {A : Type ℓ} → Option A → Attempt (Unit {0})
is_new none = ok tt
is_new (some _) = err external

-- An account that the instruction reads must exist.
abbrev pub exists {ℓ} : {A : Type ℓ} → Option A → Attempt A
exists none = err (anchor AnchorError.account_not_initialized)
exists (some a) = ok a

module _ (t : TokenProgram) where
  unfoldable pub validate_deposit_mim : DepositMim → Treasury t → Attempt (Unit {0})
  validate_deposit_mim a w = do
    at_address w.state.mim_mint a.mim_mint
    at_address w.state.mana_mint a.mana_mint
    token_of a.mim_mint a.depositor (t.account w.ledger a.depositor_mim)
    at_address w.state.active_mim_vault a.active_mim_vault

  unfoldable pub validate_donate_mim : DonateMim → Treasury t → Attempt (Unit {0})
  validate_donate_mim a w = do
    at_address w.state.mim_mint a.mim_mint
    token_of a.mim_mint a.donor (t.account w.ledger a.donor_mim)
    at_address w.state.active_mim_vault a.active_mim_vault

  -- The constraints on the vault of an asset, which `DonateAsset` and `SwapAssetToMim` share. The
  -- vault is named by the mint that its address is derived from.
  unfoldable pub validate_asset_vault : Pubkey → Pubkey → Pubkey → Treasury t → Attempt AssetVault
  validate_asset_vault key asset_mint asset_token_account w = do
    vault ← exists (find key w.asset_vaults)
    require (vault.treasury == w.key) (treasury TreasuryError.invalid_asset_vault)
    require (vault.mint == asset_mint) (treasury TreasuryError.invalid_asset_vault)
    require (vault.token_account == asset_token_account)
        (treasury TreasuryError.invalid_asset_vault)
    ok vault

  unfoldable pub validate_donate_asset : DonateAsset → Treasury t → Attempt (Unit {0})
  validate_donate_asset a w = do
    vault ← validate_asset_vault a.asset_vault a.asset_mint a.asset_token_account w
    token_of a.asset_mint a.donor (t.account w.ledger a.donor_asset)
    at_address vault.token_account a.asset_token_account

  unfoldable pub validate_swap_asset : SwapAssetToMim → Treasury t → Attempt (Unit {0})
  validate_swap_asset a w = do
    vault ← validate_asset_vault a.asset_vault a.asset_mint a.asset_token_account w
    at_address vault.token_account a.asset_token_account
    at_address w.state.active_mim_vault a.active_mim_vault

  unfoldable pub validate_start_destake : StartDestake → Treasury t → Attempt (Unit {0})
  validate_start_destake a w = do
    is_new (find a.owner w.requests)
    at_address w.state.mim_mint a.mim_mint
    at_address w.state.mana_mint a.mana_mint
    token_of a.mana_mint a.owner (t.account w.ledger a.owner_mana)
    at_address w.state.pending_mana_vault a.pending_mana_vault
    at_address w.state.active_mim_vault a.active_mim_vault
    at_address w.state.pending_mim_vault a.pending_mim_vault

  -- The request is the one at the address that is derived from the owner.
  unfoldable pub validate_finalize_destake :
      FinalizeDestake → Treasury t → Attempt RedemptionRequest
  validate_finalize_destake a w = do
    request ← exists (find a.owner w.requests)
    at_address w.state.mim_mint a.mim_mint
    at_address w.state.mana_mint a.mana_mint
    at_address w.state.pending_mim_vault a.pending_mim_vault
    at_address w.state.pending_mana_vault a.pending_mana_vault
    require (request.owner == a.owner) (treasury TreasuryError.invalid_redemption_owner)
    require (request.treasury == w.key) (treasury TreasuryError.invalid_redemption_owner)
    ok request
