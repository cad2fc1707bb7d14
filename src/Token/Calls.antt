-- ===== src/Token/Calls.antt =====
-- programs/cp-swap/src/utils/token.rs: the calls of a token program that the swap program makes, the
-- transfer fees that it expects, and the mints that it supports.
use mim_swap_sol.Prelude.{
  ℕ, ◌==◌, if◌then◌else◌, ◌&&◌, ◌||◌, not, Bool, true, false, Option, none, some, List, [], ◌∷◌,
  u64_max, checked_add, ok, err, unwrap, ◌>>=◌,
}
use mim_swap_sol.Errors.{Pubkey, ErrorCode, code, Result, call}
use mim_swap_sol.Token.Interface.{ExtensionType, Mint, Transfer, TokenProgram}

abbrev pub max_fee_basis_points : ℕ
max_fee_basis_points = 10_000

-- The base58 keys of `MINT_WHITELIST`, as numbers.
abbrev pub mint_whitelist : List Pubkey
mint_whitelist =
    0xf50e9e92_be2c2547_ea546f1a_7dcc6e55_74ab7c2b_ccefca46_363b6810_8542f7e6
    ∷ 0xb030f976_ef9b21c0_e16220b0_f633e760_9b0eabf4_3f980bb6_c8437da5_b40be70f
    ∷ 0xdc9d2261_9a867be6_a606bf03_c5484930_1a5d1faa_05cac48c_7be74c5f_28da4613
    ∷ 0x1792483b_6c8a2a87_b7471d81_4f9591f9_395c840a_9ce3d9f4_d5ba7d3a_4b8a749e ∷ []

abbrev contains : Pubkey → List Pubkey → Bool
contains k [] = false
contains k (x ∷ xs) = k == x || contains k xs

abbrev is_plain : ExtensionType → Bool
is_plain (ExtensionType.other n) = false
is_plain _ = true

-- The loop over the extensions: one that is not named makes the mint unsupported.
abbrev all_plain : List ExtensionType → Bool
all_plain [] = true
all_plain (e ∷ es) = is_plain e && all_plain es

-- A remaining account: its key, its owner, and the mint that it holds if it can be read as a
-- `SupportMintAssociated`.
pub record AccountInfo : Type 0 where
  pub key : Pubkey
  pub owner : Pubkey
  pub support_mint : Option Pubkey

-- `program` is the swap program's id, `expected` the derived address for the mint.
unfoldable pub support_mint_associated_is_initialized :
    Pubkey → Pubkey → Pubkey → List AccountInfo → Result Bool
support_mint_associated_is_initialized program expected token_mint [] = ok false
support_mint_associated_is_initialized program expected token_mint (info ∷ infos) =
    let rest = support_mint_associated_is_initialized program expected token_mint infos in
    let read = call info.support_mint >>= λ mint. if mint == token_mint then ok true else rest in
    if not (info.owner == program) || not (info.key == expected) then rest else read

module _ (t : TokenProgram) where
  -- The extensions are read only where nothing else decides; reading them can fail.
  unfoldable pub is_supported_mint : Pubkey → Mint t.Config → Bool → Result Bool
  is_supported_mint key mint mint_associated_is_initialized =
      if mint.token_program == t.token_id
        || contains key mint_whitelist
        || mint_associated_is_initialized
      then ok true
      else call mint.extensions >>= λ extensions. ok (all_plain extensions)

  -- Where Token-2022 withholds the whole amount up to a maximum, the fee is that maximum. Otherwise
  -- the inverse fee must be the fee of the amount that it is added to.
  unfoldable pub inverse_fee : ℕ → ℕ → t.Config → Result ℕ
  inverse_fee epoch post_fee_amount config =
      let checked = do
        transfer_fee ← unwrap (t.calculate_inverse_epoch_fee config epoch post_fee_amount)
        pre_fee_amount ← unwrap (checked_add u64_max post_fee_amount transfer_fee)
        for_check ← unwrap (t.calculate_epoch_fee config epoch pre_fee_amount)
        if not (transfer_fee == for_check)
            then err (code ErrorCode.transfer_fee_calculate_not_match)
            else ok transfer_fee
      in if t.basis_points config epoch == max_fee_basis_points
        then ok (t.maximum_fee config epoch)
        else checked

  abbrev inverse_fee_of : ℕ → ℕ → Option t.Config → Result ℕ
  inverse_fee_of epoch post_fee_amount none = ok 0
  inverse_fee_of epoch post_fee_amount (some config) = inverse_fee epoch post_fee_amount config

  unfoldable pub get_transfer_inverse_fee : ℕ → Mint t.Config → ℕ → Result ℕ
  get_transfer_inverse_fee epoch mint post_fee_amount =
      if mint.token_program == t.token_id
      then ok 0
      else if post_fee_amount == 0
      then err (code ErrorCode.invalid_input)
      else inverse_fee_of epoch post_fee_amount mint.transfer_fee

  abbrev fee_of : ℕ → ℕ → Option t.Config → Result ℕ
  fee_of epoch pre_fee_amount none = ok 0
  fee_of epoch pre_fee_amount (some config) =
      unwrap (t.calculate_epoch_fee config epoch pre_fee_amount)

  unfoldable pub get_transfer_fee : ℕ → Mint t.Config → ℕ → Result ℕ
  get_transfer_fee epoch mint pre_fee_amount =
      if mint.token_program == t.token_id
      then ok 0
      else fee_of epoch pre_fee_amount mint.transfer_fee

  unfoldable pub transfer_from_user_to_pool_vault :
      ℕ → Transfer → ℕ → ℕ → t.Ledger → Result t.Ledger
  transfer_from_user_to_pool_vault epoch accounts amount mint_decimals ledger =
      if amount == 0
      then ok ledger
      else call (t.transfer_checked accounts amount mint_decimals epoch ledger)

  unfoldable pub transfer_from_pool_vault_to_user :
      ℕ → Transfer → ℕ → ℕ → t.Ledger → Result t.Ledger
  transfer_from_pool_vault_to_user epoch accounts amount mint_decimals ledger =
      if amount == 0
      then ok ledger
      else call (t.transfer_checked accounts amount mint_decimals epoch ledger)

  -- The authority, the mint, and the account that receives or gives up the tokens.
  unfoldable pub token_mint_to : Pubkey → Pubkey → Pubkey → ℕ → t.Ledger → Result t.Ledger
  token_mint_to authority mint destination amount ledger =
      call (t.mint_to authority mint destination amount ledger)

  unfoldable pub token_burn : Pubkey → Pubkey → Pubkey → ℕ → t.Ledger → Result t.Ledger
  token_burn authority mint from amount ledger = call (t.burn authority mint from amount ledger)
