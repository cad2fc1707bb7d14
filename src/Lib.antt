-- ===== src/Lib.antt =====
-- The constant-product swap program (programs/cp-swap) and the Mana treasury program
-- (programs/mana-treasury), as functions on their accounts, with theorems about them.
--
-- The swap program keeps a pool of two tokens. A pool's state records its vaults, the fees that it owes
-- to the protocol, the fund and the pool's creator, and the supply of its lp token. Users swap one token
-- for the other, deposit both for lp tokens and withdraw both for them; the fees that are owed leave by
-- separate instructions, those of the protocol and the fund for the vaults of the treasury. The treasury
-- mints Mana for MIM that is deposited, and pays MIM for Mana that is given up: a redemption request
-- reserves the MIM in a pending vault, and pays it out after a cooldown. Other tokens that reach the
-- treasury are swapped to MIM by a router.
--
-- The files, by the code that they are about:
-- - Prelude and its children: the helpers that all share. Prelude/Checked is the checked arithmetic of
--   machine integers, with the maximum of the type as an argument; Prelude/Results the outcomes of
--   fallible code, in which a panic (`unwrap`, an overflow under `overflow-checks`) is told apart from
--   an error; Prelude/Int the signed time stamps.
-- - Errors: programs/cp-swap/src/error.rs, with the errors that Anchor returns.
-- - Curve/Fees, Curve/ConstantProduct and Curve/Calculator: programs/cp-swap/src/curve and
--   utils/math.rs. About them are Curve/FeeLaws, Exchange, Traces, SwapLaws, ShareLaws and Totality.
-- - States: programs/cp-swap/src/states with instructions/admin/create_config.rs and update_config.rs.
--   Pool and PoolFees are `PoolState`, Config `AmmConfig`, Oracle `ObservationState`; the files that end
--   in Laws, and OracleRing, are about them.
-- - Token: the token programs. Token/Interface is the parameter that stands for SPL Token and
--   Token-2022, Token/Calls programs/cp-swap/src/utils/token.rs, Token/Laws and Token/SupplyLaws what
--   the documentation of the token programs promises, as hypotheses, and Token/Simple a token program
--   that meets them, on which the tests run.
-- - Swap: instructions/swap_base_input.rs and swap_base_output.rs. A `World` is the pool, its oracle and
--   the token program's ledger. Swap/Handlers are the handlers (`handle_base_input` is
--   `swap_base_input`, `handle_base_output` is `swap_base_output`), Swap/Settle what both share.
-- - Creation: instructions/initialize.rs and initialize_with_permission.rs (`handle_initialize` and
--   `handle_initialize_with_permission`), with the parts of utils/token.rs that create accounts. The
--   system program is a parameter. SystemLaws and Mints say what its calls leave as it was, Founding
--   what a new pool is like.
-- - Liquidity: instructions/deposit.rs and withdraw.rs; the handlers keep their names.
-- - FeeCollection: admin/collect_protocol_fee.rs, admin/collect_fund_fee.rs, collect_creator_fee.rs and
--   admin/update_pool_status.rs. Payout and Recipients are about the two transfers, of what the vaults
--   lose and of what arrives; Safety is about the whole instructions.
-- - Trading: the step relation of the swap program's instructions on one pool, and what a lp token is
--   worth over any sequence of them.
-- - Treasury: programs/mana-treasury/src/lib.rs. State has the accounts and the two prices, Accounts
--   Anchor's constraints, Staking the deposit, the donation and the redemption, Router the assets and
--   their swaps, Admin the rest.
--   About them: Pricing has the two formulas, Runs the intermediate values of the instructions,
--   Holdings and Effects what they do to the vaults, Prices the MIM behind each active Mana, Requests
--   and Backing the open redemptions, Administration and Authority what the authority can do, Steps the
--   step relation of the whole program, Reachable, Redemption and Lifetime the redemptions over any
--   sequence of steps.
-- - Tests: runs at concrete inputs.
--
-- An instruction is a function from the accounts it is given, its arguments and the state to a new
-- state or an error; a failed instruction leaves the state as it was, as a failed transaction does.
-- Anchor reads the accounts before a handler begins, so a handler sees the amounts, supplies and
-- decimals of the ledger at its start. A public key is a number. All loops are recursion on a list,
-- so no fuel is used; the square root that sets the first lp supply is a library's, and a parameter.
-- Addresses that are derived from seeds are given, or computed by a parameter.
--
-- Not modelled: the instructions that open and close permissions and support-mint accounts (the creation
-- of a pool takes what it reads of them as arguments); utils/account_load.rs, which is about the layout
-- of accounts in memory; the logs of `enable-log`; client, scripts and tests, which are input and
-- output. What Anchor does from its attributes beyond the constraints written out (signers, seeds,
-- rent) is taken as given.
pub mod Prelude
pub mod Curve
pub mod Errors
pub mod Token
pub mod States
pub mod Swap
pub mod Creation
pub mod Liquidity
pub mod FeeCollection
pub mod Trading
pub mod Treasury
pub mod Tests
