-- ===== src/Treasury/Runs.antt =====
-- The intermediate values of the treasury's instructions that succeed
-- (programs/mana-treasury/src/lib.rs).
mod Validations
mod Stake
mod Destake
mod Assets
pub use Validations.*
pub use Stake.*
pub use Destake.*
pub use Assets.*
