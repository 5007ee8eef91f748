-- ===== src/Solana.antt =====
-- What the programs use of Solana and Anchor: results, accounts, and the runtime as a parameter.
pub mod Result
pub mod Account
pub mod Runtime
pub mod Laws
pub mod Moves
