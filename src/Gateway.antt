-- ===== src/Gateway.antt =====
-- programs/gateway: the ZetaChain gateway.
pub mod Errors
pub mod State
pub mod Utils
pub mod Contexts
pub mod Accounts
pub mod Admin
pub mod Deposit
pub mod Withdraw
pub mod Execute
pub mod Program
pub mod Requests
pub mod Tests
