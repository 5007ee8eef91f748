-- ===== src/Gateway/Tests.antt =====
-- Runs of the model of programs/gateway at concrete inputs.
pub mod Runtime
pub mod Accounts
mod Withdrawals
mod Executions
mod Deposits
mod Messages
mod Runs
mod Whitelisting
mod Payments
