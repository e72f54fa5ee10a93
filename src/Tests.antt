-- ===== src/Tests.antt =====
-- Tests: the functions at concrete inputs, on a small chain.
pub mod Samples
pub mod Accounts
pub mod Provider
pub mod Signer
pub mod Sdk
pub mod Bucket
pub mod Fees
pub mod Evm
pub mod Host
pub mod Cli
pub mod Commands
pub mod Input
pub mod Programs
pub mod Runs
