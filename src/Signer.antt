-- ===== src/Signer.antt =====
-- The `recall_signer` crate: subnet IDs, and the signers of transactions.
pub mod Subnet
pub mod World
pub mod Traits
pub mod Key
pub mod Wallet
pub mod Void
