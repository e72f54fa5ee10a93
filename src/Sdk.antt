-- ===== src/Sdk.antt =====
-- The `recall_sdk` crate: machines, credits, accounts, subnets and storage.
pub mod Codecs
pub mod Call
pub mod Machine
pub mod Timehub
pub mod Bucket
pub mod Credits
pub mod Account
pub mod Config
pub mod Storage
pub mod Ipc
pub mod Network
