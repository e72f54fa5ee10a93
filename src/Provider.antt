-- ===== src/Provider.antt =====
-- The `recall_provider` crate: messages, queries, transactions and the JSON RPC provider.
pub mod Broadcasts
pub mod Message
pub mod Tx
pub mod Response
pub mod Traits
pub mod Query
pub mod JsonRpc
pub mod Util
