-- ===== src/Sdk/Ipc.antt =====
-- The EVM side of the sdk: sdk/src/ipc.
pub mod Fees
pub mod Evm
pub mod Manager
