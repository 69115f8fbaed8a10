-- ===== src/Swap.antt =====
-- The block time that the stamper needs, from a chain's JSON-RPC endpoint (pkg/swap).
pub mod Float
pub mod Hex
pub mod Block
pub mod Retry
pub mod Cached
