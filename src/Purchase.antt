-- ===== src/Purchase.antt =====
-- The purchase of postage batches by the client of a node, and the waits for the chain to confirm a
-- change of one (pkg/bee/client.go).
pub mod Buy
pub mod Reuse
pub mod Confirm
pub mod Changed
