-- ===== src/Stamper.antt =====
-- The stamper of pkg/stamper: `Batch` holds the arithmetic of batches and durations, `Node` the
-- operations on one node, `Client` those on all nodes.
pub mod Seconds
pub mod Batch
pub mod Node
pub mod Client
pub mod Amount
pub mod Calls
pub mod First
pub mod Usage
