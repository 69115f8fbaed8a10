-- ===== src/Random.antt =====
-- The number generator of pkg/random/random.go. `Defs` holds the definitions.
pub mod Defs
pub mod Range
pub mod Unique
pub mod Draws
