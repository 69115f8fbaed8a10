-- ===== src/Nuker.antt =====
-- The nuker of pkg/nuker/nuker.go, which runs a command in place of the nodes of a stateful set and
-- then puts the set back. `Update` has the update and rollback of one set, `Sets` the loop over those
-- that a list names, and `Run` the run over the sets of the nodes with their neighborhoods; `Given`
-- says what becomes of the sets one after the other.
pub mod Update
pub mod Attempts
pub mod Rollback
pub mod Sets
pub mod Order
pub mod Nuked
pub mod Run
pub mod Numbers
pub mod Replicas
pub mod Given
pub mod Neighborhoods
