-- ===== src/Config.antt =====
-- The configuration of pkg/config/config.go: profiles that inherit from one another, and the files
-- that are read into one configuration. `Profiles` and `Read` hold the definitions.
pub mod Profiles
pub mod Resolve
pub mod Sound
pub mod Fuel
pub mod Complete
pub mod Correct
pub mod Read
pub mod Files
pub mod Inherit
