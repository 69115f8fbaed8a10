-- ===== src/Examples.antt =====
-- The theorems at concrete inputs, and small runs of the definitions.
mod ConfigFiles
mod Numbers
mod Batches
mod BlockTime
mod Cluster
mod Nodes
mod Nukes
mod Purchases
mod Runs
mod Recreations
mod FullNodes
mod Setups
mod Providers
mod Cashouts
mod Networks
mod Restarts
