-- ===== src/Examples.antt =====
-- The theorems at concrete inputs.
mod Setting
mod Runs
mod Views
mod Handlers
mod Replicas
mod Devices
mod ToyKeys
mod Clusters
mod Starting
