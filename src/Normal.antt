-- ===== src/Normal.antt =====
-- core/core.go: the normal case of the protocol.
pub mod Execute
pub mod Commit
pub mod Prepare
pub mod Certificates
pub mod PrePrepare
pub mod Checkpoint
pub mod Voters
pub mod Stability
pub mod Steady
pub mod Fuel
pub mod Voted
