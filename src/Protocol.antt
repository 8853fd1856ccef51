-- ===== src/Protocol.antt =====
-- The protocol as one node sees it: what the handlers of core/core.go and core/viewchange.go promise
-- of the state that decides which requests are executed, as a step relation.
pub mod Keeps
pub mod Quiet
pub mod Certs
pub mod Execution
pub mod Commits
pub mod Voting
pub mod Accepting
pub mod Proposals
pub mod Pool
pub mod Checkpoints
pub mod Entering
pub mod Joining
pub mod Refines
pub mod Core
pub mod Spec
pub mod Sound
pub mod Digest
pub mod Loyalty
pub mod Safety
pub mod HighMark
pub mod Filed
pub mod Order
pub mod Votes
pub mod Quorum
pub mod Agreement
pub mod Progress
pub mod Decided
