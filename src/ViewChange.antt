-- ===== src/ViewChange.antt =====
-- core/viewchange.go: the view change.
pub mod Send
pub mod Select
pub mod NewView
pub mod Receive
pub mod Initial
pub mod Assignment
pub mod Certified
pub mod Correct
pub mod Taking
pub mod Stuck
pub mod Smallest
pub mod Collect
