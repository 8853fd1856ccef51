-- ===== src/Node.antt =====
-- A node: its settings and surroundings, its state, and the monad of its handlers.
pub mod Env
pub mod State
pub mod Monad
pub mod Cert
pub mod Send
pub mod Timers
pub mod Window
