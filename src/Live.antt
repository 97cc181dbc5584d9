-- ===== src/Live.antt =====
-- hosted/ai: live sessions, in which devices capture events in order until the session ends.
pub mod Models
pub mod Service
pub mod Consistent
pub mod Steps
pub mod Reach
pub mod Replay
pub mod Barrier
mod Tests
