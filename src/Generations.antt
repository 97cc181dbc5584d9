-- ===== src/Generations.antt =====
-- hosted/ai: the generations that a provider streams.
pub mod Models
pub mod Dispatch
pub mod Terminal
mod Tests
