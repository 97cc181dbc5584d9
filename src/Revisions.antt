-- ===== src/Revisions.antt =====
-- hosted/revisions: publication of campaign revisions.
pub mod Models
pub mod Checks
pub mod Canonical
pub mod Repository
pub mod Store
pub mod Service
pub mod Lineage
mod Tests
