-- ===== src/Proposals.antt =====
-- hosted/proposals: the versions of a proposal, the repository that keeps them and the service that
-- drafts, corrects, rejects, approves and reconciles them.
pub mod Models
pub mod Digests
pub mod Repository
mod Queries
pub mod Service
pub mod Machine
pub mod Frozen
pub mod Trail
pub mod Editor
mod Tests
