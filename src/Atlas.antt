-- ===== src/Atlas.antt =====
-- hosted/projections: the Atlas projection of a published revision, its records, connections and
-- history.
pub mod Models
pub mod Lineage
pub mod Records
pub mod History
pub mod Rebuild
pub mod Tests
