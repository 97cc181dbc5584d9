-- ===== src/Campaign/Validate.antt =====
-- standalone.py: `validate_campaign`, in the order of its parts.
pub mod Metadata
pub mod Settings
pub mod Records
pub mod Report
pub mod Tests
