-- ===== src/Campaign.antt =====
-- standalone.py: the campaign commands that are copied into every campaign.
pub mod Text
pub mod Json
pub mod Connections
pub mod Frontmatter
pub mod Graph
pub mod Rules
pub mod Related
pub mod Newlines
pub mod Indexes
pub mod Context
pub mod Listing
pub mod Create
pub mod Commands
pub mod Validate
pub mod Tests
