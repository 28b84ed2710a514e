-- ===== src/Collector.antt =====
-- internal/server/server.go, attention.go, autoarchive.go and internal/db/db.go: the collector, which keeps
-- a row for each session from what the hooks of Claude Code report.
pub mod Words
pub mod Rows
pub mod Approvals
pub mod Hooks
pub mod Listing
pub mod Marks
pub mod Machine
pub mod Screens
pub mod Projects
pub mod Holds
mod Tests
mod RoundTests
