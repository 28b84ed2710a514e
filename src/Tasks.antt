-- ===== src/Tasks.antt =====
-- internal/tasks and internal/model/task.go: the to-do list's rules.
pub mod Task
pub mod Plan
pub mod Timeline
pub mod Edit
pub mod Patch
pub mod Order
pub mod Sound
pub mod Import
pub mod Merge
pub mod Heading
pub mod Context
pub mod Storage
mod Tests
mod StorageTests
