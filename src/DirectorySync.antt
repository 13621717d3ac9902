-- ===== src/DirectorySync.antt =====
-- internal/service/directory_sync_service.go: users and departments of a remote directory.
pub mod Names
pub mod Unique
pub mod Email
pub mod Paths
pub mod Fields
pub mod State
pub mod Departments
pub mod Remote
pub mod Rows
pub mod Users
pub mod Missing
pub mod Blank
pub mod Conflict
