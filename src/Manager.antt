-- ===== src/Manager.antt =====
-- crates/fw-web and crates/fw-worker: the manager's database and the handlers on it.
pub mod Tables
pub mod Db
pub mod Handler
pub mod Messages
pub mod CheckIn
pub mod Assign
pub mod Preview
pub mod Stale
pub mod Settings
pub mod Enrollment
pub mod Login
pub mod Rules
pub mod RuleGroups
pub mod PolicySets
pub mod Hosts
pub mod Users
pub mod Trail
