-- ===== src/Agent.antt =====
-- crates/fw-agent: the daemon on each host.
pub mod Protected
pub mod Os
pub mod Backend
pub mod Ufw
pub mod Firewalld
pub mod Detect
pub mod State
pub mod SafeMode
pub mod Replay
pub mod Wire
pub mod Apply
pub mod Cycle
