-- ===== src/Auth.antt =====
-- crates/fw-auth: who an operator is and what the role allows.
pub mod Rbac
pub mod Password
