-- ===== src/Reference.antt =====
-- The reference service of internal/reference/: server.go and config.go.
pub mod Types
pub mod Authority
pub mod State
pub mod Identifiers
pub mod Config
pub mod Issue
pub mod Authorize
pub mod Gates
pub mod Remember
pub mod Recall
pub mod Machine
