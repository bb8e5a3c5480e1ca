-- ===== src/Remediation.antt =====
-- The remediation domain: internal/remediation.
pub mod States
