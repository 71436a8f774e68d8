-- ===== src/Alerts.antt =====
-- packages/alert-engine/src: when a rule raises an alert.
pub mod Evaluation
