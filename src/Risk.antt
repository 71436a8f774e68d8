-- ===== src/Risk.antt =====
-- packages/risk-engine/src: how findings become a score.
pub mod Score
