-- ===== src/Portfolio.antt =====
-- packages/portfolio-engine/src: what a wallet's tokens cost.
pub mod CostBasis
