-- ===== src/Entitlements.antt =====
-- packages/entitlements/src: what a wallet's token balance entitles it to.
pub mod Gating
