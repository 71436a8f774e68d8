-- ===== src/Market.antt =====
-- packages/market-engine/src: prices and swaps in whole numbers.
pub mod Arithmetic
pub mod Depth
