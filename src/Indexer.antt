-- ===== src/Indexer.antt =====
-- apps/indexer/src: what the block indexer keeps in the database.
pub mod Blocks
pub mod Fetcher
pub mod Gaps
pub mod Lease
pub mod Live
pub mod Persister
pub mod PoolBackfill
pub mod Reorg
pub mod Retention
