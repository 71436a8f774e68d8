-- ===== src/Discovery.antt =====
-- packages/discovery-engine/src: the ranked feeds of tokens and their pages.
pub mod Pagination
pub mod Feeds
pub mod Scores
