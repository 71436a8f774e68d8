-- ===== src/Queue.antt =====
-- packages/queue/src: the cache in front of slow upstreams.
pub mod Cache
