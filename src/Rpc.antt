-- ===== src/Rpc.antt =====
-- packages/chain/src/rpc: how calls to the chain's RPC providers are guarded.
pub mod CircuitBreaker
pub mod BlockLag
pub mod RateLimiter
pub mod RetryPolicy
pub mod Health
pub mod Selector
pub mod Client
