-- ===== src/Lib.antt =====
-- Hood Sentry: models of the parts of the program that decide, and proofs of what they promise.
--
-- The program watches a chain and its tokens. An indexer (apps/indexer) reads blocks through RPC
-- providers (packages/chain), keeps their events in a database (packages/db), and workers and an API
-- compute prices, alerts, risk, positions and entitlements from them. The files follow these parts.
--
--   Prelude      Names, tests, lists, sorting, signed integers and JavaScript maps that the others share.
--   Rpc          packages/chain/src/rpc. A call to a provider passes the rate limiter (RateLimiter), is
--                retried (RetryPolicy), and is counted by the breaker of its provider (CircuitBreaker)
--                through the provider's health record (Health). The monitor of block lag (BlockLag) and
--                the health records are what the choice of a provider (Selector) reads. Client puts
--                these together: one call goes over the providers as executeWithFailover lets it.
--   Indexer      apps/indexer/src. The scan for blocks that the database lacks (Gaps), the leases by
--                which one worker owns a stream (Lease), the answer to a reorganisation (Reorg), and
--                the live mode (Live), a loop that takes blocks from the fetcher (Fetcher) and gives
--                them to the persister (Persister), that the reorg detector sets back, and that
--                prunes its tables of old rows (Retention) once an interval is over. Beside it
--                the back fill of pools from a factory (PoolBackfill). Blocks has the data that
--                they share.
--   Entitlements packages/entitlements/src/token-gating.ts: tiers by token balance (Gating).
--   Portfolio    packages/portfolio-engine/src/cost-basis.ts: first-in first-out cost (CostBasis).
--   Market       packages/market-engine/src: integer arithmetic (Arithmetic) and swap quotes (Depth).
--   Alerts       packages/alert-engine/src/evaluation.ts: when a rule raises an alert (Evaluation).
--   Discovery    packages/discovery-engine/src: the trending score of a token (Scores), the ranked feeds
--                of tokens with their sponsored placements (Feeds), and the pages in which
--                clients read them (Pagination).
--   Queue        packages/queue/src/cache.ts: the read-through cache of the API (Cache).
--   Risk         packages/risk-engine/src/deterministic-score.ts: from findings to a score (Score).
--   Trading      packages/trading/src/quote-trading.ts and transaction-intent.ts: what is checked before
--                a transaction is offered or sent (Quote, Intent).
--
-- Names are the source's, in snake case. A class is a record of its fields and its methods are functions
-- from the old record to the new one and the result; a method that runs without a wait reads the clock
-- once, as the argument `now`. What other code may do between two waits is a list of calls or of
-- single statements, over which a `run` function goes. An error is a value of the result. A database
-- query, a fetch, a simulation and the lists of allowed addresses are parameters.
--
-- Numbers: bigints and milliseconds are natural numbers where the source never makes them negative,
-- and signed (Prelude.Int) where it may. The rate limiter counts thousandths of a token, for whole
-- rates; the jitter of a retry is a whole number of 2^-53 parts, as Math.random gives it; a rate or an
-- average of a provider is the fraction of two whole numbers that the code divides. The clock of a call
-- may be set back unless a theorem says otherwise. A `Map` is the list of its entries in the order of insertion.
--
-- Loops are recursion on a list or on the number of rounds the source's condition gives (the blocks of
-- a range, the attempts that are left), so no fuel can run out. Three loops of the indexer have fuel,
-- and a result that says when it ran out: the batches of the back fill, for which the pairs that are
-- left are enough, and the deletes of the pruner, for which the rows of a table are (the live loop gives
-- the rows of all its tables and one). The halvings of a
-- binary logarithm have the number itself as fuel, which is at least its binary digits. The workers of a
-- window of blocks and the callers of the cache take turns in any order, which is a list; one pass of
-- the live loop has what the services answer in it as its World, and a run is a list of these.
--
-- Not modelled: the user interfaces, HTTP and bot handlers, schemas and SQL, logging and tracing, the
-- clients of outside services, the modes of the indexer besides the live one, the signals of
-- manipulation in a trending score, the health checks and sockets of the RPC client, the tables of the
-- two optional repositories in a reorganisation, and the average lag of a provider, a float.
pub mod Prelude
pub mod Rpc
pub mod Indexer
pub mod Portfolio
pub mod Entitlements
pub mod Market
pub mod Trading
pub mod Discovery
pub mod Queue
pub mod Risk
pub mod Alerts
