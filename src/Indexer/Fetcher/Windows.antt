-- ===== src/Indexer/Fetcher/Windows.antt =====
-- `fetchBlockWindow` of apps/indexer/src/block-fetcher.ts: its workers, which share a cursor, each
-- with at most one request in flight. A turn of the event loop is one worker that goes on.
use hood_sentry.Prelude.{
  ℕ, zero, suc, ◌+◌, ◌-◌, min, max, Bool, true, false, not, ◌&&◌, Option, none, some, List, [], ◌∷◌,
  ltb, ◌==◌, if◌then◌else◌, length, get_elem?, set, replicate,
}
use hood_sentry.Prelude.Attempt.{Attempt, threw, returned}
use hood_sentry.Indexer.Blocks.{BlockData}
use hood_sentry.Indexer.Fetcher.{RpcClient, fetch_block, until_hole}

-- The indexes whose request is in flight stand in `busy`, one for each busy worker.
pub record Window : Type 0 where
  pub cursor : ℕ
  pub results : List (Option BlockData)
  pub idle : ℕ
  pub busy : List ℕ
  pub failed : Bool

-- An idle worker takes an index, or the answer to the request at a place of `busy` arrives.
pub data Turn : Type 0 where
  take_index : Turn
  answer_at : ℕ → Turn

abbrev pub remove_at : List ℕ → ℕ → List ℕ
remove_at [] k = []
remove_at (x ∷ xs) zero = xs
remove_at (x ∷ xs) (suc k) = x ∷ remove_at xs k

-- An idle worker beyond the last index returns.
unfoldable pub taken : ℕ → Window → Window
taken count w =
    if ltb w.cursor count
    then record w { cursor = w.cursor + 1; idle = w.idle - 1; busy = w.cursor ∷ w.busy }
    else record w { cursor = w.cursor + 1; idle = w.idle - 1 }

-- A request that throws ends its worker, and fails the window.
abbrev pub settled : ℕ → ℕ → Attempt (Option BlockData) → Window → Window
settled k i threw w = record w { busy = remove_at w.busy k; failed = true }
settled k i (returned r) w = record w {
  results = set w.results i r;
  idle = w.idle + 1;
  busy = remove_at w.busy k;
}

abbrev pub arrived : (ℕ → Attempt (Option BlockData)) → ℕ → Option ℕ → Window → Window
arrived answer k none w = w
arrived answer k (some i) w = settled k i (answer i) w

unfoldable pub turn : (ℕ → Attempt (Option BlockData)) → ℕ → Turn → Window → Window
unfolding taken
turn answer count take_index w = if w.idle == 0 then w else taken count w
turn answer count (answer_at k) w = arrived answer k (get_elem? w.busy k) w

unfoldable pub turns : (ℕ → Attempt (Option BlockData)) → ℕ → List Turn → Window → Window
unfolding turn
turns answer count [] w = w
turns answer count (t ∷ ts) w = turns answer count ts (turn answer count t w)

abbrev pub worker_count : ℕ → ℕ → ℕ
worker_count concurrency count = max 1 (min concurrency count)

abbrev pub window : ℕ → ℕ → Window
window concurrency count = record {
  cursor = 0;
  results = replicate count none;
  idle = worker_count concurrency count;
  busy = [];
  failed = false;
}

-- All workers have returned: `Promise.all` is fulfilled.
abbrev pub is_done : Window → Bool
is_done w = (w.idle == 0) && (length w.busy == 0) && not w.failed

-- The request of each index from the first of a window on.
abbrev pub requests : RpcClient → Option (List (List ℕ)) → ℕ → ℕ → Attempt (Option BlockData)
requests client topics first i = fetch_block client topics (first + i)

-- What the method returns when its workers took these turns, if they all returned.
unfoldable pub fetch_block_window :
    RpcClient → Option (List (List ℕ)) → ℕ → ℕ → ℕ → List Turn → Option (List BlockData)
unfolding turns fetch_block
fetch_block_window client topics first count concurrency ts =
    let w = turns (requests client topics first) count ts (window concurrency count) in
    if is_done w then some (until_hole w.results) else none
