-- ===== src/Server/Listen.antt =====
-- server.hpp: `accept_loop` with the counters of the workers, the guard of a connection, and the handler of
-- the signals in `listen`.
pub mod Counts
pub mod Balance
mod Examples
use lundicpp.Base.{
  ℕ, zero, suc, List, [], ◌∷◌, Bool, true, false, Option, none, some, ◌==◌, if◌then◌else◌,
  get_elem?, replicate,
}
use lundicpp.Server.{least_loaded}

-- The counters, the worker that the loop has chosen while it waits for a connection, and for each
-- connection that is open the worker of the counter that its guard holds; whether the acceptor is open, the
-- flag of the application, and whether the workers were stopped.
pub record Listening : Type 0 where
  pub conn_counts : List ℕ
  pub best : ℕ
  pub open_connections : List ℕ
  pub accepting : Bool
  pub shutting_down : Bool
  pub stopped : Bool

-- The search for the least loaded worker. `listen` makes one at least.
unfoldable pub choose : List ℕ → ℕ
unfolding least_loaded
choose [] = 0
choose (first ∷ counts) = least_loaded first counts

abbrev pub store_count : ℕ → ℕ → List ℕ → List ℕ
store_count i v [] = []
store_count zero v (c ∷ counts) = v ∷ counts
store_count (suc i) v (c ∷ counts) = c ∷ store_count i v counts

-- `fetch_add( 1 )` and `fetch_sub( 1 )` on the counter of a worker. A fault (`none`) is an index outside
-- the vector, or a count below 0.
unfoldable pub fetch_add : ℕ → List ℕ → Option (List ℕ)
fetch_add i counts = elim (get_elem? counts i) [
  | none ↦ none
  | some c ↦ some (store_count i (suc c) counts)
]

unfoldable pub fetch_sub : ℕ → List ℕ → Option (List ℕ)
fetch_sub i counts = elim (get_elem? counts i) [
  | none ↦ none
  | some c ↦ elim c [ zero ↦ none | suc c ↦ some (store_count i c counts) ]
]

-- The set-up, where `workers` is what `worker_count` gives.
unfoldable pub start_listening : ℕ → Listening
unfolding choose
start_listening workers = record {
  conn_counts = replicate workers 0;
  best = choose (replicate workers 0);
  open_connections = [];
  accepting = true;
  shutting_down = false;
  stopped = false;
}

-- What happens: the acceptor delivers a connection, one of a worker ends, a signal comes, or the acceptor or
-- the option of the socket fails.
pub data Event : Type 0 where
  accepted signalled failed : Event
  ended : ℕ → Event

abbrev pub without_one : ℕ → List ℕ → List ℕ
without_one i [] = []
without_one i (j ∷ connections) = if j == i then connections else j ∷ without_one i connections

-- Behind `async_accept`, to the next one.
unfoldable pub on_accepted : Listening → Option (List ℕ) → Option Listening
unfolding choose
on_accepted s none = none
on_accepted s (some counts) = some (record s {
  conn_counts = counts;
  best = choose counts;
  open_connections = s.best ∷ s.open_connections;
})

-- `~conn_guard()`.
unfoldable pub on_ended : ℕ → Listening → Option (List ℕ) → Option Listening
on_ended i s none = none
on_ended i s (some counts) =
    some (record s { conn_counts = counts; open_connections = without_one i s.open_connections })

unfoldable pub happens : Event → Listening → Option Listening
unfolding fetch_add fetch_sub on_accepted on_ended
happens accepted s = on_accepted s (fetch_add s.best s.conn_counts)
happens (ended i) s = on_ended i s (fetch_sub i s.conn_counts)
happens signalled s = some (record s { accepting = false; shutting_down = true; stopped = true })
happens failed s = some (record s { accepting = false })
