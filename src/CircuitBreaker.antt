-- ===== src/CircuitBreaker.antt =====
-- src/circuit_breaker.rs: the per-key circuit breaker. A call that locks and mutates an entry
-- returns the new breaker; each call is one atomic step. `now` is the clock (`Instant`) in
-- nanoseconds; `elapsed` saturates at 0, as `-` on ℕ does. Counters wrap at their width.
pub mod Invariant
pub mod Trip
pub mod Recovery
mod Examples
use llm_proxy.Prelude.{
  ℕ, ◌+◌, ◌-◌, ◌*◌, ◌%◌, ◌^◌, String, Bool, true, false, Option, none, some, List, [], ◌∷◌, map,
  leb, ltb, if◌then◌else◌, get_or, pair_eq, string_eq,
}
use llm_proxy.Prelude.Assoc.{Map, lookup, insert}

-- `CircuitState`; `opened` is `Open`.
pub data CircuitState : Type 0 where
  closed opened half_open : CircuitState

abbrev pub u32 : ℕ → ℕ
u32 n = n % 2 ^ 32

abbrev pub u64 : ℕ → ℕ
u64 n = n % 2 ^ 64

pub record CircuitEntry : Type 0 where
  pub failures : ℕ
  pub successes : ℕ
  pub last_failure_at : Option ℕ
  pub opened_at : Option ℕ
  pub state : CircuitState

pub record CircuitSnapshot : Type 0 where
  pub pool_id : String
  pub key_hash : String
  pub state : String
  pub failures : ℕ

abbrev pub new_entry : CircuitEntry
new_entry = record {
  failures = 0;
  successes = 0;
  last_failure_at = none;
  opened_at = none;
  state = closed;
}

-- (pool_id, key_hash)
abbrev pub CircuitKey : Type 0
CircuitKey = String × String

pub record CircuitBreaker : Type 0 where
  pub circuits : Map CircuitKey CircuitEntry
  pub failure_threshold : ℕ
  pub cooldown_secs : ℕ
  pub half_open_max : ℕ
  pub total_trips : ℕ

unfoldable pub new : ℕ → ℕ → ℕ → CircuitBreaker
new threshold cooldown half_max = record {
  circuits = [];
  failure_threshold = threshold;
  cooldown_secs = cooldown;
  half_open_max = half_max;
  total_trips = 0;
}

unfoldable pub with_defaults : CircuitBreaker
unfolding new
with_defaults = new 5 60 3

-- `entry(key).or_insert_with(CircuitEntry::new)`
abbrev pub entry_of : CircuitBreaker → CircuitKey → CircuitEntry
entry_of b k = get_or (lookup k b.circuits) new_entry

abbrev pub store : CircuitBreaker → CircuitKey → CircuitEntry → CircuitBreaker
store b k e = record b { circuits = insert k e b.circuits }

-- `Duration::from_secs(self.cooldown_secs)`
abbrev pub cooldown : CircuitBreaker → ℕ
cooldown b = b.cooldown_secs * 1_000_000_000

abbrev pub cooled : CircuitBreaker → ℕ → Option ℕ → Bool
cooled b now none = false
cooled b now (some at) = leb (cooldown b) (now - at)

allow_entry : CircuitBreaker → ℕ → CircuitState → CircuitEntry → CircuitEntry × Bool
allow_entry b now closed e = (e, true)
allow_entry b now opened e =
    if cooled b now e.opened_at
    then (record e { state = half_open; successes = 0 }, true)
    else (e, false)
allow_entry b now half_open e = (e, ltb e.successes b.half_open_max)

unfoldable pub allow : CircuitBreaker → ℕ → CircuitKey → CircuitBreaker × Bool
unfolding allow_entry
allow b now k =
    let e = entry_of b k in
    let (e', allowed) = allow_entry b now e.state e in (store b k e', allowed)

success_entry : CircuitBreaker → CircuitState → CircuitEntry → CircuitEntry
success_entry b closed e = record e { failures = 0 }
success_entry b half_open e =
    let succ = u32 (e.successes + 1) in
    if leb b.half_open_max succ
    then record e { successes = succ; state = closed; failures = 0 }
    else record e { successes = succ }
success_entry b opened e = e

unfoldable pub record_success : CircuitBreaker → CircuitKey → CircuitBreaker
unfolding success_entry
record_success b k = let e = entry_of b k in store b k (success_entry b e.state e)

-- The flag says that the circuit has just tripped.
failure_entry : CircuitBreaker → ℕ → CircuitState → CircuitEntry → CircuitEntry × Bool
failure_entry b now closed e =
    let failures = u32 (e.failures + 1) in
    let e' = record e { last_failure_at = some now; failures = failures } in
    if leb b.failure_threshold failures
    then (record e' { state = opened; opened_at = some now }, true)
    else (e', false)
failure_entry b now half_open e = (record e { state = opened; opened_at = some now }, true)
failure_entry b now opened e = (e, false)

abbrev pub count_trip : Bool → CircuitBreaker → CircuitBreaker
count_trip true b = record b { total_trips = u64 (b.total_trips + 1) }
count_trip false b = b

unfoldable pub record_failure : CircuitBreaker → ℕ → CircuitKey → CircuitBreaker × Bool
unfolding failure_entry
record_failure b now k =
    let e = entry_of b k in
    let (e', tripped) = failure_entry b now e.state e in
    (count_trip tripped (store b k e'), tripped)

abbrev state_or_closed : Option CircuitEntry → CircuitState
state_or_closed (some e) = e.state
state_or_closed none = closed

unfoldable pub state : CircuitBreaker → CircuitKey → CircuitState
state b k = state_or_closed (lookup k b.circuits)

abbrev reset_found : CircuitBreaker → CircuitKey → Option CircuitEntry → CircuitBreaker
reset_found b k (some e) = store b k (record e { failures = 0; successes = 0; state = closed })
reset_found b k none = b

unfoldable pub reset : CircuitBreaker → CircuitKey → CircuitBreaker
reset b k = reset_found b k (lookup k b.circuits)

abbrev state_str : CircuitState → String
state_str closed = "closed"
state_str opened = "open"
state_str half_open = "half_open"

unfoldable pub snapshot : CircuitBreaker → List CircuitSnapshot
snapshot b = map one b.circuits
  where
    one : CircuitKey × CircuitEntry → CircuitSnapshot
    one ((pool, key), e) = record {
      pool_id = pool;
      key_hash = key;
      state = state_str e.state;
      failures = e.failures;
    }

-- One call by a client of the breaker, at a time and for a key.
pub data Call : Type 0 where
  allows succeeds fails resets : Call

unfoldable pub step : CircuitBreaker → ℕ × CircuitKey × Call → CircuitBreaker
unfolding allow record_success record_failure reset
step b (now, k, allows) = (allow b now k).0
step b (now, k, succeeds) = record_success b k
step b (now, k, fails) = (record_failure b now k).0
step b (now, k, resets) = reset b k

unfoldable pub run : CircuitBreaker → List (ℕ × CircuitKey × Call) → CircuitBreaker
run b [] = b
run b (c ∷ cs) = run (step b c) cs
