-- ===== src/CircuitBreaker/Examples.antt =====
-- The life of one key of a breaker with threshold 3, a cooldown of one second and 2 probes.
use llm_proxy.Prelude.{◌+◌, ◌≡◌, refl, true, some, [], ◌∷◌, map, arith, pair_eq, string_eq, nat_eq}
use llm_proxy.Prelude.Assoc.{lookup, insert}
use llm_proxy.CircuitBreaker.{
  closed, opened, half_open, u64, CircuitKey, CircuitBreaker, new, with_defaults, entry_of, allow,
  record_failure, state, snapshot, succeeds, fails, step, run,
}
use llm_proxy.CircuitBreaker.Invariant.{IsConfigured, Inv, run-new-Inv}
use llm_proxy.CircuitBreaker.Trip.{failing, threshold_trips}
use llm_proxy.CircuitBreaker.Recovery.{succeeding, cooled_recovers}

abbrev key : CircuitKey
key = ("p1", "k1")

abbrev other_key : CircuitKey
other_key = ("p1", "k2")

abbrev small : CircuitBreaker
small = record {
  circuits = [];
  failure_threshold = 3;
  cooldown_secs = 1;
  half_open_max = 2;
  total_trips = 0;
}

abbrev tripped : CircuitBreaker
tripped = record small {
  circuits =
      (
        key,
        record {
          failures = 3;
          successes = 0;
          last_failure_at = some 12;
          opened_at = some 12;
          state = opened;
        },
      )
      ∷ [];
  total_trips = 1;
}

abbrev probed : CircuitBreaker
probed = record tripped {
  circuits =
      (
        key,
        record {
          failures = 3;
          successes = 1;
          last_failure_at = some 12;
          opened_at = some 12;
          state = half_open;
        },
      )
      ∷ [];
}

small-IsConfigured : IsConfigured small
small-IsConfigured = omega arith

-- Three failures bring a new breaker to `tripped`.
trips : run (new 3 1 2) ((10, key, fails) ∷ (11, key, fails) ∷ (12, key, fails) ∷ []) ≡ tripped
unfolding run step new lookup insert
trips = refl

defaults_closed : state with_defaults key ≡ closed
unfolding with_defaults state lookup
defaults_closed = refl

tripped-snapshot : map (λ s. s.state) (snapshot tripped) ≡ "open" ∷ []
unfolding snapshot
tripped-snapshot = refl

run-new-Inv_example : Inv (run (new 3 1 2) ((10, key, fails) ∷ (11, key, succeeds) ∷ []))
run-new-Inv_example = run-new-Inv 3 1 2 ((10, key, fails) ∷ (11, key, succeeds) ∷ []) (omega arith)

tripped-Inv : Inv tripped
unfolding run step new lookup insert
tripped-Inv =
    run-new-Inv 3 1 2 ((10, key, fails) ∷ (11, key, fails) ∷ (12, key, fails) ∷ []) (omega arith)

threshold_trips_example :
    let b' = run small (failing key (10 ∷ 11 ∷ [])) in
    ((entry_of b' key).state ≡ closed)
    × ((record_failure b' 12 key).1 ≡ true)
    × ((entry_of (record_failure b' 12 key).0 key).state ≡ opened)
    × ((entry_of (record_failure b' 12 key).0 key).opened_at ≡ some 12)
    × ((record_failure b' 12 key).0.total_trips ≡ u64 (b'.total_trips + 1))
unfolding lookup
threshold_trips_example =
    threshold_trips small key (10 ∷ 11 ∷ []) 12 small-IsConfigured refl refl refl

cooled_recovers_example :
    let b' = (allow tripped 2_000_000_000 key).0 in
    ((allow tripped 2_000_000_000 key).1 ≡ true)
    × ((entry_of b' key).state ≡ half_open)
    × ((entry_of (run b' (succeeding key 9 2)) key).state ≡ closed)
    × ((entry_of (run b' (succeeding key 9 2)) key).failures ≡ 0)
unfolding lookup
cooled_recovers_example =
    cooled_recovers tripped key 2_000_000_000 12 9 (omega arith) refl refl (omega arith)
