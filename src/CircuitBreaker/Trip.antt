-- ===== src/CircuitBreaker/Trip.antt =====
-- How a closed circuit counts failures and trips, which circuits a call touches, and the diagram.
use llm_proxy.Prelude.{
  ℕ, ◌+◌, ◌<◌, ◌≡◌, refl, ◌∙◌, inl, inr, Bool, true, false, Option, none, some, List, [], ◌∷◌,
  arith, leb, Bool-cases, length, ◌==◌, beq_refl, pair_eq, string_eq, nat_eq,
}
use llm_proxy.Prelude.Assoc.{lookup}
use llm_proxy.CircuitBreaker.{
  CircuitState, closed, opened, half_open, u32, u64, CircuitEntry, CircuitKey, CircuitBreaker,
  entry_of, store, cooled, allow_entry, success_entry, failure_entry, count_trip, record_failure,
  reset_found, reset, Call, allows, succeeds, fails, resets, step, run,
}
use llm_proxy.CircuitBreaker.Invariant.{IsConfigured, entry_of-store}

-- The failures of one key at the given times.
abbrev pub failing : CircuitKey → List ℕ → List (ℕ × CircuitKey × Call)
failing k [] = []
failing k (now ∷ nows) = (now, k, fails) ∷ failing k nows

-- A closed circuit that has counted `n` failures in a row.
pub record IsCounting (b : CircuitBreaker) (k : CircuitKey) (n : ℕ) : Type 0 where
  pub shut : (entry_of b k).state ≡ closed
  pub counted : (entry_of b k).failures ≡ n

pub entry_of-store_self :
    (b : CircuitBreaker) (k : CircuitKey) (e : CircuitEntry) → entry_of (store b k e) k ≡ e
entry_of-store_self b k e = rw (entry_of-store b k k e, beq_refl k)

entry_of-count_trip :
    (t : Bool) (b : CircuitBreaker) (k : CircuitKey) → entry_of (count_trip t b) k ≡ entry_of b k
entry_of-count_trip true b k = refl
entry_of-count_trip false b k = refl

module _ (b : CircuitBreaker) (k : CircuitKey) (c : IsConfigured b) where
  entry_of-record_failure :
      (now : ℕ)
      → entry_of (record_failure b now k).0 k
        ≡ (failure_entry b now (entry_of b k).state (entry_of b k)).0
  unfolding record_failure
  entry_of-record_failure now = rw (entry_of-count_trip, entry_of-store_self)

  step_counts :
      (now n : ℕ)
      → IsCounting b k n
      → n + 1 < b.failure_threshold
      → IsCounting (record_failure b now k).0 k (n + 1)
  unfolding failure_entry
  step_counts now n h l = record {
    shut = rw (entry_of-record_failure now, h.shut) (ground (arith, c, h.counted));
    counted = rw (entry_of-record_failure now, h.shut) (ground (arith, c, h.counted));
  }

  failure_entry_trips :
      (now n : ℕ)
      → IsCounting b k n
      → n + 1 ≡ b.failure_threshold
      → failure_entry b now (entry_of b k).state (entry_of b k) ≡ (
        record (entry_of b k) {
          failures = n + 1;
          last_failure_at = some now;
          opened_at = some now;
          state = opened;
        },
        true,
      )
  unfolding failure_entry
  failure_entry_trips now n h l = rw h.shut (ground (arith, c, h.counted))

  record_failure_trips :
      (now n : ℕ)
      → IsCounting b k n
      → n + 1 ≡ b.failure_threshold
      → ((record_failure b now k).1 ≡ true)
        × ((entry_of (record_failure b now k).0 k).state ≡ opened)
        × ((entry_of (record_failure b now k).0 k).opened_at ≡ some now)
        × ((record_failure b now k).0.total_trips ≡ u64 (b.total_trips + 1))
  unfolding record_failure
  record_failure_trips now n h l =
      rw (failure_entry_trips now n h l) (rw entry_of-store_self (refl, refl, refl, refl))

record_failure-threshold :
    (b : CircuitBreaker) (now : ℕ) (k : CircuitKey)
    → (record_failure b now k).0.failure_threshold ≡ b.failure_threshold
unfolding record_failure
record_failure-threshold b now k = ground arith

record_failure-IsConfigured :
    (b : CircuitBreaker) (now : ℕ) (k : CircuitKey)
    → IsConfigured b
    → IsConfigured (record_failure b now k).0
unfolding record_failure
record_failure-IsConfigured b now k c = ground arith

failing_counts :
    (b : CircuitBreaker) (k : CircuitKey) (n : ℕ) (nows : List ℕ)
    → IsConfigured b
    → IsCounting b k n
    → n + length nows < b.failure_threshold
    → IsConfigured (run b (failing k nows))
      × IsCounting (run b (failing k nows)) k (n + length nows)
      × ((run b (failing k nows)).failure_threshold ≡ b.failure_threshold)
unfolding run step
failing_counts b k n [] c h l =
    (c, record { shut = h.shut; counted = omega (arith, h.counted) }, refl)
failing_counts b k n (now ∷ nows) c h l =
    let b' = (record_failure b now k).0 in
    let same = record_failure-threshold b now k in
    let ih =
      failing_counts b' k (n + 1) nows (record_failure-IsConfigured b now k c)
        (step_counts b k c now n h (omega arith)) (omega (arith, same)) in
    (ih.0, record { shut = ih.1.shut; counted = omega (arith, ih.1.counted) }, ih.2 ∙ same)

-- From a closed circuit with no failure counted, `failure_threshold - 1` failures in a row leave
-- it closed, and the next one opens it at its time, reports the trip and counts it (a `u64`).
pub threshold_trips :
    (b : CircuitBreaker) (k : CircuitKey) (nows : List ℕ) (now : ℕ)
    → IsConfigured b
    → (entry_of b k).state ≡ closed
    → (entry_of b k).failures ≡ 0
    → length nows + 1 ≡ b.failure_threshold
    → let b' = run b (failing k nows) in
      ((entry_of b' k).state ≡ closed)
      × ((record_failure b' now k).1 ≡ true)
      × ((entry_of (record_failure b' now k).0 k).state ≡ opened)
      × ((entry_of (record_failure b' now k).0 k).opened_at ≡ some now)
      × ((record_failure b' now k).0.total_trips ≡ u64 (b'.total_trips + 1))
threshold_trips b k nows now c s f l =
    let (c', h, t) = failing_counts b k 0 nows c (record { shut = s; counted = f }) (omega arith) in
    let (r, o, a, n) =
      record_failure_trips _ k c' now (length nows)
        (record { shut = h.shut; counted = omega (arith, h.counted) }) (omega (arith, t)) in
    (h.shut, r, o, a, n)

entry_of-store_other :
    (b : CircuitBreaker) (k j : CircuitKey) (e : CircuitEntry)
    → (k == j) ≡ false
    → entry_of (store b k e) j ≡ entry_of b j
entry_of-store_other b k j e h = rw (entry_of-store b k j e, h)

entry_of-reset_other :
    (b : CircuitBreaker) (k j : CircuitKey) (o : Option CircuitEntry)
    → (k == j) ≡ false
    → entry_of (reset_found b k o) j ≡ entry_of b j
entry_of-reset_other b k j none h = refl
entry_of-reset_other b k j (some e) h = entry_of-store_other b k j _ h

-- A call for one key leaves the circuits of all other keys as they were.
pub step_other :
    (b : CircuitBreaker) (now : ℕ) (k j : CircuitKey) (c : Call)
    → (k == j) ≡ false
    → entry_of (step b (now, k, c)) j ≡ entry_of b j
unfolding step
step_other b now k j allows h = entry_of-store_other b k j _ h
step_other b now k j succeeds h = entry_of-store_other b k j _ h
step_other b now k j fails h = entry_of-count_trip _ _ j ∙ entry_of-store_other b k j _ h
step_other b now k j resets h = entry_of-reset_other b k j _ h

-- The diagram of the file's head comment, with the moves that leave the state alone.
pub data Transition : CircuitState → CircuitState → Type 0 where
  stay : {s : CircuitState} → Transition s s
  trip : Transition closed opened
  cool : Transition opened half_open
  recover : Transition half_open closed
  retrip : Transition half_open opened
  force : {s : CircuitState} → Transition s closed

module _ (b : CircuitBreaker) (now : ℕ) (e : CircuitEntry) where
  allow_entry-Transition :
      (s : CircuitState) → e.state ≡ s → Transition s (allow_entry b now s e).0.state
  unfolding allow_entry
  allow_entry-Transition closed h = rw h stay
  allow_entry-Transition opened h = elim (Bool-cases (cooled b now e.opened_at)) [
    | inl t ↦ rw t cool
    | inr t ↦ rw (t, h) stay
  ]
  allow_entry-Transition half_open h = rw h stay

  success_entry-Transition :
      (s : CircuitState) → e.state ≡ s → Transition s (success_entry b s e).state
  unfolding success_entry
  success_entry-Transition closed h = rw h stay
  success_entry-Transition opened h = rw h stay
  success_entry-Transition half_open h =
      elim (Bool-cases (leb b.half_open_max (u32 (e.successes + 1)))) [
        | inl t ↦ rw t recover
        | inr t ↦ rw (t, h) stay
      ]

  failure_entry-Transition :
      (s : CircuitState) → e.state ≡ s → Transition s (failure_entry b now s e).0.state
  unfolding failure_entry
  failure_entry-Transition closed h =
      elim (Bool-cases (leb b.failure_threshold (u32 (e.failures + 1)))) [
        | inl t ↦ rw t trip
        | inr t ↦ rw (t, h) stay
      ]
  failure_entry-Transition opened h = rw h stay
  failure_entry-Transition half_open h = retrip

reset_found_state :
    (b : CircuitBreaker) (k : CircuitKey) (o : Option CircuitEntry)
    → lookup k b.circuits ≡ o
    → (entry_of (reset_found b k o) k).state ≡ closed
reset_found_state b k none h = rw h
reset_found_state b k (some e) h = rw entry_of-store_self

pub reset_state : (b : CircuitBreaker) (k : CircuitKey) → (entry_of (reset b k) k).state ≡ closed
unfolding reset
reset_state b k = reset_found_state b k _ refl

-- Every call moves the circuit of its key along the diagram: closed to open, open to half-open,
-- half-open to closed or open, any state to closed, or no change.
pub step-Transition :
    (b : CircuitBreaker) (now : ℕ) (k : CircuitKey) (c : Call)
    → Transition (entry_of b k).state (entry_of (step b (now, k, c)) k).state
unfolding step
step-Transition b now k allows =
    rw entry_of-store_self (allow_entry-Transition b now (entry_of b k) _ refl)
step-Transition b now k succeeds =
    rw entry_of-store_self (success_entry-Transition b now (entry_of b k) _ refl)
step-Transition b now k fails =
    rw (entry_of-count_trip, entry_of-store_self)
      (failure_entry-Transition b now (entry_of b k) _ refl)
step-Transition b now k resets = rw (reset_state b k) force
