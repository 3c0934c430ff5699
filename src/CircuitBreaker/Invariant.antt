-- ===== src/CircuitBreaker/Invariant.antt =====
-- What holds of every circuit after any sequence of calls.
use llm_proxy.Prelude.{
  ℕ, ◌-◌, ◌^◌, ◌<◌, ◌≡◌, ◌≢◌, ◌↔◌, ◌⊎◌, inl, inr, Bool, true, false, Option, none, some, List, [],
  ◌∷◌, arith, if◌then◌else◌, Bool-cases, Option-cases, is_some, ◌==◌, pair_eq, string_eq, nat_eq,
}
use llm_proxy.Prelude.Assoc.{lookup, lookup-insert}
use llm_proxy.CircuitBreaker.{
  closed, opened, half_open, CircuitEntry, new_entry, CircuitKey, CircuitBreaker, new, entry_of,
  store, cooldown, allow_entry, allow, success_entry, record_success, failure_entry, count_trip,
  record_failure, reset_found, Call, allows, succeeds, fails, resets, step, run,
}

-- The limits are positive and fit their `u32`.
pub record IsConfigured (b : CircuitBreaker) : Type 0 where
  pub threshold_pos : 0 < b.failure_threshold
  pub threshold_u32 : b.failure_threshold < 2 ^ 32
  pub probes_pos : 0 < b.half_open_max
  pub probes_u32 : b.half_open_max < 2 ^ 32

pub record EntryInv (b : CircuitBreaker) (e : CircuitEntry) : Type 0 where
  pub opened_stamped : e.state ≡ opened → is_some e.opened_at ≡ true
  pub half_open_room : e.state ≡ half_open → e.successes < b.half_open_max
  pub closed_below : e.state ≡ closed → e.failures < b.failure_threshold

pub record Inv (b : CircuitBreaker) : Type 0 where
  pub configured : IsConfigured b
  pub entries : (k : CircuitKey) → EntryInv b (entry_of b k)

new_entry-Inv : (b : CircuitBreaker) → IsConfigured b → EntryInv b new_entry
new_entry-Inv b c = ground arith

module _ (b : CircuitBreaker) (c : IsConfigured b) (e : CircuitEntry) (h : EntryInv b e) where
  allow_entry-Inv : (now : ℕ) → EntryInv b (allow_entry b now e.state e).0
  unfolding allow_entry
  allow_entry-Inv now = ground arith

  success_entry-Inv : EntryInv b (success_entry b e.state e)
  unfolding success_entry
  success_entry-Inv = ground arith

  failure_entry-Inv : (now : ℕ) → EntryInv b (failure_entry b now e.state e).0
  unfolding failure_entry
  failure_entry-Inv now = ground arith

-- The entry read after a write.
pub entry_of-store :
    (b : CircuitBreaker) (k j : CircuitKey) (e : CircuitEntry)
    → entry_of (store b k e) j ≡ (if k == j then e else entry_of b j)
entry_of-store b k j e = rw (lookup-insert k j e b.circuits) (ground arith)

store-Inv :
    (b : CircuitBreaker) (k : CircuitKey) (e : CircuitEntry)
    → Inv b
    → EntryInv b e
    → Inv (store b k e)
store-Inv b k e v h = record { configured = c; entries = λ j. at j (Bool-cases (k == j)) }
  where
    c : IsConfigured (store b k e)
    c = ground (arith, v.configured)

    at :
        (j : CircuitKey)
        → ((k == j) ≡ true) ⊎ ((k == j) ≡ false)
        → EntryInv (store b k e) (entry_of (store b k e) j)
    at j (inl hit) = rw (entry_of-store b k j e, hit) (ground arith)
    at j (inr miss) = rw (entry_of-store b k j e, miss) (ground (arith, v.entries j))

count_trip-Inv : (t : Bool) (b : CircuitBreaker) → Inv b → Inv (count_trip t b)
count_trip-Inv true b v = record {
  configured = ground (arith, v.configured);
  entries = λ k. ground (arith, v.entries k);
}
count_trip-Inv false b v = v

reset_found-Inv :
    (b : CircuitBreaker) (k : CircuitKey) (o : Option CircuitEntry)
    → Inv b
    → Inv (reset_found b k o)
reset_found-Inv b k none v = v
reset_found-Inv b k (some e) v = store-Inv b k _ v (ground (arith, v.configured))

-- Every call keeps, for every key: an open circuit has its opening time, a half-open one has had
-- fewer successes than `half_open_max`, and a closed one fewer failures than the threshold.
pub step-Inv : (b : CircuitBreaker) (c : ℕ × CircuitKey × Call) → Inv b → Inv (step b c)
unfolding step
step-Inv b (now, k, allows) v =
    store-Inv b k _ v (allow_entry-Inv b v.configured (entry_of b k) (v.entries k) now)
step-Inv b (now, k, succeeds) v =
    store-Inv b k _ v (success_entry-Inv b v.configured (entry_of b k) (v.entries k))
step-Inv b (now, k, fails) v =
    count_trip-Inv _ _
      (store-Inv b k _ v (failure_entry-Inv b v.configured (entry_of b k) (v.entries k) now))
step-Inv b (now, k, resets) v = reset_found-Inv b k _ v

pub allow-Inv : (b : CircuitBreaker) (now : ℕ) (k : CircuitKey) → Inv b → Inv (allow b now k).0
unfolding step
allow-Inv b now k = step-Inv b (now, k, allows)

pub record_success-Inv : (b : CircuitBreaker) (k : CircuitKey) → Inv b → Inv (record_success b k)
unfolding step
record_success-Inv b k = step-Inv b (0, k, succeeds)

pub record_failure-Inv :
    (b : CircuitBreaker) (now : ℕ) (k : CircuitKey) → Inv b → Inv (record_failure b now k).0
unfolding step
record_failure-Inv b now k = step-Inv b (now, k, fails)

run-Inv : (b : CircuitBreaker) (cs : List (ℕ × CircuitKey × Call)) → Inv b → Inv (run b cs)
unfolding run
run-Inv b [] v = v
run-Inv b (c ∷ cs) v = run-Inv (step b c) cs (step-Inv b c v)

abbrev pub IsConfig : ℕ → ℕ → Type 0
IsConfig threshold probes =
    (0 < threshold) × (threshold < 2 ^ 32) × (0 < probes) × (probes < 2 ^ 32)

new-Inv : (threshold secs probes : ℕ) → IsConfig threshold probes → Inv (new threshold secs probes)
unfolding new lookup
new-Inv threshold secs probes c = record { configured = ground arith; entries = λ k. ground arith }

-- A breaker made with positive limits below 2^32 satisfies the invariant after any calls.
pub run-new-Inv :
    (threshold secs probes : ℕ) (cs : List (ℕ × CircuitKey × Call))
    → IsConfig threshold probes
    → Inv (run (new threshold secs probes) cs)
run-new-Inv threshold secs probes cs c = run-Inv _ cs (new-Inv threshold secs probes c)

module _ (b : CircuitBreaker) (now : ℕ) where
  abbrev IsCooling : CircuitEntry → Type 0
  IsCooling e = (at : ℕ) × (e.state ≡ opened) × (e.opened_at ≡ some at) × (now - at < cooldown b)

  stamped_denies :
      (e : CircuitEntry) {at : ℕ}
      → e.opened_at ≡ some at
      → EntryInv b e
      → (allow_entry b now e.state e).1 ≡ false
      → IsCooling e
  unfolding allow_entry
  stamped_denies e {at} s h d = (at, ground arith, s, ground arith)

  unstamped_allows :
      (e : CircuitEntry)
      → e.opened_at ≡ none
      → EntryInv b e
      → (allow_entry b now e.state e).1 ≢ false
  unfolding allow_entry
  unstamped_allows e s h d = ground arith

  denies : (e : CircuitEntry) → EntryInv b e → (allow_entry b now e.state e).1 ≡ false → IsCooling e
  denies e h d = elim (Option-cases e.opened_at) [
    | inl s ↦ absurd (unstamped_allows e s h d)
    | inr (at, s) ↦ stamped_denies e s h d
  ]

  cooling_denied : (e : CircuitEntry) → IsCooling e → (allow_entry b now e.state e).1 ≡ false
  unfolding allow_entry
  cooling_denied e (at, o, s, l) = ground arith

-- In a breaker that satisfies the invariant, `allow` refuses a key exactly when its circuit is
-- open and the cooldown has not yet elapsed since it opened: a half-open circuit never refuses.
pub allow-eq-false_iff :
    (b : CircuitBreaker) (now : ℕ) (k : CircuitKey)
    → Inv b
    → ((allow b now k).1 ≡ false) ↔ (
        (at : ℕ) × ((entry_of b k).state ≡ opened)
        × ((entry_of b k).opened_at ≡ some at)
        × (now - at < cooldown b))
unfolding allow
allow-eq-false_iff b now k v =
    (denies b now (entry_of b k) (v.entries k), cooling_denied b now (entry_of b k))
