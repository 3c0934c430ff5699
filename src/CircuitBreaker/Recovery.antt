-- ===== src/CircuitBreaker/Recovery.antt =====
-- How an open circuit recovers: the cooldown, the half-open probes, and the forced reset.
use llm_proxy.Prelude.{
  ℕ, zero, suc, ◌+◌, ◌-◌, ◌≤◌, ◌<◌, ◌≡◌, refl, true, some, List, [], ◌∷◌, arith, pair_eq, string_eq,
  nat_eq,
}
use llm_proxy.CircuitBreaker.{
  closed, opened, half_open, CircuitKey, CircuitBreaker, entry_of, store, cooldown, allow_entry,
  allow, success_entry, record_success, reset, Call, succeeds, step, run,
}
use llm_proxy.CircuitBreaker.Invariant.{IsConfigured}
use llm_proxy.CircuitBreaker.Trip.{entry_of-store_self, reset_state}

abbrev pub succeeding : CircuitKey → ℕ → ℕ → List (ℕ × CircuitKey × Call)
succeeding k now zero = []
succeeding k now (suc n) = (now, k, succeeds) ∷ succeeding k now n

-- A half-open circuit that has seen `n` successes.
pub record IsProbing (b : CircuitBreaker) (k : CircuitKey) (n : ℕ) : Type 0 where
  pub probing : (entry_of b k).state ≡ half_open
  pub passed : (entry_of b k).successes ≡ n

module _ (b : CircuitBreaker) (k : CircuitKey) (c : IsConfigured b) where
  record_success_counts :
      (n : ℕ) → IsProbing b k n → n + 1 < b.half_open_max → IsProbing (record_success b k) k (n + 1)
  unfolding record_success success_entry
  record_success_counts n h l = record {
    probing = rw (entry_of-store_self, h.probing) (ground (arith, c, h.passed));
    passed = rw (entry_of-store_self, h.probing) (ground (arith, c, h.passed));
  }

  record_success_closes :
      (n : ℕ)
      → IsProbing b k n
      → n + 1 ≡ b.half_open_max
      → ((entry_of (record_success b k) k).state ≡ closed)
        × ((entry_of (record_success b k) k).failures ≡ 0)
  unfolding record_success success_entry
  record_success_closes n h l = rw (entry_of-store_self, h.probing) (ground (arith, c, h.passed))

record_success-half_open_max :
    (b : CircuitBreaker) (k : CircuitKey) → (record_success b k).half_open_max ≡ b.half_open_max
unfolding record_success
record_success-half_open_max b k = refl

record_success-IsConfigured :
    (b : CircuitBreaker) (k : CircuitKey) → IsConfigured b → IsConfigured (record_success b k)
unfolding record_success
record_success-IsConfigured b k c = ground (arith, c)

probes_close :
    (b : CircuitBreaker) (k : CircuitKey) (now n m : ℕ)
    → IsConfigured b
    → IsProbing b k n
    → n + suc m ≡ b.half_open_max
    → ((entry_of (run b (succeeding k now (suc m))) k).state ≡ closed)
      × ((entry_of (run b (succeeding k now (suc m))) k).failures ≡ 0)
unfolding run step
probes_close b k now n zero c h l = record_success_closes b k c n h (omega arith)
probes_close b k now n (suc m) c h l =
    probes_close (record_success b k) k now (n + 1) m (record_success-IsConfigured b k c)
      (record_success_counts b k c n h (omega arith))
      (omega (arith, record_success-half_open_max b k))

all_probes_close :
    (b : CircuitBreaker) (k : CircuitKey) (now m : ℕ)
    → IsConfigured b
    → IsProbing b k 0
    → m ≡ b.half_open_max
    → ((entry_of (run b (succeeding k now m)) k).state ≡ closed)
      × ((entry_of (run b (succeeding k now m)) k).failures ≡ 0)
all_probes_close b k now zero c h l = absurd (omega (arith, c.probes_pos))
all_probes_close b k now (suc m) c h l = probes_close b k now 0 m c h (omega arith)

allow_cools :
    (b : CircuitBreaker) (k : CircuitKey) (now at : ℕ)
    → (entry_of b k).state ≡ opened
    → (entry_of b k).opened_at ≡ some at
    → cooldown b ≤ now - at
    → allow b now k ≡ (store b k (record (entry_of b k) { state = half_open; successes = 0 }), true)
unfolding allow allow_entry
allow_cools b k now at s o l = rw s (ground arith)

-- An open circuit whose cooldown has elapsed is allowed again, half-open; `half_open_max`
-- successes in a row then close it with no failure counted.
pub cooled_recovers :
    (b : CircuitBreaker) (k : CircuitKey) (now at later : ℕ)
    → IsConfigured b
    → (entry_of b k).state ≡ opened
    → (entry_of b k).opened_at ≡ some at
    → cooldown b ≤ now - at
    → let b' = (allow b now k).0 in
      ((allow b now k).1 ≡ true)
      × ((entry_of b' k).state ≡ half_open)
      × ((entry_of (run b' (succeeding k later b.half_open_max)) k).state ≡ closed)
      × ((entry_of (run b' (succeeding k later b.half_open_max)) k).failures ≡ 0)
cooled_recovers b k now at later c s o l =
    let b' = store b k (record (entry_of b k) { state = half_open; successes = 0 }) in
    let c' : IsConfigured b' = ground (arith, c) in
    let p : IsProbing b' k 0 = record {
      probing = rw entry_of-store_self;
      passed = rw entry_of-store_self;
    } in
    let (z, f) = all_probes_close b' k later b.half_open_max c' p refl in
    rw (allow_cools b k now at s o l) (refl, rw entry_of-store_self, z, f)

-- After `reset` a key is allowed at any time, whatever its circuit was.
pub allow-reset :
    (b : CircuitBreaker) (k : CircuitKey) (now : ℕ) → (allow (reset b k) now k).1 ≡ true
unfolding allow allow_entry
allow-reset b k now = rw (reset_state b k)
