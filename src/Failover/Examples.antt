-- ===== src/Failover/Examples.antt =====
-- A request against a pool of two keys: the upstream refuses the first call with 429, then answers.
use llm_proxy.Prelude.{
  ℕ, ◌+◌, ◌^◌, ◌≤◌, ◌<◌, String, ◌≡◌, refl, true, false, Option, none, some, List, [], ◌∷◌, arith,
  if◌then◌else◌, is_some, length, is_empty, any, All, ◌==◌, pair_eq, string_eq, nat_eq,
}
use llm_proxy.Prelude.Assoc.{lookup, insert, remove}
use llm_proxy.AppError.{upstream, Result, ok, err}
use llm_proxy.Failover.{
  Env, State, Success, run, attempt, try_picked, try_key, call_upstream, chat_failed,
  chat_succeeded, punish, give_up, count_burst, surfaced,
}
use llm_proxy.Failover.Termination.{run-ends}
use llm_proxy.Failover.Health.{IsHealthy}
use llm_proxy.Config.KeyEntry.{api_key, KeyEntry, identity_secret, identity_hash}
use llm_proxy.BadKeyRegistry.{mark_bad, is_bad}
use llm_proxy.Router.{pick_key, try_demote, Sampler, is_selectable, healthy_key_count}
use llm_proxy.Router.Demotion.{HasDistinctKeys}
use llm_proxy.Router.Selection.{sum, IsWeightedIndex}
use llm_proxy.CircuitBreaker.{CircuitBreaker, new, allow, record_success, record_failure}
use llm_proxy.CircuitBreaker.Invariant.{Inv, run-new-Inv}
use llm_proxy.Failover.Exhaustion.{is_pool_exhausted, IsSound, run-never-exhausts}
use llm_proxy.Failover.Outcomes.{Outcome, run-Outcome}
use llm_proxy.CircuitBreaker
use text.Mathlib.TextEquality.{eq_iff}

abbrev plain : String → String
plain s = s

abbrev first : Sampler
first [] = none
first (w ∷ ws) = some 0

first-IsWeightedIndex : IsWeightedIndex first
first-IsWeightedIndex = record { in_range = ranged; draws = drawn }
  where
    ranged : (ws : List ℕ) (i : ℕ) → first ws ≡ some i → i < length ws
    ranged [] i h = ground arith
    ranged (w ∷ ws) i h = ground arith

    drawn :
        (ws : List ℕ)
        → is_empty ws ≡ false
        → All (λ w. 0 < w) ws
        → sum ws < 2 ^ 32
        → is_some (first ws) ≡ true
    drawn [] e p l = cc
    drawn (w ∷ ws) e p l = refl

abbrev key_a : KeyEntry
key_a = record {
  key = "a";
  weight = 1;
  cred_type = api_key;
  refresh = none;
  expires = none;
  issuer = none;
  identity = some "a";
}

abbrev key_b : KeyEntry
key_b = record key_a { key = "b"; weight = 3; identity = some "b" }

abbrev answers : ℕ → KeyEntry → Result String
answers n k = if n == 1 then err (upstream (some 429) true true "rate limited") else ok "hello"

abbrev env : Env String
env = record {
  compute_key_hash = plain;
  pool = record { keys = key_a ∷ key_b ∷ [] };
  pool_id = "p";
  max_retries = 1;
  bad_status_codes = 401 ∷ 402 ∷ 403 ∷ 429 ∷ [];
  min_error_burst = 3;
  sample = λ n. first;
  ensure_fresh = λ n k. ok k;
  chat = answers;
  instant = λ n. 1_000_000_000 + n;
  now_ms = λ n. 1_000 + n;
  to_string = λ n. "1";
}

abbrev start : State
start = record {
  attempts = 0;
  retries = [];
  bad = [];
  circuits = record {
    circuits = [];
    failure_threshold = 5;
    cooldown_secs = 60;
    half_open_max = 3;
    total_trips = 0;
  };
  bursts = [];
  key_demotions = 0;
  alerts = [];
  calls = [];
}

distinct : HasDistinctKeys plain env.pool
unfolding identity_hash identity_secret
distinct h = ground (arith, eq_iff "a" h, eq_iff "b" h, eq_iff "a" "b")

env-IsSound : IsSound env
env-IsSound = record {
  distinct = distinct;
  weights = omega arith;
  samples = λ n. first-IsWeightedIndex;
}

start-Inv : Inv start.circuits
unfolding new run CircuitBreaker.run
start-Inv = run-new-Inv 5 60 3 [] (omega arith)

start-IsHealthy : IsHealthy env env-IsSound.distinct start
unfolding healthy_key_count is_selectable is_bad lookup identity_hash
start-IsHealthy = record { selectable = omega arith; circuits = start-Inv }

-- The first key is demoted and the second answers.
abbrev result_of : Option (State × Result (Success String)) → Option (List String × ℕ)
result_of none = none
result_of (some (st, ok s)) = some (s.response ∷ s.key_hash ∷ [], s.retry_count)
result_of (some (st, err e)) = none

answered : result_of (run env 2 start) ≡ some ("hello" ∷ "b" ∷ [], 1)
unfolding run attempt try_picked try_key call_upstream chat_failed chat_succeeded punish give_up
    count_burst surfaced lookup insert remove allow record_success record_failure pick_key
    try_demote mark_bad is_bad is_selectable healthy_key_count identity_hash identity_secret
answered = refl

run-ends_example :
    (st' : State) × (r : Result (Success String)) × (run env 2 start ≡ some (st', r))
    × (0 < st'.attempts)
    × (st'.attempts ≤ 2)
    × (length st'.calls ≤ 2)
run-ends_example = run-ends env start (refl, refl, refl)

run-never-exhausts_example :
    (st' : State) × (r : Result (Success String)) × (run env 2 start ≡ some (st', r))
    × IsHealthy env env-IsSound.distinct st'
    × (any is_pool_exhausted st'.alerts ≡ false)
run-never-exhausts_example =
    run-never-exhausts env env-IsSound start (refl, refl, refl) refl start-IsHealthy

run-Outcome_example :
    (st' : State) × (r : Result (Success String)) × (run env 2 start ≡ some (st', r))
    × Outcome env st' r
run-Outcome_example =
    let (st', r, e, _, _, _) = run-ends env start (refl, refl, refl) in
    (st', r, e, run-Outcome env 2 start st' r e)
