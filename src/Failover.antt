-- ===== src/Failover.antt =====
-- src/server/handler.rs, `chat_completions_handler`: the retry loop over the keys of a pool.
-- The upstream, the token refresh, the sampler and the clocks may answer anew at every attempt, so
-- they are functions of the attempt's number. The registry, the breaker, the burst counters and the
-- metrics are shared with other requests; the loop is modelled without them in between.
pub mod Termination
pub mod Health
pub mod Exhaustion
pub mod Outcomes
pub mod Streamed
mod Examples
use llm_proxy.Prelude.{
  ℕ, zero, suc, ◌+◌, max, String, Bool, true, false, not, ◌&&◌, Option, none, some, List, [], ◌∷◌,
  ◌++◌, ltb, leb, if◌then◌else◌, length, any, ◌==◌, pair_eq, string_eq, nat_eq,
}
use llm_proxy.Prelude.Assoc.{Map, lookup, insert, remove}
use llm_proxy.AppError.{AppError, upstream, Result, ok, err}
use llm_proxy.Alerts.{AlertEvent, upstream_error, pool_exhausted}
use llm_proxy.Config.KeyEntry.{KeyEntry, PoolConfig, identity_hash}
use llm_proxy.BadKeyRegistry.{BadKeyRegistry}
use llm_proxy.Router.{Sampler, pick_key, try_demote}
use llm_proxy.Router
use llm_proxy.CircuitBreaker.{u32, u64, CircuitBreaker, allow, record_success, record_failure}
use Prim.Native.String.{◌++◌ as str_append}

-- What surrounds the loop. `Q` is what `provider.chat` returns.
pub record Env (Q : Type 0) : Type 0 where
  pub compute_key_hash : String → String
  pub pool : PoolConfig
  pub pool_id : String
  pub max_retries : ℕ
  pub bad_status_codes : List ℕ
  pub min_error_burst : ℕ
  pub sample : ℕ → Sampler
  pub ensure_fresh : ℕ → KeyEntry → Result KeyEntry
  pub chat : ℕ → KeyEntry → Result Q
  -- `Instant::now()` in nanoseconds, `SystemTime::now()` in milliseconds
  pub instant : ℕ → ℕ
  pub now_ms : ℕ → ℕ
  -- the decimal digits of a number, as `format!` prints them
  pub to_string : ℕ → String

-- What an attempt reads and writes. `calls` are the keys of the upstream calls made, latest first.
pub record State : Type 0 where
  pub attempts : ℕ
  pub retries : List String
  pub bad : BadKeyRegistry
  pub circuits : CircuitBreaker
  pub bursts : Map (String × String) ℕ
  pub key_demotions : ℕ
  pub alerts : List AlertEvent
  pub calls : List KeyEntry

-- A successful answer, and what the handler goes on with.
pub record Success (Q : Type 0) : Type 0 where
  pub response : Q
  pub key_hash : String
  pub retry_count : ℕ

-- `none` is `continue`.
abbrev pub Verdict : Type 0 → Type 0
Verdict Q = Option (Result (Success Q))

abbrev pub has_bad_key_hint : AppError → Bool
has_bad_key_hint (upstream status retryable hint msg) = hint
has_bad_key_hint _ = false

module _ {Q : Type 0} (env : Env Q) where
  open env use {compute_key_hash, pool, pool_id}

  abbrev hash_of : KeyEntry → String
  hash_of k = identity_hash compute_key_hash k

  -- `attempts > max_retries`
  abbrev pub spent : State → Bool
  spent st = ltb env.max_retries st.attempts

  abbrev send : AlertEvent → State → State
  send e st = record st { alerts = st.alerts ++ e ∷ [] }

  -- `ensure_fresh` failed.
  refresh_failed : State → KeyEntry → AppError → State × Verdict Q
  refresh_failed st key e =
      let (bad', demoted) = try_demote compute_key_hash st.bad pool pool_id key in
      let st' = record st { bad = bad'; retries = st.retries ++ hash_of key ∷ [] } in
      if has_bad_key_hint e && demoted
      then (st', if spent st then some (err e) else none)
      else (st, some (err e))

  -- The breaker refused the key.
  circuit_open : State → String → State × Verdict Q
  circuit_open st key_hash = (
    record st { retries = st.retries ++ key_hash ∷ [] },
    if spent st
        then some (
            err (
              upstream (some 429) true false
                (str_append "circuit breaker open for pool '" (str_append pool_id "'"))))
        else none,
  )

  -- `error_burst_counters.entry(key).and_modify(|c| *c += 1).or_insert(1)`, and the alert.
  abbrev burst_count : Option ℕ → ℕ
  burst_count none = 1
  burst_count (some c) = u32 (c + 1)

  abbrev error_code : Option ℕ → String
  error_code none = "unknown"
  error_code (some s) = env.to_string s

  count_burst : State → String → Option ℕ → String → State
  count_burst st key_hash status msg =
      let count = burst_count (lookup (pool_id, key_hash) st.bursts) in
      let st' = record st { bursts = insert (pool_id, key_hash) count st.bursts } in
      if leb env.min_error_burst count
      then send
          (upstream_error (env.now_ms st.attempts) pool_id key_hash (error_code status) status msg)
          st'
      else st'

  -- `bad_key_hint && status.is_some_and(|s| bad_status_codes.contains(&s))`
  abbrev is_bad_status : Bool → Option ℕ → Bool
  is_bad_status hint none = false
  is_bad_status hint (some s) = hint && any (λ c. c == s) env.bad_status_codes

  surfaced : Option ℕ → String → Verdict Q
  surfaced status msg = some (err (upstream status false false msg))

  -- After a failed call: give up if it cannot be retried or the retries are spent.
  give_up : State → Option ℕ → Bool → String → Verdict Q
  give_up st status retryable msg =
      if not retryable
      then surfaced status msg
      else if spent st
      then surfaced status (
          str_append "max retries ("
            (str_append (env.to_string env.max_retries) (str_append ") exceeded: " msg)))
      else none

  -- The bad-status part: the failure goes to the breaker, and the key is demoted unless it is the
  -- last selectable one; then the error goes to the client.
  punish : State → KeyEntry → Option ℕ → Bool → String → State × Verdict Q
  punish st key status retryable msg =
      let circuits' =
        (record_failure st.circuits (env.instant st.attempts) (pool_id, hash_of key)).0 in
      let (bad', demoted) = try_demote compute_key_hash st.bad pool pool_id key in
      let st' = record st {
        circuits = circuits';
        bad = bad';
        key_demotions = u64 (st.key_demotions + 1);
        retries = st.retries ++ hash_of key ∷ [];
      } in
      if demoted
      then (st', give_up st status retryable msg)
      else (record st { circuits = circuits' }, surfaced status msg)

  chat_failed : State → KeyEntry → AppError → State × Verdict Q
  chat_failed st key (upstream status retryable hint msg) =
      let st' = count_burst st (hash_of key) status msg in
      if is_bad_status hint status
      then punish st' key status retryable msg
      else (st', give_up st' status retryable msg)
  chat_failed st key other = (st, some (err other))

  chat_succeeded : State → KeyEntry → Q → State × Verdict Q
  chat_succeeded st key resp = (
    record st {
      circuits = record_success st.circuits (pool_id, hash_of key);
      bursts = remove (pool_id, hash_of key) st.bursts;
    },
    some (ok (record { response = resp; key_hash = hash_of key; retry_count = length st.retries })),
  )

  pub call_upstream : State → KeyEntry → Result Q → State × Verdict Q
  call_upstream st key (ok resp) = chat_succeeded (record st { calls = key ∷ st.calls }) key resp
  call_upstream st key (err e) = chat_failed (record st { calls = key ∷ st.calls }) key e

  try_key : State → Result KeyEntry → KeyEntry → State × Verdict Q
  try_key st (err e) picked = refresh_failed st picked e
  try_key st (ok key) picked =
      let (circuits', allowed) =
        allow st.circuits (env.instant st.attempts) (pool_id, hash_of key) in
      let st' = record st { circuits = circuits' } in
      if allowed
      then call_upstream st' key (env.chat st.attempts key)
      else circuit_open st' (hash_of key)

  try_picked : State → Option KeyEntry → State × Verdict Q
  try_picked st none = (
    send (pool_exhausted (env.now_ms st.attempts) pool_id) st,
    some (err (Router.pool_exhausted pool_id)),
  )
  try_picked st (some key) = try_key st (env.ensure_fresh st.attempts key) key

  -- One round of the loop.
  pub attempt : State → State × Verdict Q
  attempt st =
      let st' = record st { attempts = st.attempts + 1 } in
      try_picked st' (pick_key compute_key_hash (env.sample st'.attempts) st'.bad pool pool_id)

  -- The loop, on fuel.
  pub run : ℕ → State → Option (State × Result (Success Q))
  run zero st = none
  run (suc fuel) st =
      let (st', verdict) = attempt st in
      elim verdict [ none ↦ run fuel st' | some r ↦ some (st', r) ]
