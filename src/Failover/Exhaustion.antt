-- ===== src/Failover/Exhaustion.antt =====
-- No request exhausts a pool by itself, nor reports it exhausted.
use llm_proxy.Prelude.{
  ℕ, ◌+◌, ◌^◌, ◌≤◌, ◌<◌, String, ◌≡◌, refl, ◌∙◌, Bool, true, false, Option, none, some, List, [],
  ◌∷◌, map, arith, is_some, filter_by, any, any-append, pair_eq, string_eq, nat_eq,
}
use llm_proxy.AppError.{AppError, upstream, Result, ok, err}
use llm_proxy.Failover.{
  Env, State, Success, refresh_failed, circuit_open, error_code, count_burst, punish, chat_failed,
  chat_succeeded, call_upstream, try_key, try_picked, attempt, run,
}
use llm_proxy.Failover.Termination.{run_induction, IsFresh, run-ends}
use llm_proxy.Failover.Health.{IsHealthy, attempt-IsHealthy}
use llm_proxy.Alerts.{AlertEvent, upstream_error, pool_exhausted}
use llm_proxy.Config.KeyEntry.{KeyEntry, identity_hash}
use llm_proxy.Router.{is_selectable, pick_key}
use llm_proxy.Router.Demotion.{HasDistinctKeys}
use llm_proxy.Router.Selection.{sum, IsWeightedIndex, pick_key-is_some_iff}
use llm_proxy.CircuitBreaker.{CircuitKey, allow}

abbrev pub is_pool_exhausted : AlertEvent → Bool
is_pool_exhausted (pool_exhausted ts pool_id) = true
is_pool_exhausted _ = false

-- A `PoolExhausted` alert has been sent.
abbrev pub exhausted : State → Bool
exhausted st = any is_pool_exhausted st.alerts

module _ {Q : Type 0} (env : Env Q) where
  count_burst-exhausted :
      (st : State) (key_hash : String) (status : Option ℕ) (msg : String)
      → exhausted (count_burst env st key_hash status msg) ≡ exhausted st
  unfolding count_burst
  count_burst-exhausted st key_hash status msg = ground (
    arith,
    any-append is_pool_exhausted st.alerts (
        upstream_error (env.now_ms st.attempts) env.pool_id key_hash (error_code env status) status
          msg
        ∷ []),
  )

  punish-exhausted :
      (st : State) (key : KeyEntry) (status : Option ℕ) (retryable : Bool) (msg : String)
      → exhausted (punish env st key status retryable msg).0 ≡ exhausted st
  unfolding punish
  punish-exhausted st key status retryable msg = ground arith

  chat_failed-exhausted :
      (st : State) (key : KeyEntry) (e : AppError)
      → exhausted (chat_failed env st key e).0 ≡ exhausted st
  unfolding chat_failed
  chat_failed-exhausted st key (upstream status retryable hint msg) =
      let h = identity_hash env.compute_key_hash key in
      ground (
        arith,
        count_burst-exhausted st h status msg,
        punish-exhausted (count_burst env st h status msg) key status retryable msg,
      )
  chat_failed-exhausted st key e = refl

  call_upstream-exhausted :
      (st : State) (key : KeyEntry) (r : Result Q)
      → exhausted (call_upstream env st key r).0 ≡ exhausted st
  unfolding call_upstream chat_succeeded
  call_upstream-exhausted st key (ok resp) = refl
  call_upstream-exhausted st key (err e) =
      chat_failed-exhausted (record st { calls = key ∷ st.calls }) key e

  try_key-exhausted :
      (st : State) (r : Result KeyEntry) (picked : KeyEntry)
      → exhausted (try_key env st r picked).0 ≡ exhausted st
  unfolding try_key circuit_open refresh_failed
  try_key-exhausted st (err e) picked = ground arith
  try_key-exhausted st (ok key) picked =
      let k : CircuitKey = (env.pool_id, identity_hash env.compute_key_hash key) in
      let st' = record st { circuits = (allow st.circuits (env.instant st.attempts) k).0 } in
      ground (arith, call_upstream-exhausted st' key (env.chat st.attempts key))

  try_picked-exhausted :
      (st : State) (o : Option KeyEntry)
      → is_some o ≡ true
      → exhausted (try_picked env st o).0 ≡ exhausted st
  unfolding try_picked
  try_picked-exhausted st none h = cc
  try_picked-exhausted st (some key) h = try_key-exhausted st (env.ensure_fresh st.attempts key) key

sum-filter_by-le :
    (p : KeyEntry → Bool) (ks : List KeyEntry)
    → sum (map (λ k. k.weight) (filter_by p ks)) ≤ sum (map (λ k. k.weight) ks)
sum-filter_by-le p [] = omega arith
sum-filter_by-le p (k ∷ ks) = ground (arith, sum-filter_by-le p ks)

-- What the loop relies on: the pool lists each key once, its weights sum below 2^32, and the
-- sampler behaves as documented at every attempt.
pub record IsSound {Q : Type 0} (env : Env Q) : Type 0 where
  pub distinct : HasDistinctKeys env.compute_key_hash env.pool
  pub weights : sum (map (λ k. k.weight) env.pool.keys) < 2 ^ 32
  pub samples : (n : ℕ) → IsWeightedIndex (env.sample n)

module _ {Q : Type 0} (env : Env Q) (s : IsSound env) where
  pick_key_succeeds :
      (st : State)
      → IsHealthy env s.distinct st
      → is_some (pick_key env.compute_key_hash (env.sample st.attempts) st.bad env.pool env.pool_id)
        ≡ true
  pick_key_succeeds st h =
      (pick_key-is_some_iff env.compute_key_hash st.bad env.pool env.pool_id
          (env.sample st.attempts) (s.samples st.attempts)
          (omega (
            arith,
            s.weights,
            sum-filter_by-le (is_selectable env.compute_key_hash st.bad env.pool_id) env.pool.keys,
          ))).1
        h.selectable

  attempt-exhausted :
      (st : State) → IsHealthy env s.distinct st → exhausted (attempt env st).0 ≡ exhausted st
  unfolding attempt
  attempt-exhausted st h =
      let st' = record st { attempts = st.attempts + 1 } in
      let h' : IsHealthy env s.distinct st' = record {
        selectable = h.selectable;
        circuits = h.circuits;
      } in
      try_picked-exhausted env st' _ (pick_key_succeeds st' h')

  abbrev IsQuiet : State → State → Type 0
  IsQuiet st st' = IsHealthy env s.distinct st' × (exhausted st' ≡ exhausted st)

  step-IsQuiet : (st st' : State) → IsQuiet st st' → IsQuiet st (attempt env st').0
  step-IsQuiet st st' (h, x) = (attempt-IsHealthy env s.distinct st' h, attempt-exhausted st' h ∙ x)

  run-IsQuiet :
      (fuel : ℕ) (st st' : State) (r : Result (Success Q))
      → IsHealthy env s.distinct st
      → run env fuel st ≡ some (st', r)
      → IsQuiet st st'
  run-IsQuiet fuel st st' r h =
      run_induction env (IsQuiet st) (λ x _. IsQuiet st x) (λ x q _. step-IsQuiet st x q)
        (λ x _ q _. step-IsQuiet st x q) fuel st st' r (h, refl)

-- A request starts with no attempt made and no alert sent, on a breaker that satisfies its
-- invariant and a pool that lists each key once, has a selectable key and weights that sum below
-- 2^32. Then, while the sampler behaves as documented, the loop returns, sends no `PoolExhausted`
-- alert, leaves a selectable key and keeps the breaker's invariant.
pub run-never-exhausts :
    {Q : Type 0} (env : Env Q) (s : IsSound env) (st : State)
    → IsFresh st
    → st.alerts ≡ []
    → IsHealthy env s.distinct st
    → (st' : State) × (r : Result (Success Q)) × (run env (env.max_retries + 1) st ≡ some (st', r))
      × IsHealthy env s.distinct st'
      × (any is_pool_exhausted st'.alerts ≡ false)
run-never-exhausts env s st f a h =
    let (st', r, e, m, n, c) = run-ends env st f in
    let (h', x) = run-IsQuiet env s (env.max_retries + 1) st st' r h e in
    (st', r, e, h', ground (arith, x, a))
