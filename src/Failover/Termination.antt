-- ===== src/Failover/Termination.antt =====
-- The loop ends: `max_retries + 1` attempts are enough, and it makes at most that many upstream
-- calls.
use llm_proxy.Prelude.{
  ℕ, zero, suc, ◌+◌, ◌≤◌, ◌<◌, String, ◌≡◌, refl, Bool, Option, none, some, [], ◌∷◌, arith, length,
  pair_eq, string_eq, nat_eq,
}
use llm_proxy.AppError.{AppError, upstream, Result, ok, err}
use llm_proxy.Failover.{
  Env, State, Success, Verdict, refresh_failed, circuit_open, count_burst, surfaced, give_up,
  punish, chat_failed, chat_succeeded, call_upstream, try_key, try_picked, attempt, run,
}
use llm_proxy.Config.KeyEntry.{KeyEntry, identity_hash}
use llm_proxy.CircuitBreaker.{allow}
use mathlib.Core.Path.{subst₂}

module _ {Q : Type 0} (env : Env Q) where
  -- What a stage of an attempt may do: at most `n` calls, and another round only while the
  -- attempts are not spent.
  pub record IsBounded (n : ℕ) (st : State) (r : State × Verdict Q) : Type 0 where
    pub same_attempts : r.0.attempts ≡ st.attempts
    pub calls_bounded : length r.0.calls ≤ length st.calls + n
    pub again_unspent : r.1 ≡ none → st.attempts ≤ env.max_retries

  give_up_unspent :
      (st : State) (status : Option ℕ) (retryable : Bool) (msg : String)
      → give_up env st status retryable msg ≡ none
      → st.attempts ≤ env.max_retries
  unfolding give_up surfaced
  give_up_unspent st status retryable msg h = ground arith

  count_burst_same :
      (st : State) (key_hash : String) (status : Option ℕ) (msg : String)
      → ((count_burst env st key_hash status msg).attempts ≡ st.attempts)
        × ((count_burst env st key_hash status msg).calls ≡ st.calls)
  unfolding count_burst
  count_burst_same st key_hash status msg = ground arith

  refresh_failed-IsBounded :
      (st : State) (key : KeyEntry) (e : AppError) → IsBounded 0 st (refresh_failed env st key e)
  unfolding refresh_failed
  refresh_failed-IsBounded st key e = ground arith

  circuit_open-IsBounded :
      (st : State) (key_hash : String) → IsBounded 0 st (circuit_open env st key_hash)
  unfolding circuit_open
  circuit_open-IsBounded st key_hash = ground arith

  punish-IsBounded :
      (st : State) (key : KeyEntry) (status : Option ℕ) (retryable : Bool) (msg : String)
      → IsBounded 0 st (punish env st key status retryable msg)
  unfolding punish surfaced give_up
  punish-IsBounded st key status retryable msg = ground arith

  chat_failed-IsBounded :
      (st : State) (key : KeyEntry) (e : AppError) → IsBounded 0 st (chat_failed env st key e)
  unfolding chat_failed
  chat_failed-IsBounded st key (upstream status retryable hint msg) = ground (
    arith,
    count_burst_same st (identity_hash env.compute_key_hash key) status msg,
    punish-IsBounded (count_burst env st (identity_hash env.compute_key_hash key) status msg) key
        status retryable msg,
    give_up_unspent (count_burst env st (identity_hash env.compute_key_hash key) status msg) status
        retryable msg,
  )
  chat_failed-IsBounded st key e = ground arith

  call_upstream-IsBounded :
      (st : State) (key : KeyEntry) (r : Result Q) → IsBounded 1 st (call_upstream env st key r)
  unfolding call_upstream chat_succeeded
  call_upstream-IsBounded st key (ok resp) = ground arith
  call_upstream-IsBounded st key (err e) =
      ground (arith, chat_failed-IsBounded (record st { calls = key ∷ st.calls }) key e)

  try_key-IsBounded :
      (st : State) (r : Result KeyEntry) (picked : KeyEntry)
      → IsBounded 1 st (try_key env st r picked)
  unfolding try_key
  try_key-IsBounded st (err e) picked = ground (arith, refresh_failed-IsBounded st picked e)
  try_key-IsBounded st (ok key) picked =
      let h = identity_hash env.compute_key_hash key in
      let st' = record st {
        circuits = (allow st.circuits (env.instant st.attempts) (env.pool_id, h)).0;
      } in
      ground (
        arith,
        circuit_open-IsBounded st' h,
        call_upstream-IsBounded st' key (env.chat st.attempts key),
      )

  try_picked-IsBounded : (st : State) (o : Option KeyEntry) → IsBounded 1 st (try_picked env st o)
  unfolding try_picked
  try_picked-IsBounded st none = ground arith
  try_picked-IsBounded st (some key) = try_key-IsBounded st (env.ensure_fresh st.attempts key) key

  -- One attempt raises the count by one and makes at most one upstream call; another follows only
  -- while no more than `max_retries` were made.
  attempt-IsBounded :
      (st : State) → IsBounded 1 (record st { attempts = st.attempts + 1 }) (attempt env st)
  unfolding attempt
  attempt-IsBounded st = try_picked-IsBounded (record st { attempts = st.attempts + 1 }) _

  -- What a finished run satisfies: at least one attempt and at most `max_retries + 1` of them in
  -- all, and at most one upstream call for each.
  abbrev pub HasEnded : ℕ → State → Type 0
  HasEnded fuel st =
      (st' : State) × (r : Result (Success Q)) × (run env fuel st ≡ some (st', r))
      × (length st'.calls + st.attempts ≤ length st.calls + st'.attempts)
      × (st.attempts < st'.attempts)
      × (st'.attempts ≤ env.max_retries + 1)

  step_ended :
      (fuel : ℕ) (st : State) (v : Verdict Q)
      → (attempt env st).1 ≡ v
      → st.attempts ≤ env.max_retries
      → (v ≡ none → HasEnded fuel (attempt env st).0)
      → HasEnded (suc fuel) st
  unfolding run
  step_ended fuel st none e l ih =
      let (st', r, q, c, m, n) = ih refl in
      let b = attempt-IsBounded st in (st', r, rw (e, run) q, omega (arith, b), omega (arith, b), n)
  step_ended fuel st (some r) e l ih =
      let b = attempt-IsBounded st in
      ((attempt env st).0, r, rw (e, run), omega (arith, b), omega (arith, b), omega (arith, b))

  -- Any fuel above `max_retries` is enough, and does not change the bound.
  pub run-HasEnded :
      (fuel : ℕ) (st : State)
      → st.attempts ≤ env.max_retries
      → env.max_retries < st.attempts + fuel
      → HasEnded fuel st
  run-HasEnded zero st l h = absurd (omega arith)
  run-HasEnded (suc fuel) st l h = step_ended fuel st (attempt env st).1 refl l λ e.
      run-HasEnded fuel (attempt env st).0
        (omega (arith, attempt-IsBounded st, (attempt-IsBounded st).again_unspent e))
        (omega (arith, attempt-IsBounded st))

final_pair :
    {Q : Type 0} {st st' : State} {r r' : Result (Success Q)}
    → ◌≡◌ {A = Option (State × Result (Success Q))} (some (st, r)) (some (st', r'))
    → (st ≡ st') × (r ≡ r')
final_pair h = (cc, cc)

-- Induction on a run: what every further attempt keeps, and the last one turns into `R`.
module _ {Q : Type 0} (env : Env Q) (P : State → Type 0) (R : State → Result (Success Q) → Type 0)
    (again : (st : State) → P st → (attempt env st).1 ≡ none → P (attempt env st).0)
    (last : (st : State) (r : Result (Success Q))
      → P st
      → (attempt env st).1 ≡ some r
      → R (attempt env st).0 r) where
  run_step_induction :
      (fuel : ℕ) (st st' : State) (v : Verdict Q) (r : Result (Success Q))
      → (attempt env st).1 ≡ v
      → P st
      → run env (suc fuel) st ≡ some (st', r)
      → (P (attempt env st).0 → run env fuel (attempt env st).0 ≡ some (st', r) → R st' r)
      → R st' r
  unfolding run
  run_step_induction fuel st st' none r e p q ih = ih (again st p e) (rw (e, run) at q)
  run_step_induction fuel st st' (some r') r e p q ih =
      let (same, same_r) = final_pair (rw (e, run) at q) in subst₂ R same same_r (last st r' p e)

  pub run_induction :
      (fuel : ℕ) (st st' : State) (r : Result (Success Q))
      → P st
      → run env fuel st ≡ some (st', r)
      → R st' r
  unfolding run
  run_induction zero st st' r p q = cc
  run_induction (suc fuel) st st' r p q =
      run_step_induction fuel st st' (attempt env st).1 r refl p q
        (run_induction fuel (attempt env st).0 st' r)

-- The request's loop starts with no attempt made.
abbrev pub IsFresh : State → Type 0
IsFresh st = (st.attempts ≡ 0) × (st.retries ≡ []) × (st.calls ≡ [])

-- Whatever the upstream, the token refresh, the sampler and the clocks answer, the loop of a
-- request that has made no attempt returns after at least one and at most `max_retries + 1`
-- attempts, and calls the upstream at most that many times.
pub run-ends :
    {Q : Type 0} (env : Env Q) (st : State)
    → IsFresh st
    → (st' : State) × (r : Result (Success Q)) × (run env (env.max_retries + 1) st ≡ some (st', r))
      × (0 < st'.attempts)
      × (st'.attempts ≤ env.max_retries + 1)
      × (length st'.calls ≤ env.max_retries + 1)
run-ends env st f =
    let (st', r, e, c, m, n) =
      run-HasEnded env (env.max_retries + 1) st (omega arith) (omega arith) in
    (st', r, e, omega arith, n, ground arith)
