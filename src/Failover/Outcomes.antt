-- ===== src/Failover/Outcomes.antt =====
-- What a finished run hands to the client.
use llm_proxy.Prelude.{
  ℕ, ◌+◌, String, ◌≡◌, refl, sym, subst, ◌⊎◌, inl, inr, false, Option, none, some, ◌∷◌, arith,
  Bool-cases, beq_refl, pair_eq, string_eq, nat_eq,
}
use llm_proxy.Prelude.Assoc.{lookup, lookup-remove}
use llm_proxy.AppError.{AppError, upstream, Result, ok, err}
use llm_proxy.Failover.{
  Env, State, Success, Verdict, has_bad_key_hint, refresh_failed, circuit_open, surfaced, give_up,
  punish, chat_failed, chat_succeeded, call_upstream, try_key, try_picked, attempt, run,
}
use llm_proxy.Failover.Termination.{run_induction}
use llm_proxy.Config.KeyEntry.{KeyEntry, identity_hash}
use llm_proxy.Router.{Router}
use llm_proxy.CircuitBreaker.{CircuitKey, allow}
use llm_proxy.Router

module _ {Q : Type 0} (env : Env Q) where
  -- A success is the upstream's answer to a call made with a key of that hash; the key's errors in
  -- a row are forgotten. An error that names a bad key comes from the token refresh alone.
  abbrev pub Outcome : State → Result (Success Q) → Type 0
  Outcome st (ok s) =
      (key : KeyEntry) × (env.chat st.attempts key ≡ ok s.response)
      × (s.key_hash ≡ identity_hash env.compute_key_hash key)
      × (lookup (env.pool_id, s.key_hash) st.bursts ≡ none)
  Outcome st (err e) =
      (has_bad_key_hint e ≡ false) ⊎ ((key : KeyEntry) × (env.ensure_fresh st.attempts key ≡ err e))

  abbrev Ends : State × Verdict Q → Type 0
  Ends r = (x : Result (Success Q)) → r.1 ≡ some x → Outcome r.0 x

  refresh_failed_attempts :
      (st : State) (key : KeyEntry) (e : AppError)
      → (refresh_failed env st key e).0.attempts ≡ st.attempts
  unfolding refresh_failed
  refresh_failed_attempts st key e = ground arith

  refresh_failed-Ends :
      (st : State) (key : KeyEntry) (e : AppError)
      → env.ensure_fresh st.attempts key ≡ err e
      → Ends (refresh_failed env st key e)
  unfolding refresh_failed
  refresh_failed-Ends st key e f (ok s) h = ground arith
  refresh_failed-Ends st key e f (err x) h =
      let same = refresh_failed_attempts st key e in
      let e_is_x : e ≡ x = ground arith in
      inr (key, rw same (subst (λ y. env.ensure_fresh st.attempts key ≡ err y) e_is_x f))

  chat_failed-Ends : (st : State) (key : KeyEntry) (e : AppError) → Ends (chat_failed env st key e)
  unfolding chat_failed punish give_up surfaced
  chat_failed-Ends st key (upstream status retryable hint msg) (ok s) h = ground arith
  chat_failed-Ends st key (upstream status retryable hint msg) (err x) h = inl (ground arith)
  chat_failed-Ends st key e (ok s) h = ground arith
  chat_failed-Ends st key e (err x) h = inl (ground arith)

  chat_succeeded-Ends :
      (st : State) (key : KeyEntry) (resp : Q)
      → env.chat st.attempts key ≡ ok resp
      → Ends (chat_succeeded env st key resp)
  unfolding chat_succeeded
  chat_succeeded-Ends st key resp c (ok s) h =
      let r : resp ≡ s.response = ground arith in
      let k : identity_hash env.compute_key_hash key ≡ s.key_hash = ground arith in
      (
        key,
        subst (λ y. env.chat st.attempts key ≡ ok y) r c,
        sym k,
        rw (
          ← k,
          lookup-remove,
          beq_refl env.pool_id,
          beq_refl (identity_hash env.compute_key_hash key),
        ),
      )
  chat_succeeded-Ends st key resp c (err x) h = ground arith

  call_upstream-Ends :
      (st : State) (key : KeyEntry) (r : Result Q)
      → env.chat st.attempts key ≡ r
      → Ends (call_upstream env st key r)
  unfolding call_upstream
  call_upstream-Ends st key (ok resp) c =
      chat_succeeded-Ends (record st { calls = key ∷ st.calls }) key resp c
  call_upstream-Ends st key (err e) c =
      chat_failed-Ends (record st { calls = key ∷ st.calls }) key e

  circuit_open-Ends : (st : State) (key_hash : String) → Ends (circuit_open env st key_hash)
  unfolding circuit_open
  circuit_open-Ends st key_hash (ok s) h = ground arith
  circuit_open-Ends st key_hash (err x) h = inl (ground arith)

  try_key-Ends :
      (st : State) (r : Result KeyEntry) (picked : KeyEntry)
      → env.ensure_fresh st.attempts picked ≡ r
      → Ends (try_key env st r picked)
  unfolding try_key
  try_key-Ends st (err e) picked f = refresh_failed-Ends st picked e f
  try_key-Ends st (ok key) picked f =
      let k : CircuitKey = (env.pool_id, identity_hash env.compute_key_hash key) in
      let st' = record st { circuits = (allow st.circuits (env.instant st.attempts) k).0 } in
      elim (Bool-cases (allow st.circuits (env.instant st.attempts) k).1) [
        | inl t ↦ rw t (call_upstream-Ends st' key (env.chat st.attempts key) refl)
        | inr t ↦ rw t (circuit_open-Ends st' (identity_hash env.compute_key_hash key))
      ]

  try_picked-Ends : (st : State) (o : Option KeyEntry) → Ends (try_picked env st o)
  unfolding try_picked Router.pool_exhausted
  try_picked-Ends st none (ok s) h = ground arith
  try_picked-Ends st none (err x) h = inl (ground arith)
  try_picked-Ends st (some key) x h =
      try_key-Ends st (env.ensure_fresh st.attempts key) key refl x h

  attempt-Ends : (st : State) → Ends (attempt env st)
  unfolding attempt
  attempt-Ends st = try_picked-Ends (record st { attempts = st.attempts + 1 }) _

  -- Every result of the loop is an `Outcome`: a success is the answer of the last attempt's
  -- upstream call, under the hash of the key it was made with, and leaves no error burst of that
  -- key; an error with `bad_key_hint` set is one that the token refresh of the last attempt
  -- returned.
  pub run-Outcome :
      (fuel : ℕ) (st st' : State) (r : Result (Success Q))
      → run env fuel st ≡ some (st', r)
      → Outcome st' r
  run-Outcome fuel st st' r =
      run_induction env (λ _. Unit {0}) Outcome (λ _ _ _. tt) (λ x y _. attempt-Ends x y) fuel st
        st' r tt
