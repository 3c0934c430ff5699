-- ===== src/Failover/Health.antt =====
-- The loop keeps the pool usable and the breaker consistent, so it never exhausts a pool by itself.
use llm_proxy.Prelude.{
  ℕ, ◌+◌, ◌≤◌, String, inl, inr, Bool, ◌&&◌, Option, none, some, ◌∷◌, leb, Bool-cases, pair_eq,
  string_eq, nat_eq,
}
use llm_proxy.Prelude.Assoc.{lookup}
use llm_proxy.AppError.{AppError, upstream, Result, ok, err}
use llm_proxy.Failover.{
  Env, State, has_bad_key_hint, refresh_failed, circuit_open, burst_count, count_burst,
  is_bad_status, punish, chat_failed, chat_succeeded, call_upstream, try_key, try_picked, attempt,
}
use llm_proxy.Config.KeyEntry.{KeyEntry, identity_hash}
use llm_proxy.Router.{healthy_key_count, try_demote}
use llm_proxy.Router.Demotion.{HasDistinctKeys, try_demote_keeps}
use llm_proxy.CircuitBreaker.{CircuitKey, allow}
use llm_proxy.CircuitBreaker.Invariant.{Inv, allow-Inv, record_success-Inv, record_failure-Inv}

module _ {Q : Type 0} (env : Env Q) (distinct : HasDistinctKeys env.compute_key_hash env.pool) where
  -- Some key of the pool is selectable, and the breaker satisfies its invariant.
  pub record IsHealthy (st : State) : Type 0 where
    pub selectable : 1 ≤ healthy_key_count env.compute_key_hash st.bad env.pool env.pool_id
    pub circuits : Inv st.circuits

  demote_keeps :
      (st : State) (key : KeyEntry)
      → IsHealthy st
      → 1
        ≤ healthy_key_count env.compute_key_hash
            (try_demote env.compute_key_hash st.bad env.pool env.pool_id key).0
            env.pool
            env.pool_id
  demote_keeps st key h =
      try_demote_keeps env.compute_key_hash st.bad env.pool env.pool_id key distinct h.selectable

  refresh_failed-IsHealthy :
      (st : State) (key : KeyEntry) (e : AppError)
      → IsHealthy st
      → IsHealthy (refresh_failed env st key e).0
  unfolding refresh_failed
  refresh_failed-IsHealthy st key e h =
      let d = (try_demote env.compute_key_hash st.bad env.pool env.pool_id key).1 in
      elim (Bool-cases (has_bad_key_hint e && d)) [
        | inl t ↦ rw t (record { selectable = demote_keeps st key h; circuits = h.circuits })
        | inr t ↦ rw t h
      ]

  punish-IsHealthy :
      (st : State) (key : KeyEntry) (status : Option ℕ) (retryable : Bool) (msg : String)
      → IsHealthy st
      → IsHealthy (punish env st key status retryable msg).0
  unfolding punish
  punish-IsHealthy st key status retryable msg h =
      let k : CircuitKey = (env.pool_id, identity_hash env.compute_key_hash key) in
      let c = record_failure-Inv st.circuits (env.instant st.attempts) k h.circuits in
      elim (Bool-cases (try_demote env.compute_key_hash st.bad env.pool env.pool_id key).1) [
        | inl t ↦ rw t (record { selectable = demote_keeps st key h; circuits = c })
        | inr t ↦ rw t (record { selectable = h.selectable; circuits = c })
      ]

  count_burst-IsHealthy :
      (st : State) (key_hash : String) (status : Option ℕ) (msg : String)
      → IsHealthy st
      → IsHealthy (count_burst env st key_hash status msg)
  unfolding count_burst
  count_burst-IsHealthy st key_hash status msg h =
      elim (Bool-cases
        (leb env.min_error_burst (burst_count env (lookup (env.pool_id, key_hash) st.bursts)))) [
          | inl t ↦ rw t (record { selectable = h.selectable; circuits = h.circuits })
          | inr t ↦ rw t (record { selectable = h.selectable; circuits = h.circuits })
        ]

  chat_failed-IsHealthy :
      (st : State) (key : KeyEntry) (e : AppError)
      → IsHealthy st
      → IsHealthy (chat_failed env st key e).0
  unfolding chat_failed
  chat_failed-IsHealthy st key (upstream status retryable hint msg) h =
      let h' = count_burst-IsHealthy st (identity_hash env.compute_key_hash key) status msg h in
      elim (Bool-cases (is_bad_status env hint status)) [
        | inl t ↦ rw t (punish-IsHealthy _ key status retryable msg h')
        | inr t ↦ rw t h'
      ]
  chat_failed-IsHealthy st key e h = h

  call_upstream-IsHealthy :
      (st : State) (key : KeyEntry) (r : Result Q)
      → IsHealthy st
      → IsHealthy (call_upstream env st key r).0
  unfolding call_upstream chat_succeeded
  call_upstream-IsHealthy st key (ok resp) h = record {
    selectable = h.selectable;
    circuits = record_success-Inv st.circuits _ h.circuits;
  }
  call_upstream-IsHealthy st key (err e) h =
      chat_failed-IsHealthy (record st { calls = key ∷ st.calls }) key e
        (record { selectable = h.selectable; circuits = h.circuits })

  try_key-IsHealthy :
      (st : State) (r : Result KeyEntry) (picked : KeyEntry)
      → IsHealthy st
      → IsHealthy (try_key env st r picked).0
  unfolding try_key circuit_open
  try_key-IsHealthy st (err e) picked h = refresh_failed-IsHealthy st picked e h
  try_key-IsHealthy st (ok key) picked h =
      let k : CircuitKey = (env.pool_id, identity_hash env.compute_key_hash key) in
      let now = env.instant st.attempts in
      let st' = record st { circuits = (allow st.circuits now k).0 } in
      let c = allow-Inv st.circuits now k h.circuits in
      let h' : IsHealthy st' = record { selectable = h.selectable; circuits = c } in
      elim (Bool-cases (allow st.circuits now k).1) [
        | inl t ↦ rw t (call_upstream-IsHealthy st' key (env.chat st.attempts key) h')
        | inr t ↦ rw t (record { selectable = h.selectable; circuits = c })
      ]

  try_picked-IsHealthy :
      (st : State) (o : Option KeyEntry) → IsHealthy st → IsHealthy (try_picked env st o).0
  unfolding try_picked
  try_picked-IsHealthy st none h = record { selectable = h.selectable; circuits = h.circuits }
  try_picked-IsHealthy st (some key) h =
      try_key-IsHealthy st (env.ensure_fresh st.attempts key) key h

  -- One attempt keeps a selectable key in the pool and the breaker's invariant.
  pub attempt-IsHealthy : (st : State) → IsHealthy st → IsHealthy (attempt env st).0
  unfolding attempt
  attempt-IsHealthy st h =
      try_picked-IsHealthy (record st { attempts = st.attempts + 1 }) _
        (record { selectable = h.selectable; circuits = h.circuits })
