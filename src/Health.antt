-- ===== src/Health.antt =====
-- src/health.rs, `run_health_loop`: one round of probes over the bad keys. A provider is the answer
-- to its probes; the n-th probe of a round may answer anew, as may the token refresh.
pub mod Revival
mod Examples
use llm_proxy.Prelude.{
  ℕ, ◌+◌, String, Option, none, some, List, [], ◌∷◌, find, ◌==◌, pair_eq, string_eq, nat_eq,
}
use llm_proxy.Prelude.Assoc.{Map, lookup, insert, remove}
use llm_proxy.AppError.{Result, ok, err}
use llm_proxy.Config.KeyEntry.{KeyEntry, PoolConfig, identity_hash}
use llm_proxy.BadKeyRegistry.{BadKeyRegistry, snapshot, remove_bad}
use llm_proxy.CircuitBreaker.{u32}

-- What surrounds a round. `P` is `Arc<dyn Provider>`.
pub record Env (P : Type 0) : Type 0 where
  pub compute_key_hash : String → String
  pub pools : Map String PoolConfig
  pub providers : Map String P
  pub max_retries : ℕ
  pub ensure_fresh : ℕ → KeyEntry → Result KeyEntry
  pub probe : ℕ → P → KeyEntry → Result (Unit {0})

-- The failed probes in a row of each key, in a `u32`.
pub record State : Type 0 where
  pub bad : BadKeyRegistry
  pub retries : Map (String × String) ℕ

module _ {P : Type 0} (env : Env P) where
  abbrev find_key : String → Option PoolConfig → Option KeyEntry
  find_key key_hash none = none
  find_key key_hash (some pool) =
      find (λ k. identity_hash env.compute_key_hash k == key_hash) pool.keys

  abbrev next_count : Option ℕ → ℕ
  next_count none = 1
  next_count (some c) = u32 (c + 1)

  -- At `max_retries` failures the code only logs.
  abbrev probed : State → String → String → Result (Unit {0}) → State
  probed st pool_id key_hash (ok u) = record {
    bad = remove_bad st.bad pool_id key_hash;
    retries = remove (pool_id, key_hash) st.retries;
  }
  probed st pool_id key_hash (err e) = record st {
    retries =
        insert (pool_id, key_hash) (next_count (lookup (pool_id, key_hash) st.retries)) st.retries;
  }

  abbrev probe_fresh : State → ℕ → String → String → P → Result KeyEntry → State
  probe_fresh st n pool_id key_hash provider (err e) = st
  probe_fresh st n pool_id key_hash provider (ok key) =
      probed st pool_id key_hash (env.probe n provider key)

  abbrev probe_found : State → ℕ → String → String → Option KeyEntry → Option P → State
  probe_found st n pool_id key_hash none provider = st
  probe_found st n pool_id key_hash (some key) none = st
  probe_found st n pool_id key_hash (some key) (some provider) =
      probe_fresh st n pool_id key_hash provider (env.ensure_fresh n key)

  unfoldable pub probe_key : State → ℕ → String × String → State
  probe_key st n (pool_id, key_hash) =
      probe_found st n pool_id key_hash (find_key key_hash (lookup pool_id env.pools))
        (lookup pool_id env.providers)

  unfoldable pub probe_all : State → ℕ → List (String × String) → State
  probe_all st n [] = st
  probe_all st n (k ∷ ks) = probe_all (probe_key st n k) (n + 1) ks

  -- One round of the loop, after its sleep.
  unfoldable pub probe_round : State → State
  probe_round st = probe_all st 0 (snapshot st.bad)
