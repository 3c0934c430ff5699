-- ===== src/Router.antt =====
-- src/router.rs, `Router`: model routing, key selection and demotion, and src/chat_service.rs,
-- which forwards to it. The registry of bad keys is shared by `Arc`, so it is passed beside the
-- router.
pub mod Selection
pub mod Demotion
mod Examples
use llm_proxy.Prelude.{
  ℕ, String, Bool, true, false, not, ◌&&◌, Option, none, some, List, [], ◌∷◌, map, ltb, leb,
  if◌then◌else◌, length, get_elem?, is_empty, filter_by, any, ◌==◌, pair_eq, string_eq, nat_eq,
}
use llm_proxy.Prelude.Assoc.{Map, lookup}
use llm_proxy.AppError.{AppError, config, not_found, upstream, internal, Result, ok, ◌>>=◌, ok_or}
use llm_proxy.Config.KeyEntry.{KeyEntry, PoolConfig, identity_hash}
use llm_proxy.BadKeyRegistry.{BadKeyRegistry, mark_bad, is_bad}
use Prim.Native.String.{◌++◌}

-- `rand`'s `WeightedIndex::new(weights).ok()` and `dist.sample(rng)`: the drawn index.
abbrev pub Sampler : Type 0
Sampler = List ℕ → Option ℕ

-- The entry of `model_map`: pool id, pool, default parameters, upstream model.
pub record Route (J : Type 0) : Type 0 where
  pub pool_id : String
  pub pool : PoolConfig
  pub default_params : Option J
  pub upstream_model : Option String

-- `P` stands for `Arc<dyn Provider>`, `J` for `serde_json::Value`.
pub record Router (P J : Type 0) : Type 0 where
  pub model_map : Map String (Route J)
  pub providers : Map String P

-- `ResolveResult`
pub record Resolved (P J : Type 0) : Type 0 where
  pub provider : P
  pub route : Route J

module _ {P J : Type 0} where
  unfoldable pub resolve : Router P J → String → Result (Resolved P J)
  resolve r model = do
    route ← ok_or (lookup model r.model_map) (not_found ("model '" ++ model ++ "' not found"))
    provider ←
        ok_or (lookup route.pool_id r.providers)
          (config ("pool '" ++ route.pool_id ++ "' not found"))
    ok (record { provider = provider; route = route })

unfoldable pub pool_exhausted : String → AppError
pool_exhausted pool_id = internal ("all keys in pool '" ++ pool_id ++ "' exhausted")

pub record KeySnapshot : Type 0 where
  pub key_hash : String
  pub weight : ℕ
  pub healthy : Bool

module _ (compute_key_hash : String → String) where
  -- `k.weight > 0 && !self.bad_keys.is_bad(pool_id, &kh)`
  unfoldable pub is_selectable : BadKeyRegistry → String → KeyEntry → Bool
  is_selectable bad pool_id k =
      ltb 0 k.weight && not (is_bad bad pool_id (identity_hash compute_key_hash k))

  unfoldable pub healthy_key_count : BadKeyRegistry → PoolConfig → String → ℕ
  healthy_key_count bad pool pool_id = length (filter_by (is_selectable bad pool_id) pool.keys)

  -- `candidates[idx]`, if an index was drawn.
  abbrev candidate : List KeyEntry → Option ℕ → Option KeyEntry
  candidate candidates none = none
  candidate candidates (some i) = get_elem? candidates i

  unfoldable pub pick_key : Sampler → BadKeyRegistry → PoolConfig → String → Option KeyEntry
  pick_key sample bad pool pool_id =
      let candidates = filter_by (is_selectable bad pool_id) pool.keys in
      if is_empty candidates
      then none
      else candidate candidates (sample (map (λ k. k.weight) candidates))

  abbrev pub mark_key : BadKeyRegistry → String → KeyEntry → BadKeyRegistry
  mark_key bad pool_id key = mark_bad bad pool_id (identity_hash compute_key_hash key)

  unfoldable pub try_demote :
      BadKeyRegistry → PoolConfig → String → KeyEntry → BadKeyRegistry × Bool
  try_demote bad pool pool_id key =
      if leb (healthy_key_count bad pool pool_id) 1
      then (bad, false)
      else (mark_key bad pool_id key, true)

  key_snapshot : BadKeyRegistry → String → KeyEntry → KeySnapshot
  key_snapshot bad pool_id k = record {
    key_hash = identity_hash compute_key_hash k;
    weight = k.weight;
    healthy = not (is_bad bad pool_id (identity_hash compute_key_hash k));
  }

  -- The pools of the routes, each once, at its first route.
  unfoldable pub pool_snapshot :
      {J : Type 0}
      → BadKeyRegistry
      → List String
      → Map String (Route J)
      → List (String × List KeySnapshot)
  unfolding key_snapshot
  pool_snapshot bad seen [] = []
  pool_snapshot bad seen ((model, route) ∷ m) =
      let p = route.pool_id in
      let skipped = pool_snapshot bad seen m in
      let taken = (p, map (key_snapshot bad p) route.pool.keys) ∷ pool_snapshot bad (p ∷ seen) m in
      if any (λ q. q == p) seen then skipped else taken
