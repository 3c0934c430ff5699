-- ===== src/Runtime.antt =====
-- src/runtime.rs, and the rebuilder of src/bootstrap.rs: a router is built from a snapshot of the
-- configuration and swapped in while requests run.
pub mod Registry
pub mod Resolution
pub mod Rebuilds
mod Examples
use llm_proxy.Prelude.{
  String, Bool, true, not, Option, none, some, List, [], ◌∷◌, map, if◌then◌else◌, is_some, pair_eq,
  string_eq, nat_eq,
}
use llm_proxy.Prelude.Assoc.{Map, lookup, insert}
use llm_proxy.AppError.{AppError, config, Result, ok, err, ◌>>=◌}
use llm_proxy.Config.KeyEntry.{PoolConfig}
use llm_proxy.Config.Routing.{ModelRouting, pool_id, upstream_model, default_params}
use llm_proxy.Router.{Route, Router}
use llm_proxy.Runtime.Registry.{ProviderConfig, Factory, build_all}
use Prim.Native.String.{◌++◌}

-- What routing needs of `ConfigStore::snapshot`.
pub record Snapshot (J : Type 0) : Type 0 where
  pub providers : List (ProviderConfig J)
  pub pool_configs : Map String PoolConfig
  pub model_routing : Map String (ModelRouting J)

abbrev pool_missing : String → String → AppError
pool_missing pool model = config (
    "pool '"
    ++ (pool ++ ("' referenced by model '" ++ (model ++ "' not found in configured pools"))))

module _ {J : Type 0} where
  -- The first loop: every route's pool is there.
  abbrev check_pools : Map String PoolConfig → Map String (ModelRouting J) → Result (Unit {0})
  check_pools pools [] = ok tt
  check_pools pools ((model, route) ∷ routing) =
      let rest = check_pools pools routing in
      if is_some (lookup (pool_id route) pools)
      then rest
      else err (pool_missing (pool_id route) model)

module _ {J : Type 0} (is_object : J → Bool) where
  abbrev route_of : ModelRouting J → PoolConfig → Route J
  route_of route pool = record {
    pool_id = pool_id route;
    pool = pool;
    default_params = default_params is_object route;
    upstream_model = upstream_model route;
  }

  -- The second loop, with the map built before.
  abbrev add_route :
      String
      → ModelRouting J
      → Option PoolConfig
      → (Map String (Route J) → Result (Map String (Route J)))
      → Map String (Route J)
      → Result (Map String (Route J))
  add_route model route none rest m = err (config ("pool '" ++ (pool_id route ++ "' not found")))
  add_route model route (some pool) rest m = rest (insert model (route_of route pool) m)

  unfoldable pub add_routes :
      Map String PoolConfig
      → Map String (ModelRouting J)
      → Map String (Route J)
      → Result (Map String (Route J))
  add_routes pools [] m = ok m
  add_routes pools ((model, route) ∷ routing) m =
      add_route model route (lookup (pool_id route) pools) (add_routes pools routing) m

-- `RoutingSnapshot`, from three reads of the store.
abbrev pub seen : {J : Type 0} → Snapshot J → Snapshot J → Snapshot J → Snapshot J
seen a b c = record {
  providers = a.providers;
  pool_configs = b.pool_configs;
  model_routing = c.model_routing;
}

-- What the store holds at the four reads of a tick: three to compare, and the one of
-- `rebuild_router`.
pub record Reads (J : Type 0) : Type 0 where
  pub for_providers : Snapshot J
  pub for_pools : Snapshot J
  pub for_routing : Snapshot J
  pub for_build : Snapshot J

abbrev pub compared : {J : Type 0} → Reads J → Snapshot J
compared r = seen r.for_providers r.for_pools r.for_routing

-- The rebuilder: the router that is live (`RouterHandle`), and what was compared when it was last
-- built, or when the task was spawned.
pub record Rebuilder (P J : Type 0) : Type 0 where
  pub current : Router P J
  pub last : Option (Snapshot J)

module _ {P J : Type 0} where
  -- The three reads when the task is spawned, with the router that was built before.
  abbrev pub spawned : Router P J → Snapshot J → Snapshot J → Snapshot J → Rebuilder P J
  spawned router a b c = record { current = router; last = some (seen a b c) }

  abbrev swapped : Rebuilder P J → Snapshot J → Result (Router P J) → Rebuilder P J
  swapped b s (ok router) = record { current = router; last = some s }
  swapped b s (err e) = b

module _ {J : Type 0} (same : Snapshot J → Snapshot J → Bool) where
  abbrev changed : Option (Snapshot J) → Snapshot J → Bool
  changed none s = true
  changed (some l) s = not (same l s)

module _ {P J : Type 0} (is_object : J → Bool) where
  unfoldable pub rebuild_router : List (Factory P J) → Snapshot J → Result (Router P J)
  unfolding build_all add_routes
  rebuild_router factories s = do
    providers ← build_all factories s.providers
    checked ← check_pools s.pool_configs s.model_routing
    model_map ← add_routes is_object s.pool_configs s.model_routing []
    ok (record { model_map = model_map; providers = providers })

  module _ (factories : List (Factory P J)) (same : Snapshot J → Snapshot J → Bool) where
    -- One tick of the interval, with what it reads.
    unfoldable pub tick : Rebuilder P J → Reads J → Rebuilder P J
    unfolding rebuild_router
    tick b r =
        if changed same b.last (compared r)
        then swapped b (compared r) (rebuild_router factories r.for_build)
        else b

    unfoldable pub ticks : Rebuilder P J → List (Reads J) → Rebuilder P J
    unfolding tick
    ticks b [] = b
    ticks b (r ∷ rs) = ticks (tick b r) rs
