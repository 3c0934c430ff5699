-- ===== src/Runtime/Resolution.antt =====
-- What a rebuilt router answers for every model.
use llm_proxy.Prelude.{
  String, ◌≡◌, refl, sym, ap, ◌∙◌, subst, inl, inr, Bool, true, Option, none, some, List, [], ◌∷◌,
  arith, if◌then◌else◌, Bool-cases, ◌==◌, eq_of_beq, pair_eq, string_eq, nat_eq,
}
use llm_proxy.Prelude.Assoc.{Map, lookup, insert, lookup-insert}
use llm_proxy.AppError.{config, not_found, Result, ok, err, ◌>>=◌}
use llm_proxy.Config.KeyEntry.{PoolConfig}
use llm_proxy.Config.Routing.{ModelRouting, pool_id, upstream_model, default_params}
use llm_proxy.Router.{Route, Router, resolve}
use llm_proxy.Runtime.Registry.{ProviderConfig, Factory, build_one, build_all}
use llm_proxy.Runtime.Registry.Last.{ok_inj, last_config, IsProvided, build_from-IsProvided}
use llm_proxy.Runtime.{Snapshot, check_pools, route_of, add_route, add_routes, rebuild_router}
use Prim.Native.String.{◌++◌}

module _ {A B : Type 0} where
  pub bind-ok :
      (x : Result A) (f : A → Result B) (b : B)
      → (x >>= f) ≡ ok b
      → (a : A) × (x ≡ ok a) × (f a ≡ ok b)
  bind-ok (ok a) f b h = (a, refl, h)
  bind-ok (err e) f b h = absurd (ground arith)

-- Every key once, as in a `HashMap`.
abbrev pub HasUniqueKeys : {V : Type 0} → Map String V → Type 0
HasUniqueKeys [] = Unit
HasUniqueKeys ((k, v) ∷ m) = (lookup k m ≡ none) × HasUniqueKeys m

module _ {J : Type 0} (is_object : J → Bool) (pools : Map String PoolConfig) where
  abbrev IsRouted :
      String → Map String (Route J) → Map String (Route J) → Option (ModelRouting J) → Type 0
  IsRouted model before after none = lookup model after ≡ lookup model before
  IsRouted model before after (some route) =
      (pool : PoolConfig) × (lookup (pool_id route) pools ≡ some pool)
      × (lookup model after ≡ some (route_of is_object route pool))

  add_route-ok :
      (model : String) (route : ModelRouting J) (o : Option PoolConfig)
      (rest : Map String (Route J) → Result (Map String (Route J))) (m after : Map String (Route J))
      → add_route is_object model route o rest m ≡ ok after
      → (pool : PoolConfig) × (o ≡ some pool)
        × (rest (insert model (route_of is_object route pool) m) ≡ ok after)
  add_route-ok model route none rest m after h = absurd (ground arith)
  add_route-ok model route (some pool) rest m after h = (pool, refl, h)

  first-IsRouted :
      (model j : String) (route : ModelRouting J) (pool : PoolConfig)
      (before after : Map String (Route J)) (o : Option (ModelRouting J))
      → lookup (pool_id route) pools ≡ some pool
      → ((model == j) ≡ true → o ≡ none)
      → IsRouted j (insert model (route_of is_object route pool) before) after o
      → IsRouted j before after (if model == j then some route else o)
  first-IsRouted model j route pool before after (some other) p u h =
      elim (Bool-cases (model == j)) [ inl e ↦ absurd (ground (arith, u e)) | inr e ↦ rw e h ]
  first-IsRouted model j route pool before after none p u h = elim (Bool-cases (model == j)) [
    | inl e ↦ rw e (pool, p, h ∙ rw (lookup-insert, e) refl)
    | inr e ↦ rw e (h ∙ rw (lookup-insert, e) refl)
  ]

  add_routes-IsRouted :
      (j : String) (routing : Map String (ModelRouting J)) (before after : Map String (Route J))
      → HasUniqueKeys routing
      → add_routes is_object pools routing before ≡ ok after
      → IsRouted j before after (lookup j routing)
  unfolding add_routes lookup
  add_routes-IsRouted j [] before after u h = ap (lookup j) (sym (ok_inj before after h))
  add_routes-IsRouted j ((model, route) ∷ routing) before after (n, u) h =
      let (pool, p, r) = add_route-ok model route (lookup (pool_id route) pools) _ before after h in
      first-IsRouted model j route pool before after (lookup j routing) p
        (λ e. subst (λ x. lookup x routing ≡ none) (eq_of_beq model j e) n)
        (add_routes-IsRouted j routing (insert model (route_of is_object route pool) before) after u
          r)

module _ {P J : Type 0} (is_object : J → Bool) (factories : List (Factory P J)) where
  -- What the router answers for a model, given the model's route and its pool's last configuration.
  abbrev pub IsServed :
      Router P J → String → ModelRouting J → PoolConfig → Option (ProviderConfig J) → Type 0
  IsServed r model route pool none =
      resolve r model ≡ err (config ("pool '" ++ (pool_id route ++ "' not found")))
  IsServed r model route pool (some cfg) =
      (v : P) × (build_one factories cfg ≡ ok v)
      × (resolve r model
          ≡ ok (record {
            provider = v;
            route = record {
              pool_id = pool_id route;
              pool = pool;
              default_params = default_params is_object route;
              upstream_model = upstream_model route;
            };
          }))

  abbrev pub IsResolved : Router P J → Snapshot J → String → Option (ModelRouting J) → Type 0
  IsResolved r s model none =
      resolve r model ≡ err (not_found ("model '" ++ (model ++ "' not found")))
  IsResolved r s model (some route) =
      (pool : PoolConfig) × (lookup (pool_id route) s.pool_configs ≡ some pool)
      × IsServed r model route pool (last_config factories (pool_id route) s.providers)

  served :
      (r : Router P J) (model : String) (route : ModelRouting J) (pool : PoolConfig)
      (o : Option (ProviderConfig J))
      → lookup model r.model_map ≡ some (route_of is_object route pool)
      → IsProvided factories (pool_id route) [] r.providers o
      → IsServed r model route pool o
  unfolding resolve lookup
  served r model route pool none h p = rw (h, p) refl
  served r model route pool (some cfg) h (v, b, p) = (v, b, rw (h, p) refl)

  resolved :
      (r : Router P J) (s : Snapshot J) (model : String) (o : Option (ModelRouting J))
      → IsRouted is_object s.pool_configs model [] r.model_map o
      → build_all factories s.providers ≡ ok r.providers
      → IsResolved r s model o
  unfolding resolve build_all lookup
  resolved r s model none h b = rw h refl
  resolved r s model (some route) (pool, p, h) b = (
    pool,
    p,
    served r model route pool _ h
        (build_from-IsProvided factories (pool_id route) s.providers [] r.providers b),
  )

  -- A rebuilt router, from a snapshot in which every model is listed once: a model without a route
  -- is not found; every other model's pool is in the snapshot, and the router serves it from that
  -- pool with the provider that the first fitting factory makes of the pool's last provider
  -- configuration, or answers with a configuration error if the pool has none.
  pub rebuild_router-resolve :
      (s : Snapshot J) (r : Router P J) (model : String)
      → HasUniqueKeys s.model_routing
      → rebuild_router is_object factories s ≡ ok r
      → IsResolved r s model (lookup model s.model_routing)
  unfolding rebuild_router
  rebuild_router-resolve s r model u h =
      let (ps, b, h') = bind-ok (build_all factories s.providers) _ r h in
      let (t, c, h'') = bind-ok (check_pools s.pool_configs s.model_routing) _ r h' in
      let (m, a, h3) = bind-ok (add_routes is_object s.pool_configs s.model_routing []) _ r h'' in
      let e = ok_inj (record { model_map = m; providers = ps }) r h3 in
      subst (λ x. IsResolved x s model (lookup model s.model_routing)) e
        (resolved (record { model_map = m; providers = ps }) s model (lookup model s.model_routing)
          (add_routes-IsRouted is_object s.pool_configs model s.model_routing [] m u a) b)
