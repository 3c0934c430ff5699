-- ===== src/Runtime/Examples.antt =====
-- One pool and one model, and a snapshot whose model names a pool that is missing.
use llm_proxy.Prelude.{
  ℕ, String, ◌≡◌, refl, Bool, true, false, ◌&&◌, none, List, [], ◌∷◌, is_empty, pair_eq, string_eq,
  nat_eq,
}
use llm_proxy.Prelude.Assoc.{lookup, insert}
use llm_proxy.AppError.{config, ok, err}
use llm_proxy.Config.KeyEntry.{PoolConfig}
use llm_proxy.Config.Routing.{simple}
use llm_proxy.Router.{Route, Router}
use llm_proxy.Runtime.Registry.{
  open_ai, anthropic, gemini, ProviderConfig, Factory, build_one, build_from, build_all,
}
use llm_proxy.Runtime.Resolution.{IsResolved, rebuild_router-resolve}
use llm_proxy.Runtime.{Snapshot, Reads}
use llm_proxy.Runtime.{rebuild_router, add_routes}

abbrev is_object : ℕ → Bool
is_object n = true

-- Supports only OpenAI; a provider is its base URL.
abbrev factories : List (Factory String ℕ)
factories =
    record {
      supports = λ k. elim k [ open_ai ↦ true | anthropic ↦ false | gemini ↦ false ];
      create = λ cfg. ok cfg.base_url;
    }
    ∷ []

abbrev openai : ProviderConfig ℕ
openai = record { id = "a"; pool_id = "p1"; base_url = "u1"; kind = open_ai; metadata = 0 }

abbrev pool : PoolConfig
pool = record { keys = [] }

abbrev good : Snapshot ℕ
good = record {
  providers = openai ∷ [];
  pool_configs = ("p1", pool) ∷ [];
  model_routing = ("m", simple "p1") ∷ [];
}

abbrev broken : Snapshot ℕ
broken = record good { model_routing = ("m", simple "p2") ∷ [] }

abbrev nothing : Snapshot ℕ
nothing = record { providers = []; pool_configs = []; model_routing = [] }

abbrev route : Route ℕ
route = record { pool_id = "p1"; pool = pool; default_params = none; upstream_model = none }

abbrev router : Router String ℕ
router = record { model_map = ("m", route) ∷ []; providers = ("p1", "u1") ∷ [] }

good_built : rebuild_router is_object factories good ≡ ok router
unfolding rebuild_router build_all build_from build_one add_routes lookup insert
good_built = refl

missing_pool :
    rebuild_router is_object factories broken
    ≡ err (config "pool 'p2' referenced by model 'm' not found in configured pools")
unfolding rebuild_router build_all build_from build_one add_routes lookup insert
missing_pool = refl

unsupported_kind :
    build_one factories (record openai { kind = gemini })
    ≡ err (config "no provider factory found for kind 'Gemini'")
unfolding build_one
unsupported_kind = refl

rebuild_router-resolve_example :
    IsResolved is_object factories router good "m" (lookup "m" good.model_routing)
unfolding lookup
rebuild_router-resolve_example =
    rebuild_router-resolve is_object factories good router "m" (refl, tt) good_built

-- A comparison that knows only the empty snapshot.
abbrev all_empty : Snapshot ℕ → Bool
all_empty s = is_empty s.providers && is_empty s.pool_configs && is_empty s.model_routing

abbrev both_empty : Snapshot ℕ → Snapshot ℕ → Bool
both_empty l s = all_empty l && all_empty s

abbrev steady : Snapshot ℕ → Reads ℕ
steady s = record { for_providers = s; for_pools = s; for_routing = s; for_build = s }
