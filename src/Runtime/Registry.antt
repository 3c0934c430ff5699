-- ===== src/Runtime/Registry.antt =====
-- src/provider/registry.rs: the provider factories (`ProviderRegistry`). A factory is a parameter:
-- what it supports and what it creates; `P` stands for `Arc<dyn Provider>`.
pub mod Last
use llm_proxy.Prelude.{
  String, Bool, Option, none, some, List, [], ◌∷◌, find, pair_eq, string_eq, nat_eq,
}
use llm_proxy.Prelude.Assoc.{Map, insert}
use llm_proxy.AppError.{config, Result, ok, err}
use Prim.Native.String.{◌++◌}

pub data ProviderKind : Type 0 where
  open_ai anthropic gemini : ProviderKind

abbrev kind_name : ProviderKind → String
kind_name open_ai = "OpenAi"
kind_name anthropic = "Anthropic"
kind_name gemini = "Gemini"

pub record ProviderConfig (J : Type 0) : Type 0 where
  pub id : String
  pub pool_id : String
  pub base_url : String
  pub kind : ProviderKind
  pub metadata : J

-- `ProviderFactory`
pub record Factory (P J : Type 0) : Type 0 where
  pub supports : ProviderKind → Bool
  pub create : ProviderConfig J → Result P

module _ {P : Type 0} where
  abbrev and_insert :
      Result P
      → String
      → (Map String P → Result (Map String P))
      → Map String P
      → Result (Map String P)
  and_insert (err e) pool rest providers = err e
  and_insert (ok p) pool rest providers = rest (insert pool p providers)

module _ {P J : Type 0} where
  abbrev create_with : ProviderConfig J → Option (Factory P J) → Result P
  create_with cfg none =
      err (config ("no provider factory found for kind '" ++ (kind_name cfg.kind ++ "'")))
  create_with cfg (some f) = f.create cfg

  -- The first factory that supports the kind.
  unfoldable pub build_one : List (Factory P J) → ProviderConfig J → Result P
  build_one factories cfg = create_with cfg (find (λ f. f.supports cfg.kind) factories)

  -- The loop over the configurations, with the providers made before.
  unfoldable pub build_from :
      List (Factory P J) → List (ProviderConfig J) → Map String P → Result (Map String P)
  unfolding build_one
  build_from factories [] providers = ok providers
  build_from factories (cfg ∷ cfgs) providers =
      and_insert (build_one factories cfg) cfg.pool_id (build_from factories cfgs) providers

  unfoldable pub build_all : List (Factory P J) → List (ProviderConfig J) → Result (Map String P)
  unfolding build_from
  build_all factories cfgs = build_from factories cfgs []
