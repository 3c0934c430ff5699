-- ===== src/Config/Routing.antt =====
-- src/config/mod.rs, `ModelRouting`: the entries of `model_to_pool`. `J` stands for
-- `serde_json::Value`.
use llm_proxy.Prelude.{String, Bool, Option, none, some, if◌then◌else◌, pair_eq, string_eq, nat_eq}
use llm_proxy.Prelude.Text.{trim}
use llm_proxy.Config.KeyEntry.{nonempty}

pub data ModelRouting (J : Type 0) : Type 0 where
  simple : String → ModelRouting J
  -- pool, default_params, upstream_model
  with_params : String → J → Option String → ModelRouting J

-- `.as_deref().map(str::trim).filter(|s| !s.is_empty())`
abbrev pub trimmed : Option String → Option String
trimmed none = none
trimmed (some s) = nonempty (some (trim s))

module _ {J : Type 0} where
  abbrev pub pool_id : ModelRouting J → String
  pool_id (simple s) = s
  pool_id (with_params pool params upstream) = pool

  abbrev pub upstream_model : ModelRouting J → Option String
  upstream_model (simple s) = none
  upstream_model (with_params pool params upstream) = trimmed upstream

module _ {J : Type 0} (is_object : J → Bool) where
  abbrev pub default_params : ModelRouting J → Option J
  default_params (simple s) = none
  default_params (with_params pool params upstream) = if is_object params then some params else none
