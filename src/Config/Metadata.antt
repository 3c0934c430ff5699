-- ===== src/Config/Metadata.antt =====
-- src/config/mod.rs: the metadata of a model, in three layers over built-in defaults
-- (`ModelMetadataConfig::for_model`). `F` stands for `f64`.
pub mod Layers
mod Examples
use llm_proxy.Prelude.{
  ℕ, String, Bool, false, Option, none, List, [], ◌∷◌, get_or, pair_eq, string_eq, nat_eq,
}
use llm_proxy.Prelude.Assoc.{Map, lookup}

pub record MetadataPricingPartial (F : Type 0) : Type 0 where
  pub input_usd_per_million_tokens : Option F
  pub output_usd_per_million_tokens : Option F
  pub cache_read_usd_per_million_tokens : Option F
  pub cache_write_usd_per_million_tokens : Option F

pub record ModelMetadataPartial (F : Type 0) : Type 0 where
  pub name : Option String
  pub context_window : Option ℕ
  pub max_output_tokens : Option ℕ
  pub input_types : Option (List String)
  pub reasoning : Option Bool
  pub thinking_levels : Option (List String)
  pub supports_tools : Option Bool
  pub supports_vision : Option Bool
  pub pricing : MetadataPricingPartial F

pub record MetadataPricing (F : Type 0) : Type 0 where
  pub input_usd_per_million_tokens : F
  pub output_usd_per_million_tokens : F
  pub cache_read_usd_per_million_tokens : F
  pub cache_write_usd_per_million_tokens : F

pub record ModelMetadata (F : Type 0) : Type 0 where
  pub name : String
  pub context_window : ℕ
  pub max_output_tokens : ℕ
  pub input_types : List String
  pub reasoning : Bool
  pub thinking_levels : List String
  pub supports_tools : Bool
  pub supports_vision : Bool
  pub pricing : MetadataPricing F

pub record ModelMetadataConfig (F : Type 0) : Type 0 where
  pub defaults : ModelMetadataPartial F
  pub pools : Map String (ModelMetadataPartial F)
  pub models : Map String (ModelMetadataPartial F)

module _ {F : Type 0} where
  -- `ModelMetadataPartial::default()`
  abbrev pub empty_partial : ModelMetadataPartial F
  empty_partial = record {
    name = none;
    context_window = none;
    max_output_tokens = none;
    input_types = none;
    reasoning = none;
    thinking_levels = none;
    supports_tools = none;
    supports_vision = none;
    pricing = record {
      input_usd_per_million_tokens = none;
      output_usd_per_million_tokens = none;
      cache_read_usd_per_million_tokens = none;
      cache_write_usd_per_million_tokens = none;
    };
  }

  -- One round of the loop over the layers: what the layer sets overwrites.
  abbrev apply_pricing : MetadataPricingPartial F → MetadataPricing F → MetadataPricing F
  apply_pricing p out = record {
    input_usd_per_million_tokens =
        get_or p.input_usd_per_million_tokens out.input_usd_per_million_tokens;
    output_usd_per_million_tokens =
        get_or p.output_usd_per_million_tokens out.output_usd_per_million_tokens;
    cache_read_usd_per_million_tokens =
        get_or p.cache_read_usd_per_million_tokens out.cache_read_usd_per_million_tokens;
    cache_write_usd_per_million_tokens =
        get_or p.cache_write_usd_per_million_tokens out.cache_write_usd_per_million_tokens;
  }

  unfoldable pub apply_partial : ModelMetadataPartial F → ModelMetadata F → ModelMetadata F
  apply_partial p out = record {
    name = get_or p.name out.name;
    context_window = get_or p.context_window out.context_window;
    max_output_tokens = get_or p.max_output_tokens out.max_output_tokens;
    input_types = get_or p.input_types out.input_types;
    reasoning = get_or p.reasoning out.reasoning;
    thinking_levels = get_or p.thinking_levels out.thinking_levels;
    supports_tools = get_or p.supports_tools out.supports_tools;
    supports_vision = get_or p.supports_vision out.supports_vision;
    pricing = apply_pricing p.pricing out.pricing;
  }

  abbrev apply_layers : List (ModelMetadataPartial F) → ModelMetadata F → ModelMetadata F
  apply_layers [] out = out
  apply_layers (p ∷ ps) out = apply_layers ps (apply_partial p out)

  module _ (zero_usd : F) where
    unfoldable pub built_in : String → ModelMetadata F
    built_in model = record {
      name = model;
      context_window = 128_000;
      max_output_tokens = 16_384;
      input_types = "text" ∷ [];
      reasoning = false;
      thinking_levels = [];
      supports_tools = false;
      supports_vision = false;
      pricing = record {
        input_usd_per_million_tokens = zero_usd;
        output_usd_per_million_tokens = zero_usd;
        cache_read_usd_per_million_tokens = zero_usd;
        cache_write_usd_per_million_tokens = zero_usd;
      };
    }

    unfoldable pub for_model : ModelMetadataConfig F → String → String → ModelMetadata F
    unfolding apply_partial built_in
    for_model c model pool =
        let pool_partial = get_or (lookup pool c.pools) empty_partial in
        let model_partial = get_or (lookup model c.models) empty_partial in
        apply_layers (c.defaults ∷ pool_partial ∷ model_partial ∷ []) (built_in model)
