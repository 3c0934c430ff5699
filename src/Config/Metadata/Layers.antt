-- ===== src/Config/Metadata/Layers.antt =====
-- Which layer decides a field of a model's metadata.
use llm_proxy.Prelude.{
  String, ◌≡◌, refl, ap, ◌∙◌, false, Option, none, some, [], ◌∷◌, get_or, pair_eq, string_eq,
  nat_eq,
}
use llm_proxy.Prelude.Assoc.{lookup}
use llm_proxy.Config.Metadata.{
  ModelMetadataPartial, ModelMetadata, ModelMetadataConfig, empty_partial, apply_partial,
}
use llm_proxy.Config.Metadata.{for_model, built_in}

-- What a layer says of a field, if the configuration has the layer.
abbrev said {ℓ κ} : {A : Type ℓ} {B : Type κ} → Option A → (A → Option B) → Option B
said none f = none
said (some a) f = f a

-- The model's layer before the pool's, the pool's before the defaults.
abbrev pub decided {ℓ} : {B : Type ℓ} → Option B → Option B → Option B → B → B
decided (some b) p d out = b
decided none (some b) d out = b
decided none none (some b) out = b
decided none none none out = out

three {ℓ} :
    {B : Type ℓ} (x y z : Option B) (out : B)
    → get_or x (get_or y (get_or z out)) ≡ decided x y z out
three (some x) y z out = refl
three none (some y) z out = refl
three none none (some z) out = refl
three none none none out = refl

module _ {F : Type 0} where
  -- What the three layers of a configuration decide of a field, over its default.
  abbrev pub layered :
      {B : Type 0}
      → ModelMetadataConfig F
      → String
      → String
      → (ModelMetadataPartial F → Option B)
      → B
      → B
  layered c model pool f out =
      decided (said (lookup model c.models) f) (said (lookup pool c.pools) f) (f c.defaults) out

  said_eq :
      {B : Type 0} (o : Option (ModelMetadataPartial F)) (f : ModelMetadataPartial F → Option B)
      → f empty_partial ≡ none
      → f (get_or o empty_partial) ≡ said o f
  said_eq none f e = e
  said_eq (some a) f e = refl

  layered_eq :
      {B : Type 0} (c : ModelMetadataConfig F) (model pool : String)
      (f : ModelMetadataPartial F → Option B) (out : B)
      → f empty_partial ≡ none
      → get_or
          (f (get_or (lookup model c.models) empty_partial))
          (get_or (f (get_or (lookup pool c.pools) empty_partial)) (get_or (f c.defaults) out))
        ≡ layered c model pool f out
  layered_eq c model pool f out e =
      ap
        (λ x.
          get_or x
            (get_or (f (get_or (lookup pool c.pools) empty_partial)) (get_or (f c.defaults) out)))
        (said_eq (lookup model c.models) f e)
      ∙ ap (λ y. get_or (said (lookup model c.models) f) (get_or y (get_or (f c.defaults) out)))
          (said_eq (lookup pool c.pools) f e)
      ∙ three (said (lookup model c.models) f) (said (lookup pool c.pools) f) (f c.defaults) out

  -- Every field of `out` is the one that the layers decide.
  pub record IsLayered (zero_usd : F) (c : ModelMetadataConfig F) (model pool : String)
      (out : ModelMetadata F) : Type 0 where
    the_name : out.name ≡ layered c model pool (λ l. l.name) model
    the_context_window : out.context_window ≡ layered c model pool (λ l. l.context_window) 128_000
    the_max_output_tokens :
        out.max_output_tokens ≡ layered c model pool (λ l. l.max_output_tokens) 16_384
    the_input_types : out.input_types ≡ layered c model pool (λ l. l.input_types) ("text" ∷ [])
    the_reasoning : out.reasoning ≡ layered c model pool (λ l. l.reasoning) false
    the_thinking_levels : out.thinking_levels ≡ layered c model pool (λ l. l.thinking_levels) []
    the_supports_tools : out.supports_tools ≡ layered c model pool (λ l. l.supports_tools) false
    the_supports_vision : out.supports_vision ≡ layered c model pool (λ l. l.supports_vision) false
    the_input_usd_per_million_tokens :
        out.pricing.input_usd_per_million_tokens
        ≡ layered c model pool (λ l. l.pricing.input_usd_per_million_tokens) zero_usd
    the_output_usd_per_million_tokens :
        out.pricing.output_usd_per_million_tokens
        ≡ layered c model pool (λ l. l.pricing.output_usd_per_million_tokens) zero_usd
    the_cache_read_usd_per_million_tokens :
        out.pricing.cache_read_usd_per_million_tokens
        ≡ layered c model pool (λ l. l.pricing.cache_read_usd_per_million_tokens) zero_usd
    the_cache_write_usd_per_million_tokens :
        out.pricing.cache_write_usd_per_million_tokens
        ≡ layered c model pool (λ l. l.pricing.cache_write_usd_per_million_tokens) zero_usd

  -- Every field of a model's metadata, the prices included, is the one of the model's own layer,
  -- else of its pool's layer, else of the defaults, else built in: the name is then the model's,
  -- and a price is zero.
  pub for_model-IsLayered :
      (zero_usd : F) (c : ModelMetadataConfig F) (model pool : String)
      → IsLayered zero_usd c model pool (for_model zero_usd c model pool)
  unfolding for_model apply_partial built_in
  for_model-IsLayered zero_usd c model pool = record {
    the_name = layered_eq c model pool (λ l. l.name) model refl;
    the_context_window = layered_eq c model pool (λ l. l.context_window) 128_000 refl;
    the_max_output_tokens = layered_eq c model pool (λ l. l.max_output_tokens) 16_384 refl;
    the_input_types = layered_eq c model pool (λ l. l.input_types) ("text" ∷ []) refl;
    the_reasoning = layered_eq c model pool (λ l. l.reasoning) false refl;
    the_thinking_levels = layered_eq c model pool (λ l. l.thinking_levels) [] refl;
    the_supports_tools = layered_eq c model pool (λ l. l.supports_tools) false refl;
    the_supports_vision = layered_eq c model pool (λ l. l.supports_vision) false refl;
    the_input_usd_per_million_tokens =
        layered_eq c model pool (λ l. l.pricing.input_usd_per_million_tokens) zero_usd refl;
    the_output_usd_per_million_tokens =
        layered_eq c model pool (λ l. l.pricing.output_usd_per_million_tokens) zero_usd refl;
    the_cache_read_usd_per_million_tokens =
        layered_eq c model pool (λ l. l.pricing.cache_read_usd_per_million_tokens) zero_usd refl;
    the_cache_write_usd_per_million_tokens =
        layered_eq c model pool (λ l. l.pricing.cache_write_usd_per_million_tokens) zero_usd refl;
  }
