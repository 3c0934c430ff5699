-- ===== src/Pricing.antt =====
-- src/config/pricing.rs (prices and costs) and src/config_store.rs, `compose_pricing` (the layers
-- of the price table). Prices are floats in the source; `F` stands for `f64` with the operations
-- that the code uses.
pub mod Layers
mod Examples
use llm_proxy.Prelude.{
  ℕ, ◌*◌, ◌/◌, String, Bool, true, false, ◌&&◌, ◌||◌, Option, none, some, List, [], ◌∷◌, ltb,
  if◌then◌else◌, get_or, pair_eq, string_eq, nat_eq,
}
use llm_proxy.Prelude.Assoc.{Map, lookup, insert}

-- `f64`, as far as the code computes with it.
pub record Float : Type 1 where
  pub F : Type 0
  pub zero_f : F
  pub is_zero : F → Bool
  pub is_positive : F → Bool
  -- `tokens as f64 * price / 1_000_000.0`, and the sum
  pub charge : ℕ → F → F
  pub plus : F → F → F

module _ (f : Float) where
  open f use {F}

  pub record PriceEntry : Type 0 where
    pub prompt : F
    pub completion : F

  pub record ModelPricing : Type 0 where
    pub default_ : PriceEntry
    pub tenants : Map String PriceEntry

  abbrev pub PricingConfig : Type 0
  PricingConfig = Map String ModelPricing

  abbrev pub zero_price : PriceEntry
  zero_price = record { prompt = f.zero_f; completion = f.zero_f }

  abbrev tenant_price : ModelPricing → Option String → PriceEntry
  tenant_price mp none = mp.default_
  tenant_price mp (some t) = get_or (lookup t mp.tenants) mp.default_

  abbrev found_price : Option ModelPricing → Option String → PriceEntry
  found_price none tenant = zero_price
  found_price (some mp) tenant = tenant_price mp tenant

  -- `PricingConfig::lookup`
  unfoldable pub lookup_price : PricingConfig → String → Option String → PriceEntry
  lookup_price models model tenant = found_price (lookup model models) tenant

  -- `none` is SQL NULL: the model has no price.
  unfoldable pub cost_usd : PricingConfig → String → Option String → ℕ → ℕ → Option F
  cost_usd models model tenant prompt_tokens completion_tokens =
      let price = lookup_price models model tenant in
      if f.is_zero price.prompt && f.is_zero price.completion
      then none
      else some (
          f.plus (f.charge prompt_tokens price.prompt)
            (f.charge completion_tokens price.completion))

  -- The prices of `ModelRegistryEntry`, by its id.
  pub record CatalogEntry : Type 0 where
    pub id : String
    pub input_price_per_1m : Option F
    pub output_price_per_1m : Option F

  pub record PricingOverride : Type 0 where
    pub model_id : String
    pub tenant_id : Option String
    pub input_price_per_1m : F
    pub output_price_per_1m : F
    pub effective_from : ℕ
    pub effective_until : Option ℕ

  -- `models.entry(model).or_insert_with(default)`, then a change of the slot.
  abbrev empty_slot : ModelPricing
  empty_slot = record { default_ = zero_price; tenants = [] }

  abbrev pub slot : PricingConfig → String → ModelPricing
  slot models model = get_or (lookup model models) empty_slot

  -- Layer 4
  unfoldable pub catalog_layer : PricingConfig → List CatalogEntry → PricingConfig
  catalog_layer models [] = models
  catalog_layer models (entry ∷ es) =
      let price : PriceEntry = record {
        prompt = get_or entry.input_price_per_1m f.zero_f;
        completion = get_or entry.output_price_per_1m f.zero_f;
      } in
      catalog_layer (insert entry.id (record { default_ = price; tenants = [] }) models) es

  -- Layer 3
  unfoldable pub add_tenants : Map String PriceEntry → Map String PriceEntry → Map String PriceEntry
  add_tenants tenants [] = tenants
  add_tenants tenants ((tenant, price) ∷ ps) = add_tenants (insert tenant price tenants) ps

  abbrev yaml_slot : ModelPricing → ModelPricing → ModelPricing
  yaml_slot s yaml = record {
    default_ =
        if f.is_positive yaml.default_.prompt || f.is_positive yaml.default_.completion
        then yaml.default_
        else s.default_;
    tenants = add_tenants s.tenants yaml.tenants;
  }

  unfoldable pub yaml_layer : PricingConfig → PricingConfig → PricingConfig
  yaml_layer models [] = models
  yaml_layer models ((model, yaml) ∷ ys) =
      yaml_layer (insert model (yaml_slot (slot models model) yaml) models) ys

  -- Times are in milliseconds since 1970.
  unfoldable pub is_effective_at : PricingOverride → ℕ → Bool
  is_effective_at ov now_ms =
      if ltb now_ms ov.effective_from then false else before now_ms ov.effective_until
    where
      before : ℕ → Option ℕ → Bool
      before now none = true
      before now (some until) = ltb now until

  abbrev pub override_price : PricingOverride → PriceEntry
  override_price ov = record { prompt = ov.input_price_per_1m; completion = ov.output_price_per_1m }

  -- Layer 2: the rows for every tenant.
  abbrev put_global : PricingConfig → PricingOverride → Option String → PricingConfig
  put_global models ov (some t) = models
  put_global models ov none =
      insert ov.model_id (record (slot models ov.model_id) { default_ = override_price ov }) models

  unfoldable pub global_layer : ℕ → PricingConfig → List PricingOverride → PricingConfig
  global_layer now_ms models [] = models
  global_layer now_ms models (ov ∷ ovs) =
      global_layer now_ms
        (if is_effective_at ov now_ms then put_global models ov ov.tenant_id else models) ovs

  -- Layer 1: the rows for one tenant.
  abbrev put_tenant : PricingConfig → PricingOverride → Option String → PricingConfig
  put_tenant models ov none = models
  put_tenant models ov (some t) =
      let s = slot models ov.model_id in
      insert ov.model_id (record s { tenants = insert t (override_price ov) s.tenants }) models

  unfoldable pub tenant_layer : ℕ → PricingConfig → List PricingOverride → PricingConfig
  tenant_layer now_ms models [] = models
  tenant_layer now_ms models (ov ∷ ovs) =
      tenant_layer now_ms
        (if is_effective_at ov now_ms then put_tenant models ov ov.tenant_id else models) ovs

  unfoldable pub compose_pricing :
      PricingConfig → List CatalogEntry → List PricingOverride → ℕ → PricingConfig
  compose_pricing bootstrap catalog overrides now_ms =
      tenant_layer now_ms
        (global_layer now_ms (yaml_layer (catalog_layer [] catalog) bootstrap) overrides) overrides
