-- ===== src/Pricing/Examples.antt =====
-- A price table over whole numbers: the file prices tenant "t", a row prices all tenants.
use llm_proxy.Prelude.{
  ℕ, ◌+◌, ◌*◌, ◌/◌, ◌≡◌, refl, none, some, List, [], ◌∷◌, ltb, get_or, ◌==◌, pair_eq, string_eq,
  nat_eq,
}
use llm_proxy.Prelude.Assoc.{lookup, insert}
use llm_proxy.Pricing.{
  Float, PriceEntry, PricingConfig, lookup_price, cost_usd, CatalogEntry, PricingOverride, slot,
  catalog_layer, add_tenants, yaml_layer, is_effective_at, override_price, global_layer,
  tenant_layer, compose_pricing,
}
use llm_proxy.Pricing.Layers.{last_match, sets_for, compose_pricing-order}

abbrev whole : Float
whole = record {
  F = ℕ;
  zero_f = 0;
  is_zero = λ n. n == 0;
  is_positive = λ n. ltb 0 n;
  charge = λ tokens price. tokens * price / 1_000_000;
  plus = λ a b. a + b;
}

abbrev price : ℕ → PriceEntry whole
price n = record { prompt = n; completion = n }

abbrev yaml : PricingConfig whole
yaml = ("m", record { default_ = price 2; tenants = ("t", price 3) ∷ [] }) ∷ []

abbrev catalog : List (CatalogEntry whole)
catalog = record { id = "m"; input_price_per_1m = some 1; output_price_per_1m = none } ∷ []

abbrev for_all : PricingOverride whole
for_all = record {
  model_id = "m";
  tenant_id = none;
  input_price_per_1m = 9;
  output_price_per_1m = 9;
  effective_from = 5;
  effective_until = some 20;
}

abbrev for_t : PricingOverride whole
for_t = record for_all { tenant_id = some "t"; input_price_per_1m = 7; output_price_per_1m = 7 }

-- The file's price for the tenant outranks the row for all tenants.
file_outranks :
    lookup_price whole (compose_pricing whole yaml catalog (for_all ∷ []) 10) "m" (some "t")
    ≡ price 3
unfolding lookup_price compose_pricing tenant_layer global_layer yaml_layer catalog_layer
    is_effective_at add_tenants lookup insert
file_outranks = refl

row_outranks :
    cost_usd whole
      (compose_pricing whole yaml catalog (for_t ∷ for_all ∷ []) 10)
      "m"
      (some "t")
      1_000_000
      2_000_000
    ≡ some 21
unfolding cost_usd lookup_price compose_pricing tenant_layer global_layer yaml_layer catalog_layer
    is_effective_at add_tenants lookup insert
row_outranks = refl

compose_pricing-order_example :
    let base = slot whole (yaml_layer whole (catalog_layer whole [] catalog) yaml) "m" in
    lookup_price whole (compose_pricing whole yaml catalog (for_t ∷ for_all ∷ []) 10) "m" (some "t")
    ≡ get_or
        (last_match whole
          (sets_for whole 10 "m" (some "t"))
          (λ ov. some (override_price whole ov))
          (for_t ∷ for_all ∷ [])
          (lookup "t" base.tenants))
        (last_match whole
          (sets_for whole 10 "m" none)
          (override_price whole)
          (for_t ∷ for_all ∷ [])
          base.default_)
compose_pricing-order_example =
    compose_pricing-order whole yaml catalog (for_t ∷ for_all ∷ []) 10 "m" "t"
