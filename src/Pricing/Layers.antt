-- ===== src/Pricing/Layers.antt =====
-- Which layer sets a price.
use llm_proxy.Prelude.{
  ℕ, String, ◌≡◌, refl, ap, ◌∙◌, inl, inr, Bool, true, false, ◌&&◌, Option, none, some, List, [],
  ◌∷◌, arith, if◌then◌else◌, Bool-cases, Option-cases, get_or, ◌==◌, eq_of_beq, pair_eq, string_eq,
  nat_eq,
}
use llm_proxy.Prelude.Assoc.{lookup, insert, lookup-insert}
use llm_proxy.Pricing.{
  Float, ModelPricing, PricingConfig, zero_price, tenant_price, lookup_price, CatalogEntry,
  PricingOverride, empty_slot, slot, catalog_layer, yaml_layer, is_effective_at, override_price,
  put_global, global_layer, put_tenant, tenant_layer, compose_pricing,
}

module _ (f : Float) where
  -- What the last row that satisfies `p` sets, else what was there.
  unfoldable pub last_match :
      {X : Type 0}
      → (PricingOverride f → Bool)
      → (PricingOverride f → X)
      → List (PricingOverride f)
      → X
      → X
  last_match p g [] x = x
  last_match p g (ov ∷ ovs) x = last_match p g ovs (if p ov then g ov else x)

  abbrev tenant_is : Option String → Option String → Bool
  tenant_is none none = true
  tenant_is (some t) (some u) = t == u
  tenant_is _ _ = false

  -- The row is in force, for this model and exactly this tenant (or for all, `none`).
  abbrev pub sets_for : ℕ → String → Option String → PricingOverride f → Bool
  sets_for now_ms model tenant ov =
      is_effective_at f ov now_ms && (ov.model_id == model && tenant_is ov.tenant_id tenant)

  slot-insert :
      (models : PricingConfig f) (m n : String) (v : ModelPricing f)
      → slot f (insert m v models) n ≡ (if m == n then v else slot f models n)
  slot-insert models m n v = rw lookup-insert (ground arith)

  put_global-default :
      (models : PricingConfig f) (ov : PricingOverride f) (o : Option String) (n : String)
      → (slot f (put_global f models ov o) n).default_ ≡ (
          if ov.model_id == n && tenant_is o none
          then override_price f ov
          else (slot f models n).default_)
  put_global-default models ov none n = elim (Bool-cases (ov.model_id == n)) [
    | inl e ↦ rw (slot-insert, e) refl
    | inr e ↦ rw (slot-insert, e) refl
  ]
  put_global-default models ov (some t) n = elim (Bool-cases (ov.model_id == n)) [
    | inl e ↦ rw e refl
    | inr e ↦ rw e refl
  ]

  put_global-tenants :
      (models : PricingConfig f) (ov : PricingOverride f) (o : Option String) (n : String)
      → (slot f (put_global f models ov o) n).tenants ≡ (slot f models n).tenants
  put_global-tenants models ov none n = elim (Bool-cases (ov.model_id == n)) [
    | inl e ↦
        let z = eq_of_beq ov.model_id n e in
        rw (slot-insert, e) (ap (λ m. (slot f models m).tenants) z)
    | inr e ↦ rw (slot-insert, e) refl
  ]
  put_global-tenants models ov (some t) n = refl

  put_tenant-default :
      (models : PricingConfig f) (ov : PricingOverride f) (o : Option String) (n : String)
      → (slot f (put_tenant f models ov o) n).default_ ≡ (slot f models n).default_
  put_tenant-default models ov none n = refl
  put_tenant-default models ov (some t) n = elim (Bool-cases (ov.model_id == n)) [
    | inl e ↦
        let z = eq_of_beq ov.model_id n e in
        rw (slot-insert, e) (ap (λ m. (slot f models m).default_) z)
    | inr e ↦ rw (slot-insert, e) refl
  ]

  put_tenant-tenants :
      (models : PricingConfig f) (ov : PricingOverride f) (o : Option String) (n t : String)
      → lookup t (slot f (put_tenant f models ov o) n).tenants ≡ (
          if ov.model_id == n && tenant_is o (some t)
          then some (override_price f ov)
          else lookup t (slot f models n).tenants)
  put_tenant-tenants models ov none n t = elim (Bool-cases (ov.model_id == n)) [
    | inl e ↦ rw e refl
    | inr e ↦ rw e refl
  ]
  put_tenant-tenants models ov (some u) n t = elim (Bool-cases (ov.model_id == n)) [
    | inl e ↦
        let z = eq_of_beq ov.model_id n e in
        rw (slot-insert, e)
          (rw lookup-insert (
            ap
              (λ m.
                if u == t then some (override_price f ov) else lookup t (slot f models m).tenants)
              z))
    | inr e ↦ rw (slot-insert, e) refl
  ]

  global_layer-default :
      (now : ℕ) (models : PricingConfig f) (ovs : List (PricingOverride f)) (n : String)
      → (slot f (global_layer f now models ovs) n).default_
        ≡ last_match (sets_for now n none) (override_price f) ovs (slot f models n).default_
  unfolding global_layer last_match
  global_layer-default now models [] n = refl
  global_layer-default now models (ov ∷ ovs) n = elim (Bool-cases (is_effective_at f ov now)) [
    | inl e ↦ rw e (
        global_layer-default now (put_global f models ov ov.tenant_id) ovs n
        ∙ ap (λ x. last_match (sets_for now n none) (override_price f) ovs x)
            (put_global-default models ov ov.tenant_id n))
    | inr e ↦ rw e (global_layer-default now models ovs n)
  ]

  global_layer-tenants :
      (now : ℕ) (models : PricingConfig f) (ovs : List (PricingOverride f)) (n : String)
      → (slot f (global_layer f now models ovs) n).tenants ≡ (slot f models n).tenants
  unfolding global_layer
  global_layer-tenants now models [] n = refl
  global_layer-tenants now models (ov ∷ ovs) n = elim (Bool-cases (is_effective_at f ov now)) [
    | inl e ↦ rw e (
        global_layer-tenants now (put_global f models ov ov.tenant_id) ovs n
        ∙ put_global-tenants models ov ov.tenant_id n)
    | inr e ↦ rw e (global_layer-tenants now models ovs n)
  ]

  tenant_layer-default :
      (now : ℕ) (models : PricingConfig f) (ovs : List (PricingOverride f)) (n : String)
      → (slot f (tenant_layer f now models ovs) n).default_ ≡ (slot f models n).default_
  unfolding tenant_layer
  tenant_layer-default now models [] n = refl
  tenant_layer-default now models (ov ∷ ovs) n = elim (Bool-cases (is_effective_at f ov now)) [
    | inl e ↦ rw e (
        tenant_layer-default now (put_tenant f models ov ov.tenant_id) ovs n
        ∙ put_tenant-default models ov ov.tenant_id n)
    | inr e ↦ rw e (tenant_layer-default now models ovs n)
  ]

  tenant_layer-tenants :
      (now : ℕ) (models : PricingConfig f) (ovs : List (PricingOverride f)) (n t : String)
      → lookup t (slot f (tenant_layer f now models ovs) n).tenants
        ≡ last_match
            (sets_for now n (some t))
            (λ ov. some (override_price f ov))
            ovs
            (lookup t (slot f models n).tenants)
  unfolding tenant_layer last_match
  tenant_layer-tenants now models [] n t = refl
  tenant_layer-tenants now models (ov ∷ ovs) n t = elim (Bool-cases (is_effective_at f ov now)) [
    | inl e ↦ rw e (
        tenant_layer-tenants now (put_tenant f models ov ov.tenant_id) ovs n t
        ∙ ap (λ x. last_match (sets_for now n (some t)) (λ o. some (override_price f o)) ovs x)
            (put_tenant-tenants models ov ov.tenant_id n t))
    | inr e ↦ rw e (tenant_layer-tenants now models ovs n t)
  ]

  lookup_price-slot :
      (models : PricingConfig f) (n : String) (tenant : Option String)
      → lookup_price f models n tenant ≡ tenant_price f (slot f models n) tenant
  unfolding lookup_price lookup
  lookup_price-slot models n tenant = elim (Option-cases (lookup n models)) [
    | inl e ↦ rw e (none_case tenant)
    | inr (mp, e) ↦ rw e refl
  ]
    where
      none_case : (o : Option String) → zero_price f ≡ tenant_price f (empty_slot f) o
      none_case none = refl
      none_case (some t) = refl

  -- The price of a model for a tenant is set, in this order, by the last row in force for exactly
  -- that model and tenant, by the tenant's price of the configuration file, by the last row in
  -- force for the model and all tenants, and by the default that the file and the catalog leave. So
  -- a row for all tenants does not outrank the file's price for one tenant.
  pub compose_pricing-order :
      (bootstrap : PricingConfig f) (catalog : List (CatalogEntry f))
      (ovs : List (PricingOverride f)) (now_ms : ℕ) (model t : String)
      → let base = slot f (yaml_layer f (catalog_layer f [] catalog) bootstrap) model in
        lookup_price f (compose_pricing f bootstrap catalog ovs now_ms) model (some t)
        ≡ get_or
            (last_match
              (sets_for now_ms model (some t))
              (λ ov. some (override_price f ov))
              ovs
              (lookup t base.tenants))
            (last_match (sets_for now_ms model none) (override_price f) ovs base.default_)
  unfolding compose_pricing
  compose_pricing-order bootstrap catalog ovs now_ms model t =
      lookup_price-slot _ model (some t)
      ∙ rw (tenant_layer-tenants, tenant_layer-default, global_layer-tenants, global_layer-default)
          refl
