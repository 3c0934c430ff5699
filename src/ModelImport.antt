-- ===== src/ModelImport.antt =====
-- src/model_import.rs: the import of a model catalog into the table `model_registry`. The tables
-- are lists of their rows; the import is one transaction, which an error rolls back. The text of
-- the catalog was read, `from_str` of serde_json gives its JSON; a fault of the database itself and
-- the columns `created_at` and `updated_at` are left out.
pub mod Match
pub mod Mapping
pub mod Outcome
mod Examples
use llm_proxy.Prelude.{
  ℕ, ◌+◌, String, inl, inr, Bool, true, not, ◌&&◌, ◌||◌, Option, none, some, List, [], ◌∷◌, ◌++◌,
  map, if◌then◌else◌, get_or, is_some, is_empty, filter_by, any, ◌==◌, pair_eq, string_eq, nat_eq,
}
use llm_proxy.Prelude.Assoc.{Map, lookup, insert}
use llm_proxy.Prelude.Text.{trim, strip_prefix}
use llm_proxy.AppError.{config, Result, ok, err, ◌>>=◌}
use llm_proxy.Json.{Value, string, object, Fields, no_fields, field, value_get, as_str, as_object}
use llm_proxy.ModelImport.Match.{Candidate, ProviderRow, pick_catalog_match, pick_local_provider}
use llm_proxy.ModelImport.Mapping.{Numbers, Checked, unless_blank, MappedModel, map_model}
use Prim.Native.String.{◌++◌ as ◌⧺◌}

unfoldable pub is_remote_source : String → Bool
is_remote_source source =
    is_some (strip_prefix "https://" (trim source))
    || is_some (strip_prefix "http://" (trim source))

pub record ImportCounts : Type 0 where
  pub new_ : ℕ
  pub skipped : ℕ
  pub conflicts : ℕ
  pub failed : ℕ

pub record ImportReport : Type 0 where
  pub counts : ImportCounts
  pub reasons : List String

-- The columns of `routing_config`, `key_pool` and `provider_config` that are read.
pub record Route : Type 0 where
  pub logical_model : String
  pub pool_id : String
  pub upstream_model : Option String
  pub enabled : Bool

pub record PoolRow : Type 0 where
  pub id : String
  pub enabled : Bool

pub record ProviderConfigRow : Type 0 where
  pub id : String
  pub kind : String
  pub pool_id : String
  pub enabled : Bool

-- A row of `model_registry`, under its id.
pub record RegistryRow (N F : Type 0) : Type 0 where
  pub model : MappedModel N F
  pub provider_kind : String
  pub provider_config_id : String
  pub enabled : Bool

abbrev pub Registry : Type 0 → Type 0 → Type 0
Registry N F = Map String (RegistryRow N F)

pub record Tables : Type 0 where
  pub routing_config : List Route
  pub key_pool : List PoolRow
  pub provider_config : List ProviderConfigRow

-- What the rows of one route lead to.
pub data Plan (N F : Type 0) : Type 0 where
  skip : String → Plan N F
  conflict : String → Plan N F
  broken : String → Plan N F
  fits : ProviderRow → MappedModel N F → Plan N F

-- `get("id").and_then(as_str).filter(…).unwrap_or(model_key)`
abbrev id_of : {N : Type 0} → String → Value N → String
id_of model_key model = get_or (unless_blank (as_str (value_get "id" model))) model_key

abbrev Seen : Type 0 → Type 0
Seen N = List (String × String) × List (Candidate N)

module _ {N : Type 0} where
  -- The loop over the models of a provider.
  unfoldable pub read_models : String → Fields N → Seen N → Result (Seen N)
  read_models provider no_fields s = ok s
  read_models provider (field model_key model models) (seen, candidates) =
      let id = id_of model_key model in
      let rest = read_models provider models (
        (provider, id) ∷ seen,
        candidates ++ record { id = id; provider = provider; value = model } ∷ [],
      ) in
      if trim id == ""
      then err (config "model id must be a non-empty string")
      else if any (λ p. p == (provider, id)) seen
      then err
          (config ("duplicate source model id '" ⧺ (id ⧺ ("' for provider '" ⧺ (provider ⧺ "'")))))
      else rest

  abbrev models_in : String → Option (Value N) → Seen N → Result (Seen N)
  models_in provider none s = ok s
  models_in provider (some (object models)) s = read_models provider models s
  models_in provider (some v) s =
      err (config ("provider '" ⧺ (provider ⧺ "' models must be an object")))

  -- The loop over the providers.
  unfoldable pub read_providers : Fields N → Seen N → Result (Seen N)
  unfolding read_models value_get
  read_providers no_fields s = ok s
  read_providers (field provider group providers) s =
      models_in provider (value_get "models" group) s >>= λ s'. read_providers providers s'

  abbrev read_object : Option (Fields N) → Result (Seen N)
  read_object none = err (config "model metadata root must be an object")
  read_object (some providers) = read_providers providers ([], [])

  unfoldable pub read_catalog : Option (Value N) → Result (List (Candidate N))
  unfolding read_providers
  read_catalog none = err (config "invalid model metadata JSON")
  read_catalog (some root) = read_object (as_object (some root)) >>= λ s. ok s.1

abbrev pub State : Type 0 → Type 0 → Type 0
State N F = Registry N F × ImportReport

abbrev count_skipped : String → ImportReport → ImportReport
count_skipped reason r = record {
  counts = record (r.counts) { skipped = r.counts.skipped + 1 };
  reasons = r.reasons ++ reason ∷ [];
}

abbrev count_conflict : String → ImportReport → ImportReport
count_conflict reason r = record {
  counts = record (r.counts) { conflicts = r.counts.conflicts + 1 };
  reasons = r.reasons ++ reason ∷ [];
}

abbrev count_new : ImportReport → ImportReport
count_new r = record r { counts = record (r.counts) { new_ = r.counts.new_ + 1 } }

module _ {N F : Type 0} where
  -- UPDATE leaves `enabled` as it is, INSERT sets it.
  abbrev row_of : ProviderRow → MappedModel N F → Option (RegistryRow N F) → RegistryRow N F
  row_of (id, kind) m none = record {
    model = m;
    provider_kind = kind;
    provider_config_id = id;
    enabled = true;
  }
  row_of (id, kind) m (some old) = record {
    model = m;
    provider_kind = kind;
    provider_config_id = id;
    enabled = old.enabled;
  }

  -- The rest of the loop's body.
  unfoldable pub carry_out : Bool → String → Plan N F → State N F → Result (State N F)
  carry_out overwrite destination (skip reason) (reg, rep) = ok (reg, count_skipped reason rep)
  carry_out overwrite destination (conflict reason) (reg, rep) = ok (reg, count_conflict reason rep)
  carry_out overwrite destination (broken e) (reg, rep) = err (config e)
  carry_out overwrite destination (fits provider m) (reg, rep) =
      let exists = lookup destination reg in
      if is_some exists && not overwrite
      then ok (reg, count_conflict (destination ⧺ ": protected existing record") rep)
      else ok (insert destination (row_of provider m exists) reg, count_new rep)

module _ {N F : Type 0} (numbers : Numbers N F) (candidates : List (Candidate N))
    (tables : Tables) where
  -- `upstream_model.map(trim).filter(|s| !s.is_empty()).unwrap_or(destination)`
  abbrev catalog_id : Option String → String → String
  catalog_id none destination = destination
  catalog_id (some s) destination = if trim s == "" then destination else trim s

  abbrev pool_enabled : String → Bool
  pool_enabled pool_id = any (λ row. (row.id == pool_id) && row.enabled) tables.key_pool

  abbrev provider_rows : String → List ProviderRow
  provider_rows pool_id =
      map (λ row. (row.id, row.kind))
        (filter_by (λ row. (row.pool_id == pool_id) && row.enabled) tables.provider_config)

  abbrev plan_mapped : String → ProviderRow → Checked (MappedModel N F) → Plan N F
  plan_mapped destination provider (inl e) = broken (destination ⧺ (": " ⧺ e))
  plan_mapped destination provider (inr m) = fits provider m

  abbrev plan_local : String → Candidate N → Option ProviderRow → Plan N F
  plan_local destination source none =
      conflict (destination ⧺ ": provider association is not unambiguous")
  plan_local destination source (some (id, kind)) =
      plan_mapped destination (id, kind) (map_model numbers id source.value)

  abbrev plan_match : String → List ProviderRow → Option (Candidate N) → Plan N F
  plan_match destination rows none = skip (destination ⧺ ": no associated metadata")
  plan_match destination rows (some source) =
      plan_local destination source (pick_local_provider rows source.provider)

  -- What the loop does up to the look at the registry.
  unfoldable pub plan : Route → Plan N F
  unfolding pick_catalog_match pick_local_provider map_model
  plan route =
      let rows = provider_rows route.pool_id in
      if not (pool_enabled route.pool_id)
      then skip (route.logical_model ⧺ ": pool unavailable")
      else if is_empty rows
      then skip (route.logical_model ⧺ ": provider unavailable")
      else plan_match route.logical_model rows
          (pick_catalog_match candidates (catalog_id route.upstream_model route.logical_model) rows)

  unfoldable pub import_rows : Bool → List Route → State N F → Result (State N F)
  unfolding plan carry_out
  import_rows overwrite [] s = ok s
  import_rows overwrite (route ∷ routes) s =
      carry_out overwrite route.logical_model (plan route) s >>= λ s'.
      import_rows overwrite routes s'

abbrev pub no_counts : ImportReport
no_counts = record {
  counts = record { new_ = 0; skipped = 0; conflicts = 0; failed = 0 };
  reasons = [];
}

-- `SELECT … FROM routing_config WHERE enabled = 1`
abbrev pub enabled_routes : Tables → List Route
enabled_routes tables = filter_by (λ route. route.enabled) tables.routing_config

-- The commit, or the roll back.
abbrev pub settle :
    {N F : Type 0} → Registry N F → Result (State N F) → Registry N F × Result ImportReport
settle reg (ok (reg', rep)) = (reg', ok rep)
settle reg (err e) = (reg, err e)

-- The registry after the import, and its result.
unfoldable pub import_json :
    {N F : Type 0}
    → Numbers N F
    → Tables
    → Option (Value N)
    → Bool
    → Registry N F
    → Registry N F × Result ImportReport
unfolding read_catalog import_rows
import_json numbers tables root overwrite reg = settle reg (
    read_catalog root >>= λ candidates.
    import_rows numbers candidates tables overwrite (enabled_routes tables) (reg, no_counts))
