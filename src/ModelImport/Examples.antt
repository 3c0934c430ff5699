-- ===== src/ModelImport/Examples.antt =====
-- Tests of the import, and its theorems at concrete inputs.
use llm_proxy.Prelude.{
  ℕ, String, ◌≡◌, refl, sym, ◌∙◌, ◌≢◌, ◌⊎◌, inl, inr, true, false, ◌&&◌, Option, none, some, List,
  [], ◌∷◌, arith, if◌then◌else◌, any, ◌==◌, pair_eq, string_eq, nat_eq,
}
use llm_proxy.Prelude.Assoc.{lookup, insert}
use llm_proxy.AppError.{ok, is_ok}
use llm_proxy.Json.{
  Value, null, number, string, array, object, no_items, item, Fields, no_fields, field, get, put,
  cut, value_get,
}
use llm_proxy.ModelCatalog.{canonical_thinking_level}
use llm_proxy.Config.Validate.{pos}
use llm_proxy.ModelImport.Match.{
  Candidate, ProviderRow, norm, model_id_matches, pick_catalog_match, pick_local_provider,
}
use llm_proxy.ModelImport.Match.Best.{
  IsIn, Matches, rank, pick_catalog_match-best, pick_catalog_match-order,
}
use llm_proxy.ModelImport.Mapping.{
  Numbers, MappedModel, sensitive, sanitize, thinking_level_map, capabilities, map_model,
}
use llm_proxy.ModelImport.Mapping.Safe.{is_clean, map_model-clean}
use llm_proxy.ModelImport.{
  ImportReport, RegistryRow, Registry, Tables, read_catalog, carry_out, plan, import_rows,
  enabled_routes, import_json,
}
use llm_proxy.ModelImport.Outcome.{import_json-keeps}
use mathlib.Core.Option
use text.Mathlib.TextEquality.{eq_iff}
use Prim.Native.Nat.{Ordering}

abbrev plain_numbers : Numbers ℕ ℕ
plain_numbers = record {
  as_i64 = λ n. some (pos n);
  as_f64 = λ n. some n;
  is_finite = λ n. true;
  is_negative = λ n. false;
}

abbrev efforts : Value ℕ
efforts = object (
    field "type" (string "effort")
      (field "values" (array (item (string "none") (item (string "high") no_items))) no_fields))

abbrev catalog_fields : Fields ℕ
catalog_fields = field "name" (string "GPT-4o") (
    field "limit" (object (field "context" (number 128) (field "output" (number 16) no_fields))) (
      field "apiKey" (string "secret")
        (field "reasoning_options" (array (item efforts no_items)) no_fields)))

abbrev catalog : Option (Value ℕ)
catalog = some (
    object (
      field "openai"
        (object
          (field "models" (object (field "gpt-4o" (object catalog_fields) no_fields)) no_fields))
        no_fields))

abbrev some_tables : Tables
some_tables = record {
  routing_config =
      record { logical_model = "gpt-4o"; pool_id = "p"; upstream_model = none; enabled = true }
      ∷ record { logical_model = "other"; pool_id = "q"; upstream_model = none; enabled = true }
      ∷ [];
  key_pool = record { id = "p"; enabled = true } ∷ [];
  provider_config = record { id = "main"; kind = "openai"; pool_id = "p"; enabled = true } ∷ [];
}

abbrev no_rows : Registry ℕ ℕ
no_rows = []

abbrev report : ImportReport
report = record {
  counts = record { new_ = 1; skipped = 1; conflicts = 0; failed = 0 };
  reasons = "other: pool unavailable" ∷ [];
}

normed : norm "Azure_Open-AI" ≡ "azureopenai"
unfolding norm
normed = refl

matched : model_id_matches "grok-4.5_oa" "grok-4.5" ≡ true
unfolding model_id_matches
matched = refl

secret_removed : sanitize (object catalog_fields) ≡ object (cut "apiKey" catalog_fields)
unfolding sanitize sensitive cut
secret_removed = refl

levels_built :
    thinking_level_map (object catalog_fields)
    ≡ some (field "off" (string "none") (field "high" (string "high") no_fields))
unfolding thinking_level_map canonical_thinking_level value_get get put Option.bind
levels_built = refl

imported : (import_json plain_numbers some_tables catalog false no_rows).1 ≡ ok report
unfolding import_json read_catalog import_rows plan carry_out pick_catalog_match pick_local_provider
    map_model value_get get put cut lookup insert sensitive sanitize canonical_thinking_level
imported = refl

abbrev candidate : String → Value ℕ → Candidate ℕ
candidate provider value = record { id = "gpt-4o"; provider = provider; value = value }

abbrev two : List (Candidate ℕ)
two = candidate "azure" null ∷ candidate "openai" null ∷ []

abbrev two_back : List (Candidate ℕ)
two_back = candidate "openai" null ∷ candidate "azure" null ∷ []

abbrev local_rows : List ProviderRow
local_rows = ("main", "openai") ∷ []

picked : pick_catalog_match two "gpt-4o" local_rows ≡ some (candidate "openai" null)
unfolding pick_catalog_match
picked = refl

pick_catalog_match-best_example :
    IsIn (candidate "openai" null) two
    × Matches "gpt-4o" local_rows (candidate "openai" null)
    × (rank "gpt-4o" local_rows (candidate "openai" null) (candidate "azure" null) ≢ Ordering.gt)
unfolding model_id_matches
pick_catalog_match-best_example =
    pick_catalog_match-best "gpt-4o" local_rows two (candidate "openai" null)
      (candidate "azure" null) picked (inl refl) refl

flipped : (x y c : Candidate ℕ) → IsIn c (x ∷ y ∷ []) → IsIn c (y ∷ x ∷ [])
flipped x y c (inl e) = inr (inl e)
flipped x y c (inr (inl e)) = inl e
flipped x y c (inr (inr e)) = absurd e

two_distinct :
    (c d : Candidate ℕ) → IsIn c two → IsIn d two → c.provider ≡ d.provider → c.id ≡ d.id → c ≡ d
two_distinct c d (inl e) (inl f) p i = e ∙ sym f
two_distinct c d (inl e) (inr (inl f)) p i =
    absurd (ground (arith, eq_iff "azure" "openai", e, f, p))
two_distinct c d (inl e) (inr (inr f)) p i = absurd f
two_distinct c d (inr (inl e)) (inl f) p i =
    absurd (ground (arith, eq_iff "azure" "openai", e, f, p))
two_distinct c d (inr (inl e)) (inr (inl f)) p i = e ∙ sym f
two_distinct c d (inr (inl e)) (inr (inr f)) p i = absurd f
two_distinct c d (inr (inr e)) f p i = absurd e

pick_catalog_match-order_example :
    pick_catalog_match two "gpt-4o" local_rows ≡ pick_catalog_match two_back "gpt-4o" local_rows
pick_catalog_match-order_example =
    pick_catalog_match-order "gpt-4o" local_rows two two_back
      (flipped (candidate "azure" null) (candidate "openai" null))
      (flipped (candidate "openai" null) (candidate "azure" null)) two_distinct

abbrev mapped : MappedModel ℕ ℕ
mapped = record {
  name = "GPT-4o";
  vision = false;
  tools = false;
  json_mode = false;
  context = pos 128;
  output = pos 16;
  input_price = none;
  output_price = none;
  caps = capabilities "main" (object catalog_fields);
}

map_model-clean_example :
    (fs : Fields ℕ) × (value_get "metadata" mapped.caps ≡ some (object fs))
    × (is_clean (object fs) ≡ true)
    × (get "apiKey" fs
        ≡ (if sensitive "apiKey" then none else Option.map sanitize (get "apiKey" catalog_fields)))
unfolding map_model value_get get
map_model-clean_example =
    map_model-clean plain_numbers "main" catalog_fields mapped "apiKey" refl (refl, refl, refl)

abbrev held : Registry ℕ ℕ
held =
    (
      "gpt-4o",
      record {
        model = mapped;
        provider_kind = "azure";
        provider_config_id = "old";
        enabled = false;
      },
    )
    ∷ []

abbrev old_row : RegistryRow ℕ ℕ
old_row = record {
  model = mapped;
  provider_kind = "azure";
  provider_config_id = "old";
  enabled = false;
}

import_json-keeps_example :
    ((r' : RegistryRow ℕ ℕ) × (lookup "gpt-4o"
          (import_json plain_numbers some_tables catalog true held).0
        ≡ some r')
      × (r'.enabled ≡ false)
      × (((true && any (λ route. route.logical_model == "gpt-4o") (enabled_routes some_tables))
            ≡ true)
          ⊎ (r' ≡ old_row)))
    × ((is_ok (import_json plain_numbers some_tables catalog true held).1 ≡ true)
        ⊎ ((import_json plain_numbers some_tables catalog true held).0 ≡ held))
import_json-keeps_example =
    import_json-keeps plain_numbers some_tables catalog true held "gpt-4o" old_row
      (unfold lookup in refl)
