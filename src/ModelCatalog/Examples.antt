-- ===== src/ModelCatalog/Examples.antt =====
-- A model with three levels, and maps whose values are not all texts.
use llm_proxy.Prelude.{
  ℕ, String, ◌≡◌, refl, false, not, ◌&&◌, Option, some, [], ◌∷◌, is_empty, any, ◌==◌, pair_eq,
  string_eq, nat_eq,
}
use llm_proxy.AppError.{ok, is_ok}
use llm_proxy.Json.{Value, number, string, object, Fields, no_fields, field, get, put}
use llm_proxy.ModelCatalog.{
  canonical_thinking_level, level_map, find_level, translate_reasoning_effort, collect_levels,
  registry_thinking_level_map, reasoning_thinking_levels, advertised_levels,
}
use llm_proxy.ModelCatalog.Levels.{translate_reasoning_effort-is_ok}

abbrev levels : Fields ℕ
levels =
    field "none" (string "disabled")
      (field "high" (string "HIGH") (field "turbo" (string "x") no_fields))

abbrev caps_of : Fields ℕ → Option (Value ℕ)
caps_of map_ = some (
    object (field "metadata" (object (field "thinkingLevelMap" (object map_) no_fields)) no_fields))

abbrev asks : String → Fields ℕ
asks effort = field "reasoning_effort" (string effort) no_fields

advertised : reasoning_thinking_levels (caps_of levels) ≡ "off" ∷ "high" ∷ []
unfolding reasoning_thinking_levels registry_thinking_level_map level_map collect_levels
    canonical_thinking_level get put
advertised = refl

translated :
    translate_reasoning_effort "m" (caps_of levels) (object (asks "off"))
    ≡ ok (object (asks "disabled"))
unfolding translate_reasoning_effort level_map find_level canonical_thinking_level get put
translated = refl

passed_through :
    translate_reasoning_effort "m" (caps_of levels) (object (asks "turbo"))
    ≡ ok (object (asks "turbo"))
unfolding translate_reasoning_effort level_map find_level canonical_thinking_level get put
passed_through = refl

-- A level whose value is not a text is advertised, but refused when it is asked for.
advertised_refused :
    (reasoning_thinking_levels (caps_of (field "low" (number 1) no_fields)) ≡ "low" ∷ [])
    × (is_ok (
          translate_reasoning_effort "m"
            (caps_of (field "low" (number 1) no_fields))
            (object (asks "low")))
        ≡ false)
unfolding reasoning_thinking_levels registry_thinking_level_map level_map collect_levels
    canonical_thinking_level find_level translate_reasoning_effort get put
advertised_refused = (refl, refl)

-- A map without a canonical level: the configured levels are advertised and refused.
configured_refused :
    (advertised_levels ("low" ∷ []) (caps_of (field "turbo" (string "x") no_fields)) ≡ "low" ∷ [])
    × (is_ok (
          translate_reasoning_effort "m"
            (caps_of (field "turbo" (string "x") no_fields))
            (object (asks "low")))
        ≡ false)
unfolding reasoning_thinking_levels registry_thinking_level_map level_map collect_levels
    canonical_thinking_level find_level translate_reasoning_effort get put
configured_refused = (refl, refl)

translate_reasoning_effort-is_ok_example :
    is_ok (translate_reasoning_effort "m" (caps_of levels) (object (asks "none"))) ≡ (
      not (is_empty (reasoning_thinking_levels (caps_of levels)))
      && any (λ x. x == "off") (advertised_levels ("low" ∷ []) (caps_of levels)))
unfolding level_map canonical_thinking_level get
translate_reasoning_effort-is_ok_example =
    translate_reasoning_effort-is_ok "m" "none" "off" (caps_of levels) (asks "none") levels
      ("low" ∷ []) refl refl refl refl
