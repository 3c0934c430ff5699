-- ===== src/ModelCatalog.antt =====
-- src/model_catalog.rs: the thinking levels of a model, as they are advertised and as a request's
-- `reasoning_effort` is translated. The parsed `capabilities_json` of the model's registry entry is
-- an argument; the entry was found and is enabled.
pub mod Levels
mod Examples
use llm_proxy.Prelude.{
  max, String, Bool, false, not, Option, none, some, List, [], ◌∷◌, if◌then◌else◌, is_some,
  is_empty, filter_by, find, ◌==◌, pair_eq, string_eq, nat_eq,
}
use llm_proxy.AppError.{AppError, bad_request, Result, ok, err}
use llm_proxy.Json.{Value, null, string, object, Fields, no_fields, field, get, put, as_object}
use Prim.Native.String.{◌++◌}

abbrev pub thinking_level_order : List String
thinking_level_order = "off" ∷ "minimal" ∷ "low" ∷ "medium" ∷ "high" ∷ "xhigh" ∷ "max" ∷ []

unfoldable pub canonical_thinking_level : String → Option String
canonical_thinking_level level =
    if level == "none"
    then some "off"
    else find (λ canonical. canonical == level) thinking_level_order

-- `canonical_thinking_level(key) == Some(requested)`
abbrev is_level : String → Option String → Bool
is_level requested none = false
is_level requested (some canonical) = canonical == requested

abbrev unsupported : String → String → AppError
unsupported id effort =
    bad_request ("model '" ++ (id ++ ("' does not support reasoning_effort='" ++ (effort ++ "'"))))

module _ {N : Type 0} where
  abbrev field_of : String → Option (Fields N) → Option (Value N)
  field_of name none = none
  field_of name (some fs) = get name fs

  -- `pointer("/metadata/thinkingLevelMap")`, an object.
  unfoldable pub level_map : Option (Value N) → Option (Fields N)
  level_map caps =
      as_object (field_of "thinkingLevelMap" (as_object (field_of "metadata" (as_object caps))))

  unfoldable pub find_level : String → Fields N → Option (Value N)
  find_level requested no_fields = none
  find_level requested (field key value fs) =
      if is_level requested (canonical_thinking_level key)
      then some value
      else find_level requested fs

  abbrev set_effort : String → String → Fields N → Option (Value N) → Result (Value N)
  set_effort id effort extra (some (string upstream_level)) =
      ok (object (put "reasoning_effort" (string upstream_level) extra))
  set_effort id effort extra (some v) = err (unsupported id effort)
  set_effort id effort extra none = err (unsupported id effort)

  -- A level that is not canonical is passed through.
  abbrev with_level : String → String → Fields N → Fields N → Option String → Result (Value N)
  with_level id effort extra levels none = ok (object extra)
  with_level id effort extra levels (some requested) =
      set_effort id effort extra (find_level requested levels)

  abbrev with_map : String → String → Fields N → Option (Fields N) → Result (Value N)
  with_map id effort extra none = ok (object extra)
  with_map id effort extra (some levels) =
      with_level id effort extra levels (canonical_thinking_level effort)

  abbrev with_effort : String → Option (Value N) → Fields N → Option (Value N) → Result (Value N)
  with_effort id caps extra (some (string effort)) = with_map id effort extra (level_map caps)
  with_effort id caps extra (some v) = ok (object extra)
  with_effort id caps extra none = ok (object extra)

  -- The request's extra fields, translated; on an error they stay as they were.
  unfoldable pub translate_reasoning_effort : String → Option (Value N) → Value N → Result (Value N)
  unfolding level_map find_level
  translate_reasoning_effort id caps (object extra) =
      with_effort id caps extra (get "reasoning_effort" extra)
  translate_reasoning_effort id caps v = ok v

  abbrev put_level : Fields N → Option String → Value N → Fields N
  put_level out none value = out
  put_level out (some canonical) value = put canonical value out

  abbrev add_level : Fields N → String → Value N → Fields N
  add_level out key null = out
  add_level out key value = put_level out (canonical_thinking_level key) value

  unfoldable pub collect_levels : Fields N → Fields N → Fields N
  collect_levels out no_fields = out
  collect_levels out (field key value fs) = collect_levels (add_level out key value) fs

  abbrev unless_empty : Fields N → Option (Fields N)
  unless_empty no_fields = none
  unless_empty (field k v fs) = some (field k v fs)

  abbrev registry_levels : Option (Fields N) → Option (Fields N)
  registry_levels none = none
  registry_levels (some levels) = unless_empty (collect_levels no_fields levels)

  unfoldable pub registry_thinking_level_map : Option (Value N) → Option (Fields N)
  unfolding level_map collect_levels
  registry_thinking_level_map caps = registry_levels (level_map caps)

  abbrev levels_in : Option (Fields N) → List String
  levels_in none = []
  levels_in (some m) = filter_by (λ level. is_some (get level m)) thinking_level_order

  unfoldable pub reasoning_thinking_levels : Option (Value N) → List String
  unfolding registry_thinking_level_map
  reasoning_thinking_levels caps = levels_in (registry_thinking_level_map caps)

  -- What the metadata lists for a model of the registry: its own levels, or else the configured
  -- ones.
  abbrev pub advertised_levels : List String → Option (Value N) → List String
  advertised_levels configured caps =
      let registry = reasoning_thinking_levels caps in
      if is_empty registry then configured else registry
