-- ===== src/ModelImport/Mapping.antt =====
-- src/model_import.rs: what is taken from a candidate's JSON. Of numbers the code takes what
-- `Numbers` lists; the text of the capabilities stands as the JSON that is printed.
pub mod Safe
use llm_proxy.Prelude.{
  String, ◌⊎◌, inl, inr, Bool, false, not, ◌||◌, Option, none, some, List, [], ◌∷◌, map,
  if◌then◌else◌, get_or, is_some, is_empty, any, ◌==◌, pair_eq, string_eq, nat_eq,
}
use llm_proxy.Prelude.Text.{trim, contains}
use llm_proxy.Json.{
  Value, null, boolean, number, string, array, object, Items, no_items, item, Fields, no_fields,
  field, get, put, cut, value_get, as_str, get_in, as_bool, as_object, as_array,
}
use llm_proxy.Config.Validate.{ℤ, is_positive}
use llm_proxy.ModelCatalog.{canonical_thinking_level}
use llm_proxy.ModelImport.Match.{norm}
use Prim.Native.String.{◌++◌}
use mathlib.Core.Option

-- `N` are JSON's numbers and `F` is `f64`; `as_i64` is `none` for no integer.
pub record Numbers (N F : Type 0) : Type 0 where
  pub as_i64 : N → Option ℤ
  pub as_f64 : N → Option F
  pub is_finite : F → Bool
  pub is_negative : F → Bool

-- `Result<A, String>`
abbrev pub Checked : Type 0 → Type 0
Checked A = String ⊎ A

infixl 5 ◌>>=◌
abbrev pub ◌>>=◌ : {A B : Type 0} → Checked A → (A → Checked B) → Checked B
inl e >>= f = inl e
inr a >>= f = f a

abbrev pub ok_or_text : {A : Type 0} → Option A → String → Checked A
ok_or_text none e = inl e
ok_or_text (some a) e = inr a

-- `.filter(|s| !s.trim().is_empty())`
abbrev pub unless_blank : Option String → Option String
unless_blank none = none
unless_blank (some s) = if trim s == "" then none else some s

pub record MappedModel (N F : Type 0) : Type 0 where
  pub name : String
  pub vision : Bool
  pub tools : Bool
  pub json_mode : Bool
  pub context : ℤ
  pub output : ℤ
  pub input_price : Option F
  pub output_price : Option F
  pub caps : Value N

abbrev sensitive_words : List String
sensitive_words = "key" ∷ "token" ∷ "secret" ∷ "password" ∷ "credential" ∷ "authorization" ∷ []

unfoldable pub sensitive : String → Bool
unfolding norm contains
sensitive k = let n = norm k in any (λ x. contains x n) sensitive_words

abbrev canonical_of : Option String → Option String
canonical_of none = none
canonical_of (some level) = canonical_thinking_level level

unfoldable mutual
  pub sanitize : {N : Type 0} → Value N → Value N
  sanitize null = null
  sanitize (boolean b) = boolean b
  sanitize (number n) = number n
  sanitize (string s) = string s
  sanitize (array xs) = array (sanitize_items xs)
  sanitize (object fs) = object (sanitize_fields fs)

  pub sanitize_items : {N : Type 0} → Items N → Items N
  sanitize_items no_items = no_items
  sanitize_items (item v xs) = item (sanitize v) (sanitize_items xs)

  pub sanitize_fields : {N : Type 0} → Fields N → Fields N
  sanitize_fields no_fields = no_fields
  sanitize_fields (field k v fs) =
      let rest = sanitize_fields fs in
      let kept = sanitize v in if not (sensitive k) then field k kept rest else rest

module _ {N : Type 0} where
  abbrev is_effort : Value N → Bool
  is_effort option = elim (as_str (value_get "type" option)) [
    | none ↦ false
    | some kind ↦ kind == "effort"
  ]

  abbrev find_effort : Items N → Option (Value N)
  find_effort no_items = none
  find_effort (item option options) = if is_effort option then some option else find_effort options

  abbrev put_value : Option String → Option String → Fields N → Fields N
  put_value none canonical map = map
  put_value (some level) none map = map
  put_value (some level) (some canonical) map = put canonical (string level) map

  -- The loop over the values.
  unfoldable pub put_values : Fields N → Items N → Fields N
  unfolding canonical_thinking_level
  put_values map no_items = map
  put_values map (item value values) =
      let level = unless_blank (as_str (some value)) in
      put_values (put_value level (canonical_of level) map) values

  abbrev none_if_empty : Fields N → Option (Fields N)
  none_if_empty no_fields = none
  none_if_empty (field k v fs) = some (field k v fs)

  -- The values of the first option of the type "effort".
  unfoldable pub effort_values : Value N → Option (Items N)
  unfolding value_get
  effort_values model =
      Option.bind (as_array (value_get "reasoning_options" model))
        λ options. Option.bind (find_effort options) λ effort. as_array (value_get "values" effort)

  abbrev levels_of : Option (Items N) → Option (Fields N)
  levels_of none = none
  levels_of (some values) = none_if_empty (put_values no_fields values)

  unfoldable pub thinking_level_map : Value N → Option (Fields N)
  unfolding put_values effort_values
  thinking_level_map model = levels_of (effort_values model)

  abbrev add_level_map : Option (Fields N) → Fields N → Fields N
  add_level_map none o = o
  add_level_map (some map) o = put "thinkingLevelMap" (object map) o

  abbrev trimmed_object : Fields N → Option (Fields N) → Fields N
  trimmed_object o levels = if is_some (get "thinkingLevelMap" o) then o else add_level_map levels o

  -- The metadata that is stored.
  unfoldable pub safe_metadata : Value N → Value N → Value N
  unfolding thinking_level_map cut
  safe_metadata (object o) model =
      object (trimmed_object (cut "name" (cut "id" o)) (thinking_level_map model))
  safe_metadata v model = v

  abbrev is_image : Value N → Bool
  is_image (string s) = s == "image"
  is_image v = false

  abbrev any_image : Items N → Bool
  any_image no_items = false
  any_image (item v xs) = is_image v || any_image xs

  abbrev has_image : Option (Items N) → Bool
  has_image none = false
  has_image (some input) = any_image input

  abbrev pub capabilities : String → Value N → Value N
  capabilities provider_id model = object (
      field "source_provider" (string provider_id) (
        field "reasoning" (get_or (value_get "reasoning" model) null)
          (field "metadata" (safe_metadata (sanitize model) model) no_fields)))

  module _ {F : Type 0} (numbers : Numbers N F) where
    abbrev integer_of : Option (Value N) → Option ℤ
    integer_of (some (number n)) = numbers.as_i64 n
    integer_of (some v) = none
    integer_of none = none

    abbrev if_positive : ℤ → String → Checked ℤ
    if_positive n name = if is_positive n then inr n else inl (name ++ " must be positive")

    unfoldable pub positive_i64 : Option (Value N) → String → Checked ℤ
    positive_i64 v name =
        ok_or_text (integer_of v) (name ++ " must be an integer") >>= λ n. if_positive n name

    abbrev float_of : Option (Value N) → Option F
    float_of (some (number n)) = numbers.as_f64 n
    float_of (some v) = none
    float_of none = none

    abbrev if_valid : F → String → Checked F
    if_valid n name =
        if not (numbers.is_finite n) || numbers.is_negative n
        then inl ("cost." ++ (name ++ " invalid"))
        else inr n

    unfoldable pub price : Value N → String → Checked F
    unfolding value_get
    price cost name =
        ok_or_text (float_of (value_get name cost)) ("cost." ++ (name ++ " must be a number"))
        >>= λ n. if_valid n name

    abbrev prices : Option (Value N) → Checked (Option F × Option F)
    prices none = inr (none, none)
    prices (some cost) =
        price cost "input" >>= λ ip. price cost "output" >>= λ op. inr (some ip, some op)

    unfoldable pub map_model : String → Value N → Checked (MappedModel N F)
    unfolding value_get positive_i64 price sanitize safe_metadata
    map_model provider_id model =
        ok_or_text (unless_blank (as_str (value_get "name" model))) "model name must be non-empty"
        >>= λ name.
            ok_or_text (as_object (value_get "limit" model)) "limit must be an object" >>= λ limit.
            positive_i64 (get "context" limit) "limit.context" >>= λ context.
            positive_i64 (get "output" limit) "limit.output" >>= λ output.
            prices (value_get "cost" model) >>= λ (ip, op). inr (record {
              name = name;
              vision = has_image (as_array (get_in "input" (value_get "modalities" model)));
              tools = get_or (as_bool (value_get "tool_call" model)) false;
              json_mode = get_or (as_bool (value_get "structured_output" model)) false;
              context = context;
              output = output;
              input_price = ip;
              output_price = op;
              caps = capabilities provider_id model;
            })
