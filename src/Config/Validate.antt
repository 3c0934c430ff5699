-- ===== src/Config/Validate.antt =====
-- src/config/mod.rs, `Config::validate`. `J` is `serde_json::Value`, `F` is `f64`; the messages are
-- `format!`ed with the position of a key, which `to_string` prints.
pub mod Sound
mod Examples
use llm_proxy.Prelude.{
  ℕ, ◌+◌, String, Bool, true, false, not, ◌&&◌, ◌||◌, Option, none, some, List, [], ◌∷◌, ltb,
  if◌then◌else◌, is_some, any, ◌==◌, pair_eq, string_eq, nat_eq,
}
use llm_proxy.Prelude.Assoc.{Map, lookup}
use llm_proxy.Prelude.Text.{trim}
use llm_proxy.AppError.{AppError, config}
use llm_proxy.Config.KeyEntry.{oauth, KeyEntry, PoolConfig, is_oauth, nonempty}
use llm_proxy.Config.Routing.{ModelRouting}
use Prim.Native.String.{◌++◌}
use llm_proxy.Config.Routing

-- The two `i32` limits of a registry entry may be negative.
pub data ℤ : Type 0 where
  pos negsuc : ℕ → ℤ

abbrev pub is_positive : ℤ → Bool
is_positive (pos n) = ltb 0 n
is_positive (negsuc n) = false

pub record ProviderConfig : Type 0 where
  pub id : String
  pub pool_id : String

pub record ModelRegistryConfig (J F : Type 0) : Type 0 where
  pub id : String
  pub display_name : String
  pub provider_kind : String
  pub provider_config_id : Option String
  pub max_context_tokens : ℤ
  pub max_output_tokens : ℤ
  pub input_price_per_1m : Option F
  pub output_price_per_1m : Option F
  pub capabilities_json : J

pub record Config (J F : Type 0) : Type 0 where
  pub model_to_pool : Map String (ModelRouting J)
  pub providers : List ProviderConfig
  pub pools : Map String PoolConfig
  pub model_registry : List (ModelRegistryConfig J F)

-- The result of a check.
abbrev pub Checked : Type 0
Checked = Option String

abbrev and_then : Checked → Checked → Checked
and_then none next = next
and_then (some msg) next = some msg

abbrev pub refuse_if : Bool → String → Checked
refuse_if true msg = some msg
refuse_if false msg = none

abbrev check_all {ℓ} : {A : Type ℓ} → (A → Checked) → List A → Checked
check_all f [] = none
check_all f (x ∷ xs) = and_then (f x) (check_all f xs)

abbrev pub is_blank : String → Bool
is_blank s = trim s == ""

abbrev checked : Checked → Option AppError
checked none = none
checked (some msg) = some (config msg)

module _ {J F : Type 0} (to_string : ℕ → String) (is_null is_object : J → Bool)
    (is_finite is_negative : F → Bool) (c : Config J F) where
  abbrev pub has_pool : String → Bool
  has_pool p = is_some (lookup p c.pools)

  abbrev check_route : String × ModelRouting J → Checked
  check_route (model, routing) = refuse_if (not (has_pool (Routing.pool_id routing))) (
      "Model '"
      ++ model
      ++ "' references pool '"
      ++ Routing.pool_id routing
      ++ "' which does not exist")

  abbrev check_provider : ProviderConfig → Checked
  check_provider p =
      refuse_if (not (has_pool p.pool_id))
        ("Provider '" ++ p.id ++ "' references pool '" ++ p.pool_id ++ "' which does not exist")

  abbrev key_name : String → ℕ → String
  key_name pool i = "Pool '" ++ pool ++ "' key " ++ to_string i

  abbrev check_key : String → ℕ → KeyEntry → Checked
  check_key pool i key =
      if is_oauth key
      then and_then
          (refuse_if (not (is_some (nonempty key.refresh)))
            (key_name pool i ++ " oauth credential is missing refresh"))
          (refuse_if (not (is_some (nonempty key.issuer)))
            (key_name pool i ++ " oauth credential is missing issuer"))
      else refuse_if (key.key == "") (key_name pool i ++ " has empty key")

  abbrev check_keys : String → ℕ → List KeyEntry → Checked
  check_keys pool i [] = none
  check_keys pool i (k ∷ ks) = and_then (check_key pool i k) (check_keys pool (i + 1) ks)

  abbrev check_pool : String × PoolConfig → Checked
  check_pool (pool, p) = check_keys pool 0 p.keys

  abbrev bad_price : Option F → Bool
  bad_price none = false
  bad_price (some x) = not (is_finite x) || is_negative x

  abbrev entry_name : ModelRegistryConfig J F → String
  entry_name e = "model_registry entry '" ++ e.id ++ "'"

  abbrev check_provider_id : ModelRegistryConfig J F → Option String → Checked
  check_provider_id e none = none
  check_provider_id e (some provider_id) =
      and_then
        (refuse_if (is_blank provider_id) (entry_name e ++ " provider_config_id cannot be empty"))
        (refuse_if (not (any (λ p. p.id == provider_id) c.providers))
          (entry_name e ++ " references unknown provider '" ++ provider_id ++ "'"))

  abbrev check_entry : List String → ModelRegistryConfig J F → Checked
  check_entry seen e =
      and_then (refuse_if (is_blank e.id) "model_registry entry id must be non-empty") (
        and_then
          (refuse_if (is_blank e.display_name) (entry_name e ++ " display_name must be non-empty"))
          (and_then
            (refuse_if (is_blank e.provider_kind)
              (entry_name e ++ " provider_kind must be non-empty"))
            (and_then
              (refuse_if
                (not (is_positive e.max_context_tokens) || not (is_positive e.max_output_tokens))
                (entry_name e ++ " token limits must be positive"))
              (and_then
                (refuse_if (bad_price e.input_price_per_1m || bad_price e.output_price_per_1m)
                  (entry_name e ++ " prices must be finite and non-negative"))
                (and_then
                  (refuse_if
                    (not (is_null e.capabilities_json) && not (is_object e.capabilities_json))
                    (entry_name e ++ " capabilities_json must be an object"))
                  (and_then (check_provider_id e e.provider_config_id) (
                    refuse_if (any (λ s. s == e.id) seen)
                      ("duplicate model_registry id '" ++ e.id ++ "'"))))))))

  abbrev check_registry : List String → List (ModelRegistryConfig J F) → Checked
  check_registry seen [] = none
  check_registry seen (e ∷ es) = and_then (check_entry seen e) (check_registry (e.id ∷ seen) es)

  -- `none` is `Ok(())`; otherwise the first violation, as a `Config` error.
  unfoldable pub validate : Option AppError
  validate = checked (
      and_then (check_all check_route c.model_to_pool) (
        and_then (check_all check_provider c.providers)
          (and_then (check_all check_pool c.pools) (check_registry [] c.model_registry))))
