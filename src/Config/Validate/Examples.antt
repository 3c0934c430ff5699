-- ===== src/Config/Validate/Examples.antt =====
-- A small configuration, accepted, and the same with a model that routes nowhere. A JSON value is a
-- Boolean here (an object or null), a price a number.
use llm_proxy.Prelude.{
  ℕ, String, ◌≡◌, refl, Bool, true, false, not, Option, some, [], ◌∷◌, pair_eq, string_eq, nat_eq,
}
use llm_proxy.Prelude.Assoc.{lookup}
use llm_proxy.AppError.{AppError, config}
use llm_proxy.Config.KeyEntry.{PoolConfig, new_api_key}
use llm_proxy.Config.Routing.{upstream_model}
use llm_proxy.Config.Validate.{Config, is_blank, validate}
use llm_proxy.Config.Validate.Sound.{IsValid, validate-IsValid}
use llm_proxy.Config.Routing.{simple, with_params}

abbrev digits : ℕ → String
digits n = "1"

abbrev one_key : PoolConfig
one_key = record { keys = new_api_key "sk" 1 ∷ [] }

abbrev small : Config Bool ℕ
small = record {
  model_to_pool = ("m", simple "p") ∷ [];
  providers = record { id = "openai"; pool_id = "p" } ∷ [];
  pools = ("p", one_key) ∷ [];
  model_registry = [];
}

abbrev lost : Config Bool ℕ
lost = record small { model_to_pool = ("m", simple "q") ∷ [] }

abbrev accepts : Config Bool ℕ → Option AppError
accepts c = validate digits not (λ j. j) (λ x. true) (λ x. false) c

lost_refused : accepts lost ≡ some (config "Model 'm' references pool 'q' which does not exist")
unfolding validate lookup
lost_refused = refl

blank : is_blank " \n" ≡ true
blank = refl

trimmed_name : upstream_model {J = Bool} (with_params "p" true (some " gpt ")) ≡ some "gpt"
trimmed_name = refl

validate-IsValid_example : IsValid digits not (λ j. j) (λ x. true) (λ x. false) small
unfolding validate lookup new_api_key
validate-IsValid_example = validate-IsValid digits not (λ j. j) (λ x. true) (λ x. false) small refl
