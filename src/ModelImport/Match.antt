-- ===== src/ModelImport/Match.antt =====
-- src/model_import.rs: which candidate of the catalog fits a model, and which local provider fits
-- the candidate.
pub mod Best
use llm_proxy.Prelude.{
  ℕ, ◌+◌, ◌/◌, min, String, Bool, true, false, not, ◌||◌, Option, none, some, List, [], ◌∷◌, map,
  nat_beq, if◌then◌else◌, is_some, length, filter_by, any, ◌==◌, pair_eq, string_eq, nat_eq,
}
use llm_proxy.Prelude.Text.{contains, ends_with, to_ascii_lowercase, drop_chars}
use llm_proxy.Prelude.Compare.{then_with, compare_bool, compare_text}
use llm_proxy.Json.{Value, object, get}
use Prim.Native.Nat.{Ordering, compare}
use Prim.Native.Char.{Char, code}
use Prim.Native.String.{◌++◌, len}
use mathlib.Core.Option

pub record Candidate (N : Type 0) : Type 0 where
  pub id : String
  pub provider : String
  pub value : Value N

-- The rows of `provider_config` that are read: id and kind.
abbrev pub ProviderRow : Type 0
ProviderRow = String × String

abbrev is_separator : Char → Bool
is_separator c = nat_beq (code c) b'-' || nat_beq (code c) b'_' || nat_beq (code c) b' '

unfoldable pub norm : String → String
unfolding to_ascii_lowercase drop_chars
norm s = drop_chars is_separator (to_ascii_lowercase s)

unfoldable pub model_id_matches : String → String → Bool
unfolding ends_with contains
model_id_matches destination catalog_id =
    destination == catalog_id
    || ends_with ("/" ++ catalog_id) destination
    || ends_with ("/" ++ destination) catalog_id
    || contains catalog_id destination

abbrev kind_pairs : List (String × String)
kind_pairs =
    ("xai", "openai")
    ∷ ("xai", "azure")
    ∷ ("deepseek", "openai")
    ∷ ("google", "gemini")
    ∷ ("openai", "azure")
    ∷ ("azureopenai", "azure")
    ∷ ("azureopenai", "openai")
    ∷ ("zai", "openai")
    ∷ ("zhipuai", "openai")
    ∷ ("zhipu", "openai")
    ∷ []

unfoldable pub compatible_provider : String → String → String → Bool
unfolding norm
compatible_provider source configured_id configured_kind =
    let s = norm source in
    let kind = norm configured_kind in
    if s == norm configured_id || s == kind then true else any (λ p. p == (s, kind)) kind_pairs

abbrev rank_of : String → ℕ
rank_of provider =
    if any (λ p. p == provider)
      ("openai" ∷ "anthropic" ∷ "google" ∷ "xai" ∷ "deepseek" ∷ "mistral" ∷ [])
    then 15
    else if provider == "zai"
    then 14
    else if provider == "zhipuai"
    then 13
    else if provider == "zhipu"
    then 12
    else if provider == "groq"
    then 11
    else 0

unfoldable pub canonical_catalog_rank : String → ℕ
unfolding norm
canonical_catalog_rank provider = rank_of (norm provider)

unfoldable pub id_score : String → String → ℕ
unfolding ends_with contains
id_score destination id =
    if id == destination
    then 100
    else if ends_with ("/" ++ id) destination || ends_with ("/" ++ destination) id
    then 80
    else if contains id destination
    then 40 + min (len id) 20
    else 0

-- `value.get("cost").is_some()`: of a value that is no object, `get` is `None`.
abbrev pub has_cost : {N : Type 0} → Value N → Bool
has_cost (object fs) = is_some (get "cost" fs)
has_cost v = false

module _ {N : Type 0} where
  unfoldable pub catalog_score : String → Candidate N → List ProviderRow → ℕ
  unfolding id_score compatible_provider canonical_catalog_rank
  catalog_score destination candidate provider_rows =
      id_score destination candidate.id
      + (if any (λ row. compatible_provider candidate.provider row.0 row.1) provider_rows
          then 20
          else 0)
      + canonical_catalog_rank candidate.provider

  unfoldable pub tie_break : Candidate N → Candidate N → Ordering
  unfolding compare_text
  tie_break a b =
      then_with (compare_bool (has_cost b.value) (has_cost a.value))
        (then_with (compare_text a.provider b.provider) (compare_text a.id b.id))

  abbrev keep_best : Candidate N → ℕ → Option (Candidate N × ℕ) → Option (Candidate N × ℕ)
  keep_best candidate score none = some (candidate, score)
  keep_best candidate score (some (best_candidate, best_score)) = elim (compare score best_score) [
    | Ordering.gt ↦ some (candidate, score)
    | Ordering.lt ↦ some (best_candidate, best_score)
    | Ordering.eq ↦ elim (tie_break candidate best_candidate) [
      | Ordering.lt ↦ some (candidate, score)
      | _ ↦ some (best_candidate, best_score)
    ]
  ]

  -- The loop over the candidates.
  unfoldable pub best_match :
      String
      → List ProviderRow
      → Option (Candidate N × ℕ)
      → List (Candidate N)
      → Option (Candidate N × ℕ)
  best_match destination provider_rows best [] = best
  best_match destination provider_rows best (candidate ∷ candidates) =
      best_match destination provider_rows
        (if not (model_id_matches destination candidate.id)
          then best
          else keep_best candidate (catalog_score destination candidate provider_rows) best)
        candidates

  unfoldable pub pick_catalog_match :
      List (Candidate N) → String → List ProviderRow → Option (Candidate N)
  unfolding best_match model_id_matches catalog_score tie_break
  pick_catalog_match candidates destination provider_rows =
      Option.map (λ p. p.0) (best_match destination provider_rows none candidates)

abbrev only : List ProviderRow → Option ProviderRow
only (row ∷ []) = some row
only rows = none

unfoldable pub pick_local_provider : List ProviderRow → String → Option ProviderRow
unfolding compatible_provider
pick_local_provider provider_rows catalog_provider =
    if nat_beq (length provider_rows) 1
    then only provider_rows
    else only (filter_by (λ row. compatible_provider catalog_provider row.0 row.1) provider_rows)
