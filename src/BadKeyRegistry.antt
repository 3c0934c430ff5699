-- ===== src/BadKeyRegistry.antt =====
-- src/router.rs: the registry of excluded upstream keys (`BadKeyRegistry`).
pub mod Laws
mod Examples
use llm_proxy.Prelude.{
  ℕ, String, Bool, false, not, Option, none, some, List, [], ◌∷◌, ◌++◌, map, leb, if◌then◌else◌,
  get_or, length, is_empty, filter_by, any, ◌==◌, pair_eq, string_eq, nat_eq,
}
use llm_proxy.Prelude.Assoc.{Map, lookup, insert, remove}

abbrev pub BadKeyRegistry : Type 0
BadKeyRegistry = Map String (List String)

unfoldable pub mark_bad : BadKeyRegistry → String → String → BadKeyRegistry
mark_bad bad pool_id key_hash = insert pool_id (get_or (lookup pool_id bad) [] ++ key_hash ∷ []) bad

abbrev contains : String → Option (List String) → Bool
contains key_hash none = false
contains key_hash (some list) = any (λ k. k == key_hash) list

unfoldable pub is_bad : BadKeyRegistry → String → String → Bool
is_bad bad pool_id key_hash = contains key_hash (lookup pool_id bad)

abbrev reaches : ℕ → Option (List String) → Bool
reaches total_keys none = false
reaches total_keys (some list) = leb total_keys (length list)

unfoldable pub all_bad : BadKeyRegistry → String → ℕ → Bool
all_bad bad pool_id total_keys = reaches total_keys (lookup pool_id bad)

unfoldable pub snapshot : BadKeyRegistry → List (String × String)
snapshot [] = []
snapshot ((pool, keys) ∷ bad) = map (λ kh. (pool, kh)) keys ++ snapshot bad

-- `list.retain(|k| k != key_hash)`, and the pool's entry goes with its last key.
abbrev retained : String → List String → List String
retained key_hash = filter_by (λ k. not (k == key_hash))

abbrev remove_found : BadKeyRegistry → String → String → Option (List String) → BadKeyRegistry
remove_found bad pool_id key_hash none = bad
remove_found bad pool_id key_hash (some list) =
    if is_empty (retained key_hash list)
    then remove pool_id bad
    else insert pool_id (retained key_hash list) bad

unfoldable pub remove_bad : BadKeyRegistry → String → String → BadKeyRegistry
remove_bad bad pool_id key_hash = remove_found bad pool_id key_hash (lookup pool_id bad)
