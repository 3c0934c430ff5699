-- ===== src/Router/Examples.antt =====
-- A pool of two keys, with the identity in place of the hash and a sampler that draws the first.
use llm_proxy.Prelude.{
  ℕ, ◌+◌, ◌^◌, ◌≤◌, ◌<◌, String, ◌≡◌, refl, ◌⊎◌, true, false, none, some, List, [], ◌∷◌, arith,
  is_some, length, is_empty, All, pair_eq, string_eq, nat_eq,
}
use llm_proxy.Prelude.Assoc.{lookup}
use llm_proxy.Config.KeyEntry.{
  api_key, KeyEntry, PoolConfig, new_api_key, identity_secret, identity_hash,
}
use llm_proxy.BadKeyRegistry.{is_bad}
use llm_proxy.Router.{Sampler, is_selectable, healthy_key_count, try_demote}
use llm_proxy.Router.Demotion.{HasDistinctKeys, try_demote_lem}
use llm_proxy.Router.Selection.{sum, IsWeightedIndex}
use text.Mathlib.TextEquality.{eq_iff}

abbrev plain : String → String
plain s = s

abbrev first : Sampler
first [] = none
first (w ∷ ws) = some 0

first-IsWeightedIndex : IsWeightedIndex first
first-IsWeightedIndex = record { in_range = ranged; draws = drawn }
  where
    ranged : (ws : List ℕ) (i : ℕ) → first ws ≡ some i → i < length ws
    ranged [] i h = ground arith
    ranged (w ∷ ws) i h = ground arith

    drawn :
        (ws : List ℕ)
        → is_empty ws ≡ false
        → All (λ w. 0 < w) ws
        → sum ws < 2 ^ 32
        → is_some (first ws) ≡ true
    drawn [] e p l = cc
    drawn (w ∷ ws) e p l = refl

abbrev key_a : KeyEntry
key_a = record {
  key = "a";
  weight = 1;
  cred_type = api_key;
  refresh = none;
  expires = none;
  issuer = none;
  identity = some "a";
}

abbrev key_b : KeyEntry
key_b = record key_a { key = "b"; weight = 3; identity = some "b" }

abbrev two_keys : PoolConfig
two_keys = record { keys = key_a ∷ key_b ∷ [] }

abbrev twice : PoolConfig
twice = record { keys = key_a ∷ key_a ∷ [] }

same_key : new_api_key "a" 1 ≡ record key_a { identity = none }
unfolding new_api_key
same_key = refl

two_keys-HasDistinctKeys : HasDistinctKeys plain two_keys
unfolding identity_hash identity_secret
two_keys-HasDistinctKeys h = ground (arith, eq_iff "a" h, eq_iff "b" h, eq_iff "a" "b")

try_demote_lem_example :
    ((try_demote plain [] two_keys "p" key_a ≡ ([], false))
      × (healthy_key_count plain [] two_keys "p" ≤ 1))
    ⊎ (((try_demote plain [] two_keys "p" key_a).1 ≡ true)
        × (is_bad (try_demote plain [] two_keys "p" key_a).0 "p" (identity_hash plain key_a) ≡ true)
        × (healthy_key_count plain (try_demote plain [] two_keys "p" key_a).0 two_keys "p" + 1
            ≡ healthy_key_count plain [] two_keys "p"))
unfolding is_selectable is_bad lookup identity_hash
try_demote_lem_example =
    try_demote_lem plain [] two_keys "p" key_a 0 two_keys-HasDistinctKeys refl refl
