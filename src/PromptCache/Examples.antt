-- ===== src/PromptCache/Examples.antt =====
-- A cache of two entries; a request is its own key.
use llm_proxy.Prelude.{
  ℕ, ◌-◌, String, ◌≡◌, refl, false, none, some, List, [], ◌∷◌, map, leb, if◌then◌else◌, ◌==◌,
  pair_eq, string_eq, nat_eq,
}
use llm_proxy.Prelude.Assoc.{insert, remove}
use llm_proxy.PromptCache.{PromptCache, evict_oldest_if_needed, prune, get, put}
use llm_proxy.PromptCache.Bounds.{Call, gets, puts, prunes}
use llm_proxy.PromptCache.Freshness.{get-put}

abbrev plain : String → String
plain s = s

abbrev two : PromptCache ℕ
two = record {
  inner =
      ("a", record { response = 1; created_at = 5 })
      ∷ ("b", record { response = 2; created_at = 3 })
      ∷ [];
  max_entries = 2;
  ttl = 100;
  system_prompt_shard = false;
}

third_evicts : map (λ p. p.0) (put plain two 9 "c" 3).inner ≡ "a" ∷ "c" ∷ []
unfolding put evict_oldest_if_needed insert remove
third_evicts = refl

pruned : (prune two 104).1 ≡ 1
unfolding prune remove
pruned = refl

abbrev calls : List (Call ℕ String)
calls = puts 1 "a" 1 ∷ puts 2 "b" 2 ∷ gets 3 "a" ∷ prunes 4 ∷ []

abbrev key_a : String
key_a = "a"

get-put_example : (get plain (put plain two 9 key_a 7) 20 "b").1 ≡ (
    if key_a == "b"
    then if leb (20 - 9) 100 then some 7 else none
    else (get plain (evict_oldest_if_needed two) 20 "b").1)
get-put_example = get-put plain two 9 20 key_a "b" 7
