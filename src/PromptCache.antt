-- ===== src/PromptCache.antt =====
-- src/cache/mod.rs: the prompt cache. `DashMap::insert` replaces the entry of a key, `len` counts
-- the entries. `A` is the cached response, `Q` the request, and its key (Key) a parameter; clocks
-- (`Instant`) are in nanoseconds and `elapsed` saturates at 0, as `-` on ℕ does.
pub mod Eviction
pub mod Bounds
pub mod Freshness
pub mod Backend
pub mod Key
mod Examples
use llm_proxy.Prelude.{
  ℕ, ◌-◌, ◌*◌, String, Bool, false, Option, none, some, List, [], ◌∷◌, map, ltb, if◌then◌else◌,
  length, filter_by, ◌==◌, pair_eq, string_eq, nat_eq,
}
use llm_proxy.Prelude.Assoc.{Map, lookup, insert, remove}

pub record CacheEntry (A : Type 0) : Type 0 where
  pub response : A
  pub created_at : ℕ

pub record PromptCache (A : Type 0) : Type 0 where
  pub inner : Map String (CacheEntry A)
  pub max_entries : ℕ
  pub ttl : ℕ
  pub system_prompt_shard : Bool

abbrev secs : ℕ → ℕ
secs n = n * 1_000_000_000

module _ {A : Type 0} where
  unfoldable pub new : ℕ → PromptCache A
  new max_entries = record {
    inner = [];
    max_entries = if max_entries == 0 then 256 else max_entries;
    ttl = secs 300;
    system_prompt_shard = false;
  }

  abbrev pub with_ttl : PromptCache A → ℕ → PromptCache A
  with_ttl c ttl_secs = record c { ttl = secs ttl_secs }

  abbrev pub with_system_prompt_shard : PromptCache A → Bool → PromptCache A
  with_system_prompt_shard c enabled = record c { system_prompt_shard = enabled }

  abbrev pub len : PromptCache A → ℕ
  len c = length c.inner

  -- `created_at.elapsed() > self.ttl`
  abbrev stale : PromptCache A → ℕ → CacheEntry A → Bool
  stale c now e = ltb c.ttl (now - e.created_at)

  abbrev get_found : PromptCache A → ℕ → String → Option (CacheEntry A) → PromptCache A × Option A
  get_found c now key none = (c, none)
  get_found c now key (some e) =
      if stale c now e
      then (record c { inner = remove key c.inner }, none)
      else (c, some e.response)

  -- The entry with the least creation time, the first of them.
  abbrev older : String × CacheEntry A → Option (String × ℕ) → Option (String × ℕ)
  older (k, e) none = some (k, e.created_at)
  older (k, e) (some (j, t)) = if ltb e.created_at t then some (k, e.created_at) else some (j, t)

  abbrev oldest : Option (String × ℕ) → Map String (CacheEntry A) → Option (String × ℕ)
  oldest o [] = o
  oldest o ((k, e) ∷ m) = oldest (older (k, e) o) m

  abbrev remove_oldest : PromptCache A → Option (String × ℕ) → PromptCache A
  remove_oldest c none = c
  remove_oldest c (some (k, t)) = record c { inner = remove k c.inner }

  unfoldable pub evict_oldest_if_needed : PromptCache A → PromptCache A
  evict_oldest_if_needed c =
      if ltb (len c) c.max_entries then c else remove_oldest c (oldest none c.inner)

  abbrev remove_all : List String → Map String (CacheEntry A) → Map String (CacheEntry A)
  remove_all [] m = m
  remove_all (k ∷ ks) m = remove_all ks (remove k m)

  -- The number of entries removed.
  unfoldable pub prune : PromptCache A → ℕ → PromptCache A × ℕ
  prune c now =
      let stale_keys = map (λ p. p.0) (filter_by (λ p. stale c now p.1) c.inner) in
      let c' = record c { inner = remove_all stale_keys c.inner } in (c', len c - len c')

module _ {A Q : Type 0} (cache_key : Q → String) where
  unfoldable pub get : PromptCache A → ℕ → Q → PromptCache A × Option A
  get c now req = get_found c now (cache_key req) (lookup (cache_key req) c.inner)

  unfoldable pub put : PromptCache A → ℕ → Q → A → PromptCache A
  put c now req resp =
      let c' = evict_oldest_if_needed c in
      record c' {
        inner = insert (cache_key req) (record { response = resp; created_at = now }) c'.inner;
      }

  abbrev pub warm : PromptCache A → ℕ → Q → A → PromptCache A
  warm c now req resp = put c now req resp
