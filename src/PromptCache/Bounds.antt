-- ===== src/PromptCache/Bounds.antt =====
-- The cache never holds more than `max_entries` entries.
use llm_proxy.Prelude.{
  ℕ, ◌≤◌, ◌<◌, String, ◌≡◌, refl, ◌∙◌, inl, inr, Option, none, some, List, [], ◌∷◌, arith, ltb,
  if◌then◌else◌, Bool-cases, ◌==◌, pair_eq, string_eq, nat_eq,
}
use llm_proxy.Prelude.Assoc.{length-insert-le, length-remove-le}
use llm_proxy.PromptCache.{
  CacheEntry, PromptCache, new, len, stale, get_found, oldest, remove_oldest,
  evict_oldest_if_needed, prune, get, put,
}
use llm_proxy.PromptCache.Eviction.{evict_oldest_lem, remove_all-le}

-- One call of the cache at a time.
pub data Call (A Q : Type 0) : Type 0 where
  gets : ℕ → Q → Call A Q
  puts : ℕ → Q → A → Call A Q
  prunes : ℕ → Call A Q

module _ {A Q : Type 0} (cache_key : Q → String) where
  unfoldable pub step : PromptCache A → Call A Q → PromptCache A
  step c (gets now req) = (get cache_key c now req).0
  step c (puts now req resp) = put cache_key c now req resp
  step c (prunes now) = (prune c now).0

  unfoldable pub run : PromptCache A → List (Call A Q) → PromptCache A
  run c [] = c
  run c (x ∷ xs) = run (step c x) xs

module _ {A : Type 0} (bound : ℕ) where
  -- The bound on the entries, which is positive and never changes.
  pub record IsWithin (c : PromptCache A) : Type 0 where
    pub limit : c.max_entries ≡ bound
    pub positive : 0 < bound
    pub bounded : len c ≤ bound

  remove_oldest-max :
      (c : PromptCache A) (o : Option (String × ℕ))
      → (remove_oldest c o).max_entries ≡ c.max_entries
  remove_oldest-max c none = refl
  remove_oldest-max c (some (k, t)) = refl

  evict-max : (c : PromptCache A) → (evict_oldest_if_needed c).max_entries ≡ c.max_entries
  unfolding evict_oldest_if_needed
  evict-max c = elim (Bool-cases (ltb (len c) c.max_entries)) [
    | inl x ↦ rw x refl
    | inr x ↦ rw x (remove_oldest-max c (oldest none c.inner))
  ]

  evict-room : (c : PromptCache A) → IsWithin c → len (evict_oldest_if_needed c) < bound
  unfolding evict_oldest_if_needed
  evict-room c w = elim (Bool-cases (ltb (len c) c.max_entries)) [
    | inl x ↦ rw x (ground (arith, w.limit))
    | inr x ↦
        let (i, k, e, g, a, j, s) =
          evict_oldest_lem c (ground (arith, w.limit, w.bounded, x)) (ground (arith, w, x)) in
        omega (arith, w.bounded)
  ]

  prune-IsWithin : (c : PromptCache A) (now : ℕ) → IsWithin c → IsWithin (prune c now).0
  unfolding prune
  prune-IsWithin c now w = record {
    limit = w.limit;
    positive = w.positive;
    bounded = omega (arith, w.bounded, remove_all-le _ c.inner);
  }

module _ {A Q : Type 0} (cache_key : Q → String) (bound : ℕ) where
  get_found-IsWithin :
      (c : PromptCache A) (now : ℕ) (key : String) (o : Option (CacheEntry A))
      → IsWithin bound c
      → IsWithin bound (get_found c now key o).0
  get_found-IsWithin c now key none w = w
  get_found-IsWithin c now key (some e) w = elim (Bool-cases (stale c now e)) [
    | inl x ↦ rw x (record {
      limit = w.limit;
      positive = w.positive;
      bounded = omega (arith, w.bounded, length-remove-le key c.inner);
    })
    | inr x ↦ rw x w
  ]

  put-IsWithin :
      (c : PromptCache A) (now : ℕ) (req : Q) (resp : A)
      → IsWithin bound c
      → IsWithin bound (put cache_key c now req resp)
  unfolding put
  put-IsWithin c now req resp w = record {
    limit = evict-max bound c ∙ w.limit;
    positive = w.positive;
    bounded = omega (
      arith,
      evict-room bound c w,
      length-insert-le (cache_key req) (record { response = resp; created_at = now })
          (evict_oldest_if_needed c).inner,
    );
  }

  -- Every call of a cache with a positive bound keeps the number of entries within the bound.
  pub step-IsWithin :
      (c : PromptCache A) (x : Call A Q) → IsWithin bound c → IsWithin bound (step cache_key c x)
  unfolding step get
  step-IsWithin c (gets now req) w = get_found-IsWithin c now (cache_key req) _ w
  step-IsWithin c (puts now req resp) w = put-IsWithin c now req resp w
  step-IsWithin c (prunes now) w = prune-IsWithin bound c now w

  run-IsWithin :
      (c : PromptCache A) (xs : List (Call A Q))
      → IsWithin bound c
      → IsWithin bound (run cache_key c xs)
  unfolding run
  run-IsWithin c [] w = w
  run-IsWithin c (x ∷ xs) w = run-IsWithin (step cache_key c x) xs (step-IsWithin c x w)

module _ {A Q : Type 0} (cache_key : Q → String) where
  -- A new cache that is asked for at most `n` entries, or for 0 and then holds at most 256, stays
  -- within that number under any sequence of calls.
  pub run-len-le :
      (n : ℕ) (xs : List (Call A Q)) → len (run cache_key (new n) xs) ≤ (if n == 0 then 256 else n)
  unfolding new
  run-len-le n xs =
      (run-IsWithin cache_key (if n == 0 then 256 else n) (new n) xs
        (record { limit = refl; positive = ground arith; bounded = omega arith })).bounded
