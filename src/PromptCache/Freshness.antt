-- ===== src/PromptCache/Freshness.antt =====
-- What the prompt cache returns: only fresh answers, and the last one that was put.
use llm_proxy.Prelude.{
  ℕ, ◌+◌, ◌-◌, ◌≤◌, String, ◌≡◌, refl, ◌∙◌, ◌≢◌, ◌⊎◌, inl, inr, Bool, true, false, Option, none,
  some, List, [], ◌∷◌, map, arith, ltb, leb, if◌then◌else◌, Bool-cases, filter_by, any, ◌==◌,
  pair_eq, string_eq, nat_eq,
}
use llm_proxy.Prelude.Assoc.{Map, lookup, remove, lookup-insert, lookup-remove}
use llm_proxy.PromptCache.{
  CacheEntry, PromptCache, len, stale, get_found, oldest, remove_oldest, evict_oldest_if_needed,
  remove_all, prune, get, put,
}
use llm_proxy.PromptCache.Eviction.{remove_all-le}
use text.Mathlib.TextEquality.{eq_iff}

module _ {A Q : Type 0} (cache_key : Q → String) where
  -- A cached answer is never older than the time to live: it is the response of the entry under the
  -- request's key.
  pub get-IsFresh :
      (c : PromptCache A) (now : ℕ) (req : Q) (resp : A)
      → (get cache_key c now req).1 ≡ some resp
      → (e : CacheEntry A) × (lookup (cache_key req) c.inner ≡ some e)
        × (e.response ≡ resp)
        × (now - e.created_at ≤ c.ttl)
  unfolding get
  get-IsFresh c now req resp = found (lookup (cache_key req) c.inner) refl
    where
      found :
          (o : Option (CacheEntry A))
          → lookup (cache_key req) c.inner ≡ o
          → (get_found c now (cache_key req) o).1 ≡ some resp
          → (e : CacheEntry A) × (lookup (cache_key req) c.inner ≡ some e)
            × (e.response ≡ resp)
            × (now - e.created_at ≤ c.ttl)
      found none e h = cc
      found (some e) l h = elim (Bool-cases (stale c now e)) [
        | inl x ↦ absurd (none≢some (rw x at h))
        | inr x ↦ (e, l, some_inj (rw x at h), ground arith)
      ]
        where
          none≢some : none ≢ some resp
          none≢some y = cc

          some_inj : {a : A} → some a ≡ some resp → a ≡ resp
          some_inj y = cc

  evict-ttl : (c : PromptCache A) → (evict_oldest_if_needed c).ttl ≡ c.ttl
  unfolding evict_oldest_if_needed
  evict-ttl c = elim (Bool-cases (ltb (len c) c.max_entries)) [
    | inl x ↦ rw x refl
    | inr x ↦ rw x (removed (oldest none c.inner))
  ]
    where
      removed : (o : Option (String × ℕ)) → (remove_oldest c o).ttl ≡ c.ttl
      removed none = refl
      removed (some (k, t)) = refl

  get_found-value :
      (c c' : PromptCache A) (now : ℕ) (key : String) (o : Option (CacheEntry A))
      → c.ttl ≡ c'.ttl
      → (get_found c now key o).1 ≡ (get_found c' now key o).1
  get_found-value c c' now key none h = refl
  get_found-value c c' now key (some e) h =
      rw h (elim (Bool-cases (stale c' now e)) [ inl x ↦ rw x refl | inr x ↦ rw x refl ])

  -- After a `put`, a request with the same key is answered with the new response until the time to
  -- live has passed, and a request with another key as after the eviction alone.
  pub get-put :
      (c : PromptCache A) (put_at now : ℕ) (req other : Q) (resp : A)
      → (get cache_key (put cache_key c put_at req resp) now other).1 ≡ (
          if cache_key req == cache_key other
          then if leb (now - put_at) c.ttl then some resp else none
          else (get cache_key (evict_oldest_if_needed c) now other).1)
  unfolding get put
  get-put c put_at now req other resp = elim (Bool-cases (cache_key req == cache_key other)) [
    | inl e ↦
        rw (lookup-insert, e)
          (get_found-value _ c now (cache_key other)
              (some (record { response = resp; created_at = put_at })) (evict-ttl c)
            ∙ (elim (Bool-cases (ltb c.ttl (now - put_at))) [
              | inl x ↦ rw x (ground arith)
              | inr x ↦ rw x (ground arith)
            ]))
    | inr e ↦ rw (lookup-insert, e) (get_found-value _ (evict_oldest_if_needed c) now _ _ refl)
  ]

-- A request that the cache does not answer is not answered after an eviction, nor after a `put`
-- under another key.
module _ {A Q : Type 0} (cache_key : Q → String) where
  evict-misses :
      (c : PromptCache A) (now : ℕ) (req : Q)
      → (get cache_key c now req).1 ≡ none
      → (get cache_key (evict_oldest_if_needed c) now req).1 ≡ none
  unfolding get evict_oldest_if_needed
  evict-misses c now req h = elim (Bool-cases (ltb (len c) c.max_entries)) [
    | inl x ↦ rw x h
    | inr x ↦ rw x (removed (oldest none c.inner))
  ]
    where
      removed : (o : Option (String × ℕ)) → (get cache_key (remove_oldest c o) now req).1 ≡ none
      removed none = h
      removed (some (k, t)) =
          rw (lookup-remove k (cache_key req) c.inner) (elim (Bool-cases (k == cache_key req)) [
            | inl y ↦ rw y refl
            | inr y ↦ rw y (
                get_found-value cache_key _ c now (cache_key req) (lookup (cache_key req) c.inner)
                  refl
                ∙ h)
          ])

  pub put-misses :
      (c : PromptCache A) (put_at now : ℕ) (sent req : Q) (resp : A)
      → cache_key sent ≢ cache_key req
      → (get cache_key c now req).1 ≡ none
      → (get cache_key (put cache_key c put_at sent resp) now req).1 ≡ none
  put-misses c put_at now sent req resp k h =
      let other : (cache_key sent == cache_key req) ≡ false =
        ground (arith, eq_iff (cache_key sent) (cache_key req)) in
      get-put cache_key c put_at now sent req resp ∙ rw other (evict-misses c now req h)

module _ {A : Type 0} where
  lookup-remove_all :
      (ks : List String) (m : Map String (CacheEntry A)) (j : String)
      → lookup j (remove_all ks m) ≡ (if any (λ k. k == j) ks then none else lookup j m)
  lookup-remove_all [] m j = refl
  lookup-remove_all (k ∷ ks) m j =
      ground (arith, lookup-remove_all ks (remove k m) j, lookup-remove k j m)

  abbrev stale_keys : (CacheEntry A → Bool) → Map String (CacheEntry A) → List String
  stale_keys p m = map (λ x. x.0) (filter_by (λ x. p x.1) m)

  stale-listed :
      (p : CacheEntry A → Bool) (m : Map String (CacheEntry A)) (j : String) (e : CacheEntry A)
      → lookup j m ≡ some e
      → p e ≡ true
      → any (λ k. k == j) (stale_keys p m) ≡ true
  unfolding lookup
  stale-listed p [] j e h q = cc
  stale-listed p ((k, x) ∷ m) j e h q = elim (Bool-cases (k == j)) [
    | inl y ↦ let z : p x ≡ true = cc in rw (z, y) refl
    | inr y ↦
        let t = stale-listed p m j e (rw y at h) q in
        elim (Bool-cases (p x)) [ inl z ↦ rw (z, y) t | inr z ↦ rw z t ]
  ]

  -- After `prune` every entry that is found was found before and is no older than the time to live,
  -- and the number returned is the number of entries that went.
  pub prune-IsFresh :
      (c : PromptCache A) (now : ℕ) (j : String) (e : CacheEntry A)
      → lookup j (prune c now).0.inner ≡ some e
      → (lookup j c.inner ≡ some e)
        × (now - e.created_at ≤ c.ttl)
        × (len (prune c now).0 + (prune c now).1 ≡ len c)
  unfolding prune
  prune-IsFresh c now j e h = elim (Bool-cases (any (λ k. k == j) ks)) [
    | inl t ↦ absurd (none≢some (rw (lookup-remove_all ks c.inner j, t) at h))
    | inr t ↦
        let l = rw (lookup-remove_all ks c.inner j, t) at h in
        (l, fresh l t (Bool-cases (stale c now e)), omega (arith, remove_all-le ks c.inner))
  ]
    where
      ks : List String
      ks = stale_keys (stale c now) c.inner

      none≢some : none ≢ some e
      none≢some y = cc

      fresh :
          lookup j c.inner ≡ some e
          → any (λ k. k == j) ks ≡ false
          → (stale c now e ≡ true) ⊎ (stale c now e ≡ false)
          → now - e.created_at ≤ c.ttl
      fresh l t (inl s) = let z = stale-listed (stale c now) c.inner j e l s in cc
      fresh l t (inr s) = ground (arith, s)
