-- ===== src/PromptCache/Eviction.antt =====
-- The bound on the entries, and what the eviction takes.
use llm_proxy.Prelude.{
  ℕ, zero, suc, ◌≤◌, ◌<◌, String, ◌≡◌, refl, sym, subst, ◌⊎◌, inl, inr, true, false, Option, none,
  some, List, [], ◌∷◌, arith, ltb, if◌then◌else◌, Bool-cases, is_some, length, get_elem?, any, All,
  ◌==◌, beq_refl, pair_eq, string_eq, nat_eq,
}
use llm_proxy.Prelude.Assoc.{Map, lookup, remove, lookup-remove, length-remove-le}
use llm_proxy.PromptCache.{
  CacheEntry, PromptCache, len, oldest, remove_oldest, evict_oldest_if_needed, remove_all,
}

abbrev StartLe : Option (String × ℕ) → ℕ → Type 0
StartLe none t = Unit
StartLe (some (k, s)) t = t ≤ s

module _ {A : Type 0} where
  remove_shorter :
      (k : String) (m : Map String (CacheEntry A))
      → any (λ p. p.0 == k) m ≡ true
      → length (remove k m) < length m
  unfolding remove
  remove_shorter k [] h = cc
  remove_shorter k ((j, e) ∷ m) h = ground (arith, length-remove-le k m, remove_shorter k m)

  -- `p` is an entry of `m`, or the start.
  abbrev Found : Option (String × ℕ) → Map String (CacheEntry A) → String × ℕ → Type 0
  Found o m (k, t) =
      (o ≡ some (k, t))
      ⊎ ((i : ℕ) × (e : CacheEntry A) × (get_elem? m i ≡ some (k, e)) × (e.created_at ≡ t))

  later :
      (j : String) (e : CacheEntry A) (p : String × ℕ) (m : Map String (CacheEntry A)) (k : String)
      (t : ℕ)
      → p ≡ (j, e.created_at)
      → Found (some p) m (k, t)
      → (i : ℕ) × (x : CacheEntry A) × (get_elem? ((j, e) ∷ m) i ≡ some (k, x)) × (x.created_at ≡ t)
  later j e p m k t q (inl h) = (0, e, cc, cc)
  later j e p m k t q (inr (i, x, g, c)) = (suc i, x, g, c)

  shifted :
      (j : String) (e : CacheEntry A) (p : String × ℕ) (m : Map String (CacheEntry A)) (k : String)
      (t : ℕ)
      → Found (some p) m (k, t)
      → Found (some p) ((j, e) ∷ m) (k, t)
  shifted j e p m k t (inl h) = inl h
  shifted j e p m k t (inr (i, x, g, c)) = inr (suc i, x, g, c)

  -- `oldest` returns an entry, or its start, and no entry nor the start is older.
  oldest_lem :
      (o : Option (String × ℕ)) (m : Map String (CacheEntry A)) (k : String) (t : ℕ)
      → oldest o m ≡ some (k, t)
      → Found o m (k, t) × StartLe o t × All (λ p. t ≤ p.1.created_at) m
  oldest_lem none [] k t h = cc
  oldest_lem (some (j, s)) [] k t h = (inl h, ground (arith, h), tt)
  oldest_lem none ((j, e) ∷ m) k t h =
      let (f, l, a) = oldest_lem (some (j, e.created_at)) m k t h in
      (inr (later j e (j, e.created_at) m k t refl f), tt, (l, a))
  oldest_lem (some (j', s)) ((j, e) ∷ m) k t h = elim (Bool-cases (ltb e.created_at s)) [
    | inl x ↦
        let (f, l, a) = oldest_lem (some (j, e.created_at)) m k t (rw x at h) in
        (inr (later j e (j, e.created_at) m k t refl f), ground (arith, l, x), (l, a))
    | inr x ↦
        let (f, l, a) = oldest_lem (some (j', s)) m k t (rw x at h) in
        (shifted j e (j', s) m k t f, l, (ground (arith, l, x), a))
  ]

  oldest-some :
      (j : String) (s : ℕ) (m : Map String (CacheEntry A)) → is_some (oldest (some (j, s)) m) ≡ true
  oldest-some j s [] = refl
  oldest-some j s ((k, e) ∷ m) = elim (Bool-cases (ltb e.created_at s)) [
    | inl x ↦ rw x (oldest-some k e.created_at m)
    | inr x ↦ rw x (oldest-some j s m)
  ]

  listed :
      (k : String) (e : CacheEntry A) (i : ℕ) (m : Map String (CacheEntry A))
      → get_elem? m i ≡ some (k, e)
      → any (λ p. p.0 == k) m ≡ true
  listed k e i [] h = cc
  listed k e zero ((j, x) ∷ m) h = let q : j ≡ k = cc in rw (q, beq_refl k) refl
  listed k e (suc i) ((j, x) ∷ m) h = ground (arith, listed k e i m h)

  oldest-nonempty : (m : Map String (CacheEntry A)) → 0 < length m → is_some (oldest none m) ≡ true
  oldest-nonempty [] h = absurd (omega arith)
  oldest-nonempty ((j, e) ∷ m) h = oldest-some j e.created_at m

  -- `c'` is `c` without the entry of one key, whose creation time is the least of all entries.
  abbrev pub DropsOldest : PromptCache A → PromptCache A → Type 0
  DropsOldest c c' =
      (i : ℕ) × (k : String) × (e : CacheEntry A) × (get_elem? c.inner i ≡ some (k, e))
      × All (λ p. e.created_at ≤ p.1.created_at) c.inner
      × ((j : String) → lookup j c'.inner ≡ (if k == j then none else lookup j c.inner))
      × (len c' < len c)

  remove_oldest-DropsOldest :
      (c : PromptCache A) (o : Option (String × ℕ))
      → oldest none c.inner ≡ o
      → is_some o ≡ true
      → DropsOldest c (remove_oldest c o)
  remove_oldest-DropsOldest c none h s = cc
  remove_oldest-DropsOldest c (some (k, t)) h s =
      let (f, _, a) = oldest_lem none c.inner k t h in
      elim f [
        | inl q ↦ cc
        | inr (i, e, g, q) ↦ (
          i,
          k,
          e,
          g,
          subst (λ n. All (λ p. n ≤ p.1.created_at) c.inner) (sym q) a,
          (λ j. lookup-remove k j c.inner),
          remove_shorter k c.inner (listed k e i c.inner g),
        )
      ]

  -- A full cache with at least one entry loses exactly the entry of one key, whose creation time is
  -- the least of all entries.
  pub evict_oldest_lem :
      (c : PromptCache A)
      → c.max_entries ≤ len c
      → 0 < len c
      → DropsOldest c (evict_oldest_if_needed c)
  unfolding evict_oldest_if_needed
  evict_oldest_lem c f n =
      let full : ltb (len c) c.max_entries ≡ false = ground arith in
      rw full (remove_oldest-DropsOldest c _ refl (oldest-nonempty c.inner n))

  pub remove_all-le :
      (ks : List String) (m : Map String (CacheEntry A)) → length (remove_all ks m) ≤ length m
  remove_all-le [] m = omega arith
  remove_all-le (k ∷ ks) m = omega (arith, remove_all-le ks (remove k m), length-remove-le k m)
