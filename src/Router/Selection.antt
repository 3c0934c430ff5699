-- ===== src/Router/Selection.antt =====
-- What `pick_key` returns, and what a run of demotions leaves to pick.
use llm_proxy.Prelude.{
  ℕ, zero, suc, ◌+◌, ◌^◌, ◌≤◌, ◌<◌, String, ◌≡◌, refl, ap, ◌≢◌, ◌↔◌, ◌⊎◌, inl, inr, Bool, true,
  false, Option, none, some, List, [], ◌∷◌, map, arith, Bool-cases, Option-cases, is_some, length,
  get_elem?, is_empty, filter_by, All, get_elem?-filter_by, get_elem?-lt, pair_eq, string_eq,
  nat_eq,
}
use llm_proxy.Prelude.Assoc.{lookup}
use llm_proxy.AppError.{config, not_found, ok, err, ◌>>=◌, ok_or}
use llm_proxy.Config.KeyEntry.{KeyEntry, PoolConfig, identity_hash}
use llm_proxy.BadKeyRegistry.{BadKeyRegistry, is_bad}
use llm_proxy.Router.{
  Sampler, Route, Router, resolve, is_selectable, healthy_key_count, candidate, pick_key,
  try_demote,
}
use llm_proxy.Router.Demotion.{HasDistinctKeys, try_demote_keeps}
use Prim.Native.String.{◌++◌}

-- The sum of the weights.
abbrev pub sum : List ℕ → ℕ
sum [] = 0
sum (w ∷ ws) = w + sum ws

-- What the documentation of `rand` says of `WeightedIndex`: a drawn index is in range, and one is
-- drawn when the weights are not empty, all positive, and sum below 2^32 (they are `u32`).
pub record IsWeightedIndex (sample : Sampler) : Type 0 where
  pub in_range : (ws : List ℕ) (i : ℕ) → sample ws ≡ some i → i < length ws
  pub draws :
      (ws : List ℕ)
      → is_empty ws ≡ false
      → All (λ w. 0 < w) ws
      → sum ws < 2 ^ 32
      → is_some (sample ws) ≡ true

module _ {ℓ} {A : Type ℓ} (p : A → Bool) where
  cons-source :
      (y x : A) (xs : List A) (i : ℕ)
      → ((i : ℕ) → get_elem? (filter_by p xs) i ≡ some x → (j : ℕ) × (get_elem? xs j ≡ some x))
      → get_elem? (y ∷ filter_by p xs) i ≡ some x
      → (j : ℕ) × (get_elem? (y ∷ xs) j ≡ some x)
  cons-source y x xs zero ih h = (0, h)
  cons-source y x xs (suc i) ih h = let (j, e) = ih i h in (suc j, e)

  filter_by-source :
      (x : A) (xs : List A) (i : ℕ)
      → get_elem? (filter_by p xs) i ≡ some x
      → (j : ℕ) × (get_elem? xs j ≡ some x)
  filter_by-source x [] i h = (i, h)
  filter_by-source x (y ∷ xs) i h = elim (Bool-cases (p y)) [
    | inl t ↦ cons-source y x xs i (filter_by-source x xs) (rw t at h)
    | inr t ↦ let (j, e) = filter_by-source x xs i (rw t at h) in (suc j, e)
  ]

-- Some entry of the pool is the key, and it is selectable.
abbrev pub IsSelected : (String → String) → BadKeyRegistry → PoolConfig → String → KeyEntry → Type 0
IsSelected hash bad pool pool_id key =
    ((i : ℕ) × (get_elem? pool.keys i ≡ some key)) × (is_selectable hash bad pool_id key ≡ true)

module _ (hash : String → String) (bad : BadKeyRegistry) (pool : PoolConfig)
    (pool_id : String) where
  candidate-IsSelected :
      (key : KeyEntry) (o : Option ℕ)
      → candidate hash (filter_by (is_selectable hash bad pool_id) pool.keys) o ≡ some key
      → IsSelected hash bad pool pool_id key
  candidate-IsSelected key none h = cc
  candidate-IsSelected key (some i) h = (
    filter_by-source (is_selectable hash bad pool_id) key pool.keys i h,
    get_elem?-filter_by (is_selectable hash bad pool_id) pool.keys i key h,
  )

  -- A picked key stands in the pool, has a positive weight and is not bad, whatever was drawn.
  pub pick_key-IsSelected :
      (sample : Sampler) (key : KeyEntry)
      → pick_key hash sample bad pool pool_id ≡ some key
      → ((i : ℕ) × (get_elem? pool.keys i ≡ some key))
        × (0 < key.weight)
        × (is_bad bad pool_id (identity_hash hash key) ≡ false)
  unfolding pick_key is_selectable
  pick_key-IsSelected sample key h = elim (Bool-cases (is_empty candidates)) [
    | inl t ↦ absurd (none≢some (rw t at h))
    | inr t ↦
        let s = candidate-IsSelected key (sample (map (λ k. k.weight) candidates)) (rw t at h) in
        (s.0, ground (arith, s.1), ground (arith, s.1))
  ]
    where
      candidates : List KeyEntry
      candidates = filter_by (is_selectable hash bad pool_id) pool.keys

      none≢some : none ≢ some key
      none≢some e = cc

  selectable_weights-pos :
      (ks : List KeyEntry)
      → All (λ w. 0 < w) (map (λ k. k.weight) (filter_by (is_selectable hash bad pool_id) ks))
  unfolding is_selectable
  selectable_weights-pos [] = tt
  selectable_weights-pos (k ∷ ks) = ground (arith, selectable_weights-pos ks)

map-is_empty : (ks : List KeyEntry) → is_empty (map (λ k. k.weight) ks) ≡ is_empty ks
map-is_empty [] = refl
map-is_empty (k ∷ ks) = refl

is_empty-length : (ks : List KeyEntry) → is_empty ks ≡ false → 0 < length ks
is_empty-length [] h = cc
is_empty-length (k ∷ ks) h = omega arith

empty-length : (ks : List KeyEntry) → is_empty ks ≡ true → length ks ≡ 0
empty-length [] h = refl
empty-length (k ∷ ks) h = cc

length-weights : (ks : List KeyEntry) → length (map (λ k. k.weight) ks) ≡ length ks
length-weights [] = refl
length-weights (k ∷ ks) = ap suc (length-weights ks)

module _ (hash : String → String) (sample : Sampler) (w : IsWeightedIndex sample)
    (ks : List KeyEntry) where
  drawn-in-range :
      (o : Option ℕ)
      → sample (map (λ k. k.weight) ks) ≡ o
      → is_some o ≡ true
      → is_some (candidate hash ks o) ≡ true
  drawn-in-range none e s = s
  drawn-in-range (some i) e s =
      let (k, f) = get_elem?-lt ks i (omega (arith, w.in_range _ i e, length-weights ks)) in rw f

  draws-candidate :
      is_empty ks ≡ false
      → All (λ n. 0 < n) (map (λ k. k.weight) ks)
      → sum (map (λ k. k.weight) ks) < 2 ^ 32
      → is_some (candidate hash ks (sample (map (λ k. k.weight) ks))) ≡ true
  draws-candidate n p l = drawn-in-range _ refl (w.draws _ (rw map-is_empty n) p l)

-- The weights of the selectable keys, as `pick_key` hands them to the sampler.
abbrev pub selectable_weights : (String → String) → BadKeyRegistry → PoolConfig → String → List ℕ
selectable_weights hash bad pool pool_id =
    map (λ k. k.weight) (filter_by (is_selectable hash bad pool_id) pool.keys)

-- While the selectable weights sum below 2^32, `pick_key` returns a key exactly when
-- `healthy_key_count` is positive.
pub pick_key-is_some_iff :
    (hash : String → String) (bad : BadKeyRegistry) (pool : PoolConfig) (pool_id : String)
    (sample : Sampler)
    → IsWeightedIndex sample
    → sum (selectable_weights hash bad pool pool_id) < 2 ^ 32
    → (is_some (pick_key hash sample bad pool pool_id) ≡ true)
      ↔ (0 < healthy_key_count hash bad pool pool_id)
unfolding pick_key healthy_key_count
pick_key-is_some_iff hash bad pool pool_id sample w l =
    elim (Bool-cases (is_empty (filter_by (is_selectable hash bad pool_id) pool.keys))) [
      | inl t ↦ rw t (λ h. cc, λ h. absurd (omega (arith, empty-length _ t)))
      | inr t ↦ rw t (
        λ h. is_empty-length _ t,
        λ h. draws-candidate hash sample w _ t (selectable_weights-pos hash bad pool pool_id _) l,
      )
    ]

-- A run of demotions of one pool.
unfoldable pub demote_all :
    (String → String) → BadKeyRegistry → PoolConfig → String → List KeyEntry → BadKeyRegistry
demote_all hash bad pool pool_id [] = bad
demote_all hash bad pool pool_id (k ∷ ks) =
    demote_all hash (try_demote hash bad pool pool_id k).0 pool pool_id ks

-- From a pool with distinct keys and a selectable one, any run of `try_demote` calls, for any keys,
-- leaves a selectable key: failover alone never exhausts a pool.
pub demote_all_keeps :
    (hash : String → String) (bad : BadKeyRegistry) (pool : PoolConfig) (pool_id : String)
    (ks : List KeyEntry)
    → HasDistinctKeys hash pool
    → 1 ≤ healthy_key_count hash bad pool pool_id
    → 1 ≤ healthy_key_count hash (demote_all hash bad pool pool_id ks) pool pool_id
unfolding demote_all
demote_all_keeps hash bad pool pool_id [] d h = h
demote_all_keeps hash bad pool pool_id (k ∷ ks) d h =
    demote_all_keeps hash (try_demote hash bad pool pool_id k).0 pool pool_id ks d
      (try_demote_keeps hash bad pool pool_id k d h)

-- `resolve` finds the route of a configured model with the provider of its pool; an unknown model
-- is a `NotFound` error, and a route to a pool with no provider a `Config` error.
pub resolve_lem :
    {P J : Type 0} (r : Router P J) (model : String)
    → ((lookup model r.model_map ≡ none)
        × (resolve r model ≡ err (not_found ("model '" ++ model ++ "' not found"))))
      ⊎ ((route : Route J) × (lookup model r.model_map ≡ some route)
          × (resolve r model ≡ (
              ok_or
                (lookup route.pool_id r.providers)
                (config ("pool '" ++ route.pool_id ++ "' not found"))
              >>= λ p. ok (record { provider = p; route = route }))))
unfolding resolve
resolve_lem r model = elim (Option-cases (lookup model r.model_map)) [
  | inl e ↦ inl (e, rw e)
  | inr (route, e) ↦ inr (route, e, rw e)
]
