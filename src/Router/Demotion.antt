-- ===== src/Router/Demotion.antt =====
-- Demotion of keys: what `try_demote` does to the number of selectable keys of a pool.
use llm_proxy.Prelude.{
  ℕ, zero, suc, ◌+◌, ◌≤◌, String, ◌≡◌, ◌⊎◌, Bool, true, false, not, ◌&&◌, some, List, [], ◌∷◌,
  arith, length, get_elem?, filter_by, ◌==◌, beq_refl, pair_eq, string_eq, nat_eq,
}
use llm_proxy.Config.KeyEntry.{KeyEntry, PoolConfig, identity_hash}
use llm_proxy.BadKeyRegistry.{BadKeyRegistry, mark_bad, is_bad}
use llm_proxy.BadKeyRegistry.Laws.{is_bad-mark_bad}
use llm_proxy.Router.{is_selectable, healthy_key_count, mark_key, try_demote}
use mathlib.Core.Path.{fun_ext}
use text.Mathlib.TextEquality.{eq_iff}

-- How many entries of the pool have a given identity hash: at most one.
abbrev pub HasDistinctKeys : (String → String) → PoolConfig → Type 0
HasDistinctKeys hash pool =
    (h : String) → length (filter_by (λ k. identity_hash hash k == h) pool.keys) ≤ 1

module _ {ℓ} {A : Type ℓ} (p q : A → Bool) where
  filter_by_split :
      (xs : List A)
      → length (filter_by p xs)
        ≡ length (filter_by (λ x. p x && not (q x)) xs) + length (filter_by (λ x. p x && q x) xs)
  filter_by_split [] = omega arith
  filter_by_split (x ∷ xs) = ground (arith, filter_by_split xs)

  length-filter_by_and-le :
      (xs : List A) → length (filter_by (λ x. p x && q x) xs) ≤ length (filter_by q xs)
  length-filter_by_and-le [] = omega arith
  length-filter_by_and-le (x ∷ xs) = ground (arith, length-filter_by_and-le xs)

module _ (hash : String → String) (bad : BadKeyRegistry) (pool_id : String) (h : String) where
  -- After a mark, the selectable keys are those that were and have another hash.
  is_selectable-mark_bad :
      (k : KeyEntry)
      → is_selectable hash (mark_bad bad pool_id h) pool_id k
        ≡ (is_selectable hash bad pool_id k && not (identity_hash hash k == h))
  unfolding is_selectable
  is_selectable-mark_bad k =
      rw (is_bad-mark_bad, beq_refl pool_id)
        (ground (arith, eq_iff h (identity_hash hash k), eq_iff (identity_hash hash k) h))

  healthy-mark_bad :
      (pool : PoolConfig)
      → healthy_key_count hash (mark_bad bad pool_id h) pool pool_id
        ≡ length (
            filter_by
              (λ k. is_selectable hash bad pool_id k && not (identity_hash hash k == h))
              pool.keys)
  unfolding healthy_key_count
  healthy-mark_bad pool = rw (fun_ext is_selectable-mark_bad)

module _ {ℓ} {A : Type ℓ} (p : A → Bool) where
  length-filter_by-pos :
      (xs : List A) (i : ℕ) (x : A)
      → get_elem? xs i ≡ some x
      → p x ≡ true
      → 1 ≤ length (filter_by p xs)
  length-filter_by-pos [] i x h t = ground arith
  length-filter_by-pos (y ∷ xs) zero x h t = ground arith
  length-filter_by-pos (y ∷ xs) (suc i) x h t = ground (arith, length-filter_by-pos xs i x h t)

module _ (hash : String → String) (bad : BadKeyRegistry) (pool : PoolConfig) (pool_id : String)
    (key : KeyEntry) where
  abbrev here : KeyEntry → Bool
  here k = identity_hash hash k == identity_hash hash key

  healthy-after-mark :
      length (filter_by (is_selectable hash bad pool_id) pool.keys)
      ≡ healthy_key_count hash (mark_key hash bad pool_id key) pool pool_id
        + length (filter_by (λ k. is_selectable hash bad pool_id k && here k) pool.keys)
  healthy-after-mark =
      rw healthy-mark_bad (filter_by_split (is_selectable hash bad pool_id) here pool.keys)

  healthy_split :
      healthy_key_count hash bad pool pool_id
      ≡ healthy_key_count hash (mark_key hash bad pool_id key) pool pool_id
        + length (filter_by (λ k. is_selectable hash bad pool_id k && here k) pool.keys)
  unfolding healthy_key_count
  healthy_split = healthy-after-mark

  marked-le-one :
      HasDistinctKeys hash pool
      → length (filter_by (λ k. is_selectable hash bad pool_id k && here k) pool.keys) ≤ 1
  marked-le-one d = omega (
    arith,
    d (identity_hash hash key),
    length-filter_by_and-le (is_selectable hash bad pool_id) here pool.keys,
  )

  key-marked : is_bad (mark_key hash bad pool_id key) pool_id (identity_hash hash key) ≡ true
  key-marked =
      rw (is_bad-mark_bad, beq_refl pool_id, beq_refl (identity_hash hash key)) (ground arith)

  -- With distinct keys in the pool, `try_demote` never takes the last selectable key.
  pub try_demote_keeps :
      HasDistinctKeys hash pool
      → 1 ≤ healthy_key_count hash bad pool pool_id
      → 1 ≤ healthy_key_count hash (try_demote hash bad pool pool_id key).0 pool pool_id
  unfolding try_demote
  try_demote_keeps d h = ground (arith, healthy_split, marked-le-one d)

  -- `try_demote` of a selectable key of a pool with distinct keys: it refuses, and changes nothing,
  -- if at most one key is selectable; else the key is bad and exactly one fewer is selectable.
  pub try_demote_lem :
      (i : ℕ)
      → HasDistinctKeys hash pool
      → get_elem? pool.keys i ≡ some key
      → is_selectable hash bad pool_id key ≡ true
      → (((try_demote hash bad pool pool_id key) ≡ (bad, false))
          × (healthy_key_count hash bad pool pool_id ≤ 1))
        ⊎ (((try_demote hash bad pool pool_id key).1 ≡ true)
            × (is_bad (try_demote hash bad pool pool_id key).0 pool_id (identity_hash hash key)
                ≡ true)
            × (healthy_key_count hash (try_demote hash bad pool pool_id key).0 pool pool_id + 1
                ≡ healthy_key_count hash bad pool pool_id))
  unfolding try_demote
  try_demote_lem i d e s = ground (
    arith,
    healthy_split,
    marked-le-one d,
    key-marked,
    length-filter_by-pos (λ k. is_selectable hash bad pool_id k && here k) pool.keys i key e
        (rw (s, beq_refl (identity_hash hash key))),
  )

  -- The invariant fails for a pool that lists a key more than once: if every selectable entry has
  -- the hash of the demoted key, and there are at least two, none is left.
  pub try_demote_duplicates :
      length (filter_by (λ k. is_selectable hash bad pool_id k && not (here k)) pool.keys) ≡ 0
      → 2 ≤ healthy_key_count hash bad pool pool_id
      → ((try_demote hash bad pool pool_id key).1 ≡ true)
        × (healthy_key_count hash (try_demote hash bad pool pool_id key).0 pool pool_id ≡ 0)
  unfolding try_demote
  try_demote_duplicates n h =
      ground (arith, healthy-mark_bad hash bad pool_id (identity_hash hash key) pool)
