-- ===== src/Config/Validate/Sound.antt =====
-- What a configuration that `validate` accepts satisfies.
use llm_proxy.Prelude.{
  ℕ, zero, suc, ◌+◌, String, ◌≡◌, refl, sym, ap, ◌∙◌, subst, ◌⊎◌, inl, inr, Bool, true, false, not,
  none, some, List, [], ◌∷◌, Bool-cases, is_some, get_elem?, ◌==◌, eq_of_beq, pair_eq, string_eq,
  nat_eq,
}
use llm_proxy.Prelude.Assoc.{Map, lookup}
use llm_proxy.Config.KeyEntry.{KeyEntry, PoolConfig, is_oauth, nonempty}
use llm_proxy.Config.Routing.{ModelRouting}
use llm_proxy.Config.Validate.{
  ProviderConfig, Config, Checked, and_then, refuse_if, check_all, checked, check_route,
  check_provider, check_key, check_keys, check_pool, validate,
}
use llm_proxy.Config.Routing.{pool_id}

and_then-none : (a b : Checked) → and_then a b ≡ none → (a ≡ none) × (b ≡ none)
and_then-none none b h = (refl, h)
and_then-none (some m) b h = cc

refuse_if-none : (b : Bool) (msg : String) → refuse_if b msg ≡ none → b ≡ false
refuse_if-none true msg h = cc
refuse_if-none false msg h = refl

both_given :
    (a b : Bool) (m n : String)
    → and_then (refuse_if (not a) m) (refuse_if (not b) n) ≡ none
    → (a ≡ true) × (b ≡ true)
both_given true true m n h = (refl, refl)
both_given true false m n h = cc
both_given false b m n h = cc

given : (a : Bool) (m : String) → refuse_if (not a) m ≡ none → a ≡ true
given true m h = refl
given false m h = cc

checked-none : (o : Checked) → checked o ≡ none → o ≡ none
checked-none none h = refl
checked-none (some m) h = cc

check_all-none {ℓ} :
    {A : Type ℓ} (f : A → Checked) (xs : List A) (i : ℕ) (x : A)
    → check_all f xs ≡ none
    → get_elem? xs i ≡ some x
    → f x ≡ none
check_all-none f [] i x h g = cc
check_all-none f (y ∷ ys) zero x h g =
    let e : y ≡ x = cc in ap f (sym e) ∙ (and_then-none (f y) (check_all f ys) h).0
check_all-none f (y ∷ ys) (suc i) x h g =
    check_all-none f ys i x (and_then-none (f y) (check_all f ys) h).1 g

lookup-get_elem? {ℓ} :
    {V : Type ℓ} (m : Map String V) (k : String) (v : V)
    → lookup k m ≡ some v
    → (i : ℕ) × (get_elem? m i ≡ some (k, v))
unfolding lookup
lookup-get_elem? [] k v h = cc
lookup-get_elem? ((j, w) ∷ m) k v h = elim (Bool-cases (j == k)) [
  | inl e ↦ let z = eq_of_beq j k e in let u : some w ≡ some v = rw e at h in (0, cc)
  | inr e ↦ let (i, g) = lookup-get_elem? m k v (rw e at h) in (suc i, g)
]

-- A credential that can be sent or refreshed: a key, or a refresh token with its issuer.
abbrev pub HasCredential : KeyEntry → Type 0
HasCredential k =
    ((is_oauth k ≡ false) × ((k.key == "") ≡ false))
    ⊎ ((is_oauth k ≡ true)
        × (is_some (nonempty k.refresh) ≡ true)
        × (is_some (nonempty k.issuer) ≡ true))

module _ {J F : Type 0} (to_string : ℕ → String) (is_null is_object : J → Bool)
    (is_finite is_negative : F → Bool) (c : Config J F) where
  check_key-HasCredential :
      (pool : String) (i : ℕ) (k : KeyEntry)
      → check_key to_string is_null is_object is_finite is_negative c pool i k ≡ none
      → HasCredential k
  check_key-HasCredential pool i k h = elim (Bool-cases (is_oauth k)) [
    | inl e ↦ let (p, q) = both_given _ _ _ _ (rw e at h) in inr (e, p, q)
    | inr e ↦ inl (e, refuse_if-none _ _ (rw e at h))
  ]

  check_keys-HasCredential :
      (pool : String) (i : ℕ) (ks : List KeyEntry) (n : ℕ) (k : KeyEntry)
      → check_keys to_string is_null is_object is_finite is_negative c pool i ks ≡ none
      → get_elem? ks n ≡ some k
      → HasCredential k
  check_keys-HasCredential pool i [] n k h g = cc
  check_keys-HasCredential pool i (x ∷ ks) zero k h g =
      let e : x ≡ k = cc in
      subst HasCredential e (check_key-HasCredential pool i x (and_then-none _ _ h).0)
  check_keys-HasCredential pool i (x ∷ ks) (suc n) k h g =
      check_keys-HasCredential pool (i + 1) ks n k (and_then-none _ _ h).1 g

  -- What the reader of an accepted configuration relies on.
  pub record IsValid : Type 0 where
    pub routes :
        (model : String) (r : ModelRouting J)
        → lookup model c.model_to_pool ≡ some r
        → is_some (lookup (pool_id r) c.pools) ≡ true
    pub providers :
        (i : ℕ) (p : ProviderConfig)
        → get_elem? c.providers i ≡ some p
        → is_some (lookup p.pool_id c.pools) ≡ true
    pub credentials :
        (name : String) (pool : PoolConfig) (i : ℕ) (k : KeyEntry)
        → lookup name c.pools ≡ some pool
        → get_elem? pool.keys i ≡ some k
        → HasCredential k

  -- An accepted configuration routes every model and every provider to a pool that exists, and
  -- every key of a pool is a non-empty API key or an OAuth credential with a refresh token and an
  -- issuer.
  pub validate-IsValid :
      validate to_string is_null is_object is_finite is_negative c ≡ none → IsValid
  unfolding validate
  validate-IsValid h =
      let (r, h1) = and_then-none (check_all check_r c.model_to_pool) _ (checked-none _ h) in
      let (p, h2) = and_then-none (check_all check_p c.providers) _ h1 in
      let (k, _) = and_then-none (check_all check_k c.pools) _ h2 in
      record {
        routes = λ model routing l.
            let (i, g) = lookup-get_elem? c.model_to_pool model routing l in
            given _ _ (check_all-none check_r c.model_to_pool i (model, routing) r g);
        providers = λ i x g. given _ _ (check_all-none check_p c.providers i x p g);
        credentials = λ name pool i x l g.
            let (n, q) = lookup-get_elem? c.pools name pool l in
            check_keys-HasCredential name 0 pool.keys i x
              (check_all-none check_k c.pools n (name, pool) k q) g;
      }
    where
      check_r : String × ModelRouting J → Checked
      check_r = check_route to_string is_null is_object is_finite is_negative c

      check_p : ProviderConfig → Checked
      check_p = check_provider to_string is_null is_object is_finite is_negative c

      check_k : String × PoolConfig → Checked
      check_k = check_pool to_string is_null is_object is_finite is_negative c
