-- ===== src/Runtime/Registry/Last.antt =====
-- Which provider each pool gets.
use llm_proxy.Prelude.{
  String, ◌≡◌, refl, sym, ap, ◌∙◌, inl, inr, Bool, Option, none, some, List, [], ◌∷◌, arith,
  if◌then◌else◌, Bool-cases, ◌==◌, pair_eq, string_eq, nat_eq,
}
use llm_proxy.Prelude.Assoc.{Map, lookup, insert, lookup-insert}
use llm_proxy.AppError.{Result, ok, err}
use llm_proxy.Runtime.Registry.{ProviderConfig, Factory, and_insert, build_one, build_from}

module _ {A : Type 0} where
  pub ok_inj : (a b : A) → ok a ≡ ok b → a ≡ b
  ok_inj a b h = ground arith

module _ {P : Type 0} where
  and_insert-ok :
      (r : Result P) (pool : String) (rest : Map String P → Result (Map String P))
      (m ps : Map String P)
      → and_insert r pool rest m ≡ ok ps
      → (v : P) × (r ≡ ok v) × (rest (insert pool v m) ≡ ok ps)
  and_insert-ok (ok v) pool rest m ps h = (v, refl, h)
  and_insert-ok (err e) pool rest m ps h = absurd (ground arith)

module _ {P J : Type 0} (factories : List (Factory P J)) where
  -- The last configuration of a pool.
  abbrev later_or : Option (ProviderConfig J) → ProviderConfig J → Bool → Option (ProviderConfig J)
  later_or none cfg b = if b then some cfg else none
  later_or (some later) cfg b = some later

  unfoldable pub last_config : String → List (ProviderConfig J) → Option (ProviderConfig J)
  last_config pool [] = none
  last_config pool (cfg ∷ cfgs) = later_or (last_config pool cfgs) cfg (cfg.pool_id == pool)

  abbrev pub IsProvided : String → Map String P → Map String P → Option (ProviderConfig J) → Type 0
  IsProvided pool before after none = lookup pool after ≡ lookup pool before
  IsProvided pool before after (some cfg) =
      (v : P) × (build_one factories cfg ≡ ok v) × (lookup pool after ≡ some v)

  later_or-IsProvided :
      (pool : String) (before after : Map String P) (cfg : ProviderConfig J) (v : P)
      (o : Option (ProviderConfig J))
      → build_one factories cfg ≡ ok v
      → IsProvided pool (insert cfg.pool_id v before) after o
      → IsProvided pool before after (later_or o cfg (cfg.pool_id == pool))
  later_or-IsProvided pool before after cfg v (some later) b h = h
  later_or-IsProvided pool before after cfg v none b h = elim (Bool-cases (cfg.pool_id == pool)) [
    | inl e ↦ rw e (v, b, h ∙ rw (lookup-insert, e) refl)
    | inr e ↦ rw e (h ∙ rw (lookup-insert, e) refl)
  ]

  pub build_from-IsProvided :
      (pool : String) (cfgs : List (ProviderConfig J)) (before after : Map String P)
      → build_from factories cfgs before ≡ ok after
      → IsProvided pool before after (last_config pool cfgs)
  unfolding build_from last_config
  build_from-IsProvided pool [] before after h = ap (lookup pool) (sym (ok_inj before after h))
  build_from-IsProvided pool (cfg ∷ cfgs) before after h =
      let (v, b, r) = and_insert-ok (build_one factories cfg) cfg.pool_id _ before after h in
      later_or-IsProvided pool before after cfg v (last_config pool cfgs) b
        (build_from-IsProvided pool cfgs (insert cfg.pool_id v before) after r)
