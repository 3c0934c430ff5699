-- ===== src/Prelude/Assoc.antt =====
-- Maps (`HashMap`, `DashMap`) as association lists: the first entry of a key counts.
use Prim.Native.Nat.{◌+◌, ◌≤◌}
use mathlib.Core.Bool.{Bool, true}
use mathlib.Core.Path.{◌≡◌, refl, subst}
use mathlib.Core.Logic.{inl, inr}
use mathlib.Core.Option.{Option, none, some}
use mathlib.Core.List.{List, [], ◌∷◌}
use native.Mathlib.Omega.{arith}
use llm_proxy.Prelude.Tests.{if◌then◌else◌, Bool-cases, is_some}
use llm_proxy.Prelude.Lists.{length, find, All}
use llm_proxy.Prelude.Keys.{Eq, ◌==◌, eq_of_beq}

abbrev pub Map {ℓ κ} : Type ℓ → Type κ → Type (ℓ ⊔ κ)
Map K V = List (K × V)

module _ {ℓ κ} {K : Type ℓ} {V : Type κ} ⦃e : Eq K⦄ where
  unfoldable pub lookup : K → Map K V → Option V
  lookup k [] = none
  lookup k ((key, value) ∷ rest) = if key == k then some value else lookup k rest

  unfoldable pub insert : K → V → Map K V → Map K V
  insert k new [] = (k, new) ∷ []
  insert k new ((key, old) ∷ rest) =
      if key == k then (k, new) ∷ rest else (key, old) ∷ insert k new rest

  unfoldable pub remove : K → Map K V → Map K V
  remove k [] = []
  remove k ((key, old) ∷ rest) = if key == k then remove k rest else (key, old) ∷ remove k rest

  -- What every key holds after an insertion.
  pub lookup-insert :
      (k j : K) (new : V) (m : Map K V)
      → lookup j (insert k new m) ≡ (if k == j then some new else lookup j m)
  unfolding lookup insert
  lookup-insert k j new [] = refl
  lookup-insert k j new ((key, old) ∷ rest) =
      ground (arith, lookup-insert k j new rest, e.beq_iff key k, e.beq_iff key j, e.beq_iff k j)

  -- What every key holds after a removal.
  pub lookup-remove :
      (k j : K) (m : Map K V) → lookup j (remove k m) ≡ (if k == j then none else lookup j m)
  unfolding lookup remove
  lookup-remove k j [] = ground arith
  lookup-remove k j ((key, old) ∷ rest) =
      ground (arith, lookup-remove k j rest, e.beq_iff key k, e.beq_iff key j, e.beq_iff k j)

  pub length-insert-le : (k : K) (v : V) (m : Map K V) → length (insert k v m) ≤ length m + 1
  unfolding insert
  length-insert-le k v [] = omega arith
  length-insert-le k v ((j, w) ∷ m) = ground (arith, length-insert-le k v m)

  pub length-remove-le : (k : K) (m : Map K V) → length (remove k m) ≤ length m
  unfolding remove
  length-remove-le k [] = omega arith
  length-remove-le k ((j, w) ∷ m) = ground (arith, length-remove-le k m)

  module _ {μ} (P : K × V → Type μ) where
    -- What every entry satisfies, after an insertion, a removal and for the entry that is found.
    pub insert-All : (k : K) (v : V) (m : Map K V) → P (k, v) → All P m → All P (insert k v m)
    unfolding insert
    insert-All k v [] p h = (p, tt)
    insert-All k v ((j, w) ∷ m) p (q, h) = elim (Bool-cases (j == k)) [
      | inl e ↦ rw e (p, h)
      | inr e ↦ rw e (q, insert-All k v m p h)
    ]

    pub remove-All : (k : K) (m : Map K V) → All P m → All P (remove k m)
    unfolding remove
    remove-All k [] h = tt
    remove-All k ((j, w) ∷ m) (q, h) = elim (Bool-cases (j == k)) [
      | inl e ↦ rw e (remove-All k m h)
      | inr e ↦ rw e (q, remove-All k m h)
    ]

    pub lookup-All : (k : K) (v : V) (m : Map K V) → All P m → lookup k m ≡ some v → P (k, v)
    unfolding lookup
    lookup-All k v [] h e = ground arith
    lookup-All k v ((j, w) ∷ m) (q, h) e = elim (Bool-cases (j == k)) [
      | inl t ↦
          let a : w ≡ v = ground arith in
          subst (λ x. P (k, x)) a (subst (λ x. P (x, w)) (eq_of_beq j k t) q)
      | inr t ↦ lookup-All k v m h (rw t at e)
    ]

  -- The key of an entry that is found by a test has a value, and an entry that satisfies the test
  -- makes the search succeed.
  pub find-lookup :
      (p : K × V → Bool) (k : K) (v : V) (m : Map K V)
      → find p m ≡ some (k, v)
      → is_some (lookup k m) ≡ true
  unfolding lookup
  find-lookup p k v [] h = ground arith
  find-lookup p k v ((j, w) ∷ m) h = ground (arith, find-lookup p k v m, e.beq_iff j k)

  pub lookup-find :
      (p : K × V → Bool) (k : K) (v : V) (m : Map K V)
      → lookup k m ≡ some v
      → p (k, v) ≡ true
      → is_some (find p m) ≡ true
  unfolding lookup
  lookup-find p k v [] h t = ground arith
  lookup-find p k v ((j, w) ∷ m) h t = ground (arith, lookup-find p k v m, e.beq_iff j k)
