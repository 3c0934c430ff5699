-- ===== src/ModelImport/Match/Best.antt =====
-- The candidate that is picked is the best of those that match, in whatever order they come.
use llm_proxy.Prelude.{
  ℕ, String, ◌≡◌, refl, sym, ap, subst, ◌≢◌, ◌⊎◌, inl, inr, Bool, true, false, Option, none, some,
  List, [], ◌∷◌, arith, Bool-cases, All, pair_eq, string_eq, nat_eq,
}
use llm_proxy.Prelude.Compare.{
  then_with, swap, compare_bool, compare_text-eq, compare_text-swap, swap-then_with, Chain,
  compare_flip-Chain, compare_bool_flip-Chain, then_with-Chain, compare_text-Chain,
}
use llm_proxy.ModelImport.Match.{
  Candidate, ProviderRow, model_id_matches, has_cost, catalog_score, tie_break, keep_best,
  best_match, pick_catalog_match,
}
use Prim.Native.Nat.{Ordering, compare}

abbrev pub IsIn : {A : Type 0} → A → List A → Type 0
IsIn a [] = ⊥
IsIn a (x ∷ xs) = (a ≡ x) ⊎ IsIn a xs

compare_flip : (m n : ℕ) → compare m n ≡ swap (compare n m)
compare_flip m n = ground arith

compare_bool_flip : (m n : Bool) → compare_bool m n ≡ swap (compare_bool n m)
compare_bool_flip m n = ground arith

module _ {N : Type 0} (destination : String) (rows : List ProviderRow) where
  abbrev score : Candidate N → ℕ
  score c = catalog_score destination c rows

  abbrev pub Matches : Candidate N → Type 0
  Matches c = model_id_matches destination c.id ≡ true

  -- `lt` if the first is preferred: by its score, then with a cost, then by provider and id.
  unfoldable pub rank : Candidate N → Candidate N → Ordering
  unfolding tie_break
  rank a b = then_with (compare (score b) (score a)) (tie_break a b)

  rank-Chain : (a b c : Candidate N) → Chain (rank a b) (rank b c) (rank a c)
  unfolding rank tie_break
  rank-Chain a b c =
      then_with-Chain _ _ _ _ _ _ (compare_flip-Chain (score a) (score b) (score c)) (
        then_with-Chain _ _ _ _ _ _
          (compare_bool_flip-Chain (has_cost a.value) (has_cost b.value) (has_cost c.value))
          (then_with-Chain _ _ _ _ _ _ (compare_text-Chain a.provider b.provider c.provider)
            (compare_text-Chain a.id b.id c.id)))

  rank-swap : (a b : Candidate N) → rank b a ≡ swap (rank a b)
  unfolding rank tie_break
  rank-swap a b = simp (
    compare_flip (score a) (score b),
    compare_bool_flip (has_cost a.value) (has_cost b.value),
    compare_text-swap a.provider b.provider,
    compare_text-swap a.id b.id,
    swap-then_with,
  )

  rank_trans :
      (a b c : Candidate N)
      → rank a b ≢ Ordering.gt
      → rank b c ≢ Ordering.gt
      → rank a c ≢ Ordering.gt
  rank_trans a b c h k = ground (arith, rank-Chain a b c)

  rank_refl : (a : Candidate N) → rank a a ≢ Ordering.gt
  rank_refl a = ground (arith, rank-swap a a)

  keep_best-cases :
      (c b : Candidate N)
      → ((keep_best c (score c) (some (b, score b)) ≡ some (c, score c)) × (rank c b ≢ Ordering.gt))
        ⊎ ((keep_best c (score c) (some (b, score b)) ≡ some (b, score b))
            × (rank b c ≢ Ordering.gt))
  unfolding rank
  keep_best-cases c b = ground (arith, rank-swap c b)

  -- Nothing of a list that matches is preferred to the first.
  abbrev pub Leads : Candidate N → List (Candidate N) → Type 0
  Leads c [] = Unit
  Leads c (d ∷ ds) = (Matches d → rank c d ≢ Ordering.gt) × Leads c ds

  Leads-trans :
      (a b : Candidate N) (ds : List (Candidate N))
      → rank a b ≢ Ordering.gt
      → Leads b ds
      → Leads a ds
  Leads-trans a b [] h k = tt
  Leads-trans a b (d ∷ ds) h (k, ks) = (λ m. rank_trans a b d h (k m), Leads-trans a b ds h ks)

  Leads-IsIn :
      (c d : Candidate N) (ds : List (Candidate N))
      → Leads c ds
      → IsIn d ds
      → Matches d
      → rank c d ≢ Ordering.gt
  Leads-IsIn c d [] h i m = absurd i
  Leads-IsIn c d (x ∷ ds) (h, hs) (inl e) m =
      subst (λ y. rank c y ≢ Ordering.gt) (sym e) (h (subst (λ y. Matches y) e m))
  Leads-IsIn c d (x ∷ ds) (h, hs) (inr i) m = Leads-IsIn c d ds hs i m

  abbrev scored : Candidate N → Option (Candidate N × ℕ)
  scored c = some (c, score c)

  -- What the loop makes of a best candidate so far.
  abbrev Improves : Candidate N → List (Candidate N) → Option (Candidate N × ℕ) → Type 0
  Improves b ds r =
      (c : Candidate N) × (r ≡ scored c)
      × (rank c b ≢ Ordering.gt)
      × Leads c ds
      × ((c ≡ b) ⊎ (IsIn c ds × Matches c))

  found :
      (c d : Candidate N) (ds : List (Candidate N))
      → Matches d
      → ((c ≡ d) ⊎ (IsIn c ds × Matches c))
      → IsIn c (d ∷ ds) × Matches c
  found c d ds y (inl e) = (inl e, subst (λ x. Matches x) (sym e) y)
  found c d ds y (inr (i, m)) = (inr i, m)

  best_match-Improves :
      (b : Candidate N) (ds : List (Candidate N))
      → Improves b ds (best_match destination rows (scored b) ds)
  unfolding best_match
  best_match-Improves b [] = (b, refl, rank_refl b, tt, inl refl)
  best_match-Improves b (d ∷ ds) = elim (Bool-cases (model_id_matches destination d.id)) [
    | inr n ↦
        let (c, e, h, l, i) = best_match-Improves b ds in (c, rw n e, h, (λ m. cc, l), later b c i)
    | inl y ↦ elim (keep_best-cases d b) [
      | inl (e, h) ↦
          let (c, f, g, l, i) = best_match-Improves d ds in
          (c, rw (y, e) f, rank_trans c d b g h, (λ m. g, l), inr (found c d ds y i))
      | inr (e, h) ↦
          let (c, f, g, l, i) = best_match-Improves b ds in
          (c, rw (y, e) f, g, (λ m. rank_trans c b d g h, l), later b c i)
    ]
  ]
    where
      later :
          (b c : Candidate N)
          → ((c ≡ b) ⊎ (IsIn c ds × Matches c))
          → (c ≡ b) ⊎ (IsIn c (d ∷ ds) × Matches c)
      later b c (inl e) = inl e
      later b c (inr (i, m)) = inr (inr i, m)

  abbrev pub NoneMatches : List (Candidate N) → Type 0
  NoneMatches ds = All (λ d. model_id_matches destination d.id ≡ false) ds

  -- One of the list that matches, and that no other that matches is preferred to.
  abbrev pub IsBest : Candidate N → List (Candidate N) → Type 0
  IsBest c ds = IsIn c ds × Matches c × Leads c ds

  abbrev pub Picked : List (Candidate N) → Option (Candidate N) → Type 0
  Picked ds none = NoneMatches ds
  Picked ds (some c) = IsBest c ds

  skip :
      (d : Candidate N) (ds : List (Candidate N)) (o : Option (Candidate N))
      → model_id_matches destination d.id ≡ false
      → Picked ds o
      → Picked (d ∷ ds) o
  skip d ds none n p = (n, p)
  skip d ds (some c) n (i, m, l) = (inr i, m, ((λ y. cc), l))

  -- What `pick_catalog_match` returns.
  pub pick_catalog_match-Picked :
      (ds : List (Candidate N)) → Picked ds (pick_catalog_match ds destination rows)
  unfolding pick_catalog_match best_match
  pick_catalog_match-Picked [] = tt
  pick_catalog_match-Picked (d ∷ ds) = elim (Bool-cases (model_id_matches destination d.id)) [
    | inr n ↦
        rw n (skip d ds (pick_catalog_match ds destination rows) n (pick_catalog_match-Picked ds))
    | inl y ↦
        let (c, e, g, l, i) = best_match-Improves d ds in
        let (j, m) = found c d ds y i in rw (y, e) (j, m, ((λ h. g), l))
  ]

  -- The candidate that is picked is one of the list and matches, and no other one that matches is
  -- preferred to it: by a higher score, then by having a cost, then by the smaller provider and id.
  pub pick_catalog_match-best :
      (ds : List (Candidate N)) (c d : Candidate N)
      → pick_catalog_match ds destination rows ≡ some c
      → IsIn d ds
      → Matches d
      → IsIn c ds × Matches c × (rank c d ≢ Ordering.gt)
  pick_catalog_match-best ds c d e j n =
      let (i, m, l) = subst (λ o. Picked ds o) e (pick_catalog_match-Picked ds) in
      (i, m, Leads-IsIn c d ds l j n)

  refuted : (d : Candidate N) (xs : List (Candidate N)) → NoneMatches xs → IsIn d xs → Matches d → ⊥
  refuted d [] h i m = i
  refuted d (x ∷ xs) (n, h) (inl e) m = cc (ap (λ y. model_id_matches destination y.id) e)
  refuted d (x ∷ xs) (n, h) (inr i) m = refuted d xs h i m

  -- What decides a rank that is equal both ways.
  rank-eq : (c d : Candidate N) → rank c d ≡ Ordering.eq → (c.provider ≡ d.provider) × (c.id ≡ d.id)
  unfolding rank tie_break
  rank-eq c d h = (
    compare_text-eq c.provider d.provider (ground arith),
    compare_text-eq c.id d.id (ground arith),
  )

  -- Two lists with the same candidates, in any order and any number, in which a provider and an id
  -- name one candidate, lead to the same pick.
  pub pick_catalog_match-order :
      (xs ys : List (Candidate N))
      → ((c : Candidate N) → IsIn c xs → IsIn c ys)
      → ((c : Candidate N) → IsIn c ys → IsIn c xs)
      → ((c d : Candidate N)
          → IsIn c xs
          → IsIn d xs
          → c.provider ≡ d.provider
          → c.id ≡ d.id
          → c ≡ d)
      → pick_catalog_match xs destination rows ≡ pick_catalog_match ys destination rows
  pick_catalog_match-order xs ys f g u =
      same _ _ (pick_catalog_match-Picked xs) (pick_catalog_match-Picked ys)
    where
      same : (o p : Option (Candidate N)) → Picked xs o → Picked ys p → o ≡ p
      same none none h k = refl
      same none (some d) h (i, m, l) = absurd (refuted d xs h (g d i) m)
      same (some c) none (i, m, l) k = absurd (refuted c ys k (f c i) m)
      same (some c) (some d) (i, m, l) (j, n, k) =
          let a = Leads-IsIn c d xs l (g d j) n in
          let b = Leads-IsIn d c ys k (f c i) m in
          let (v, w) = rank-eq c d (ground (arith, a, b, rank-swap c d)) in
          ap some (u c d i (g d j) v w)
