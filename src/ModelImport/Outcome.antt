-- ===== src/ModelImport/Outcome.antt =====
-- What an import does to the registry, and what it reports.
use llm_proxy.Prelude.{
  ℕ, ◌+◌, String, ◌≡◌, refl, ap, ◌∙◌, subst, ◌⊎◌, inl, inr, Bool, true, false, not, ◌&&◌, Option,
  some, List, [], ◌∷◌, arith, Bool-cases, Option-cases, is_some, length, any, length-append, ◌==◌,
  beq_refl, eq_of_beq, pair_eq, string_eq, nat_eq,
}
use llm_proxy.Prelude.Assoc.{lookup, insert, lookup-insert}
use llm_proxy.AppError.{AppError, Result, ok, err, is_ok, ◌>>=◌}
use llm_proxy.Json.{Value}
use llm_proxy.ModelImport.Match.{Candidate, ProviderRow}
use llm_proxy.ModelImport.Mapping.{Numbers, MappedModel}
use llm_proxy.ModelImport.{
  ImportReport, Route, RegistryRow, Registry, Tables, Plan, skip, conflict, broken, fits,
  read_catalog, State, count_skipped, count_conflict, row_of, carry_out, plan, import_rows,
  no_counts, enabled_routes, settle, import_json,
}
use Prim.Native.String.{◌++◌ as ◌⧺◌}

-- What a plan adds to the report.
abbrev Counted : ℕ → ImportReport → ImportReport → Type 0
Counted n r r' =
    (r'.counts.new_ + r'.counts.skipped + r'.counts.conflicts
      ≡ r.counts.new_ + r.counts.skipped + r.counts.conflicts + n)
    × (r'.counts.failed ≡ r.counts.failed)
    × (length r'.reasons + r.counts.skipped + r.counts.conflicts
        ≡ length r.reasons + r'.counts.skipped + r'.counts.conflicts)

-- The parts of a chain of two steps that succeeds.
both_ok :
    {S T : Type 0} {t : T} (step : Result S) (later : S → Result T)
    → (step >>= later) ≡ ok t
    → (s : S) × (step ≡ ok s) × (later s ≡ ok t)
both_ok (err x) later chain = absurd (ground arith)
both_ok (ok s) later chain = (s, refl, chain)

Result-cases : {A : Type 0} (r : Result A) → ((a : A) × (r ≡ ok a)) ⊎ ((e : AppError) × (r ≡ err e))
Result-cases (ok a) = inl (a, refl)
Result-cases (err e) = inr (e, refl)

module _ {N F : Type 0} where
  -- What an import leaves of a row: whether it is enabled; and all of it, if the import does not
  -- overwrite or its id is not that of a route.
  abbrev pub Keeps : Bool → List Route → Registry N F → Registry N F → Type 0
  Keeps overwrite routes reg reg' =
      (k : String) (r : RegistryRow N F)
      → lookup k reg ≡ some r
      → (r' : RegistryRow N F) × (lookup k reg' ≡ some r')
        × (r'.enabled ≡ r.enabled)
        × ((overwrite && any (λ route. route.logical_model == k) routes) ≡ false → r' ≡ r)

  Keeps-refl :
      (overwrite : Bool) (routes : List Route) (reg : Registry N F) → Keeps overwrite routes reg reg
  Keeps-refl overwrite routes reg k r e = (r, e, refl, λ _. refl)

  insert-Keeps :
      (overwrite : Bool) (route : Route) (p : ProviderRow) (m : MappedModel N F)
      (reg : Registry N F)
      → (is_some (lookup route.logical_model reg) && not overwrite) ≡ false
      → Keeps overwrite
          (route ∷ [])
          reg
          (insert route.logical_model (row_of p m (lookup route.logical_model reg)) reg)
  insert-Keeps overwrite route (id, kind) m reg h k r e =
      elim (Bool-cases (route.logical_model == k)) [
        | inr n ↦ (r, rw (lookup-insert, n) e, refl, λ _. refl)
        | inl y ↦
            let f : lookup route.logical_model reg ≡ some r =
              rw (eq_of_beq route.logical_model k y) e in
            (
              row_of (id, kind) m (some r),
              rw (lookup-insert, y, f) refl,
              refl,
              λ c. absurd (ground (arith, h, f, c, y)),
            )
      ]

  carry_out-Keeps :
      (overwrite : Bool) (route : Route) (todo : Plan N F) (s s' : State N F)
      → carry_out overwrite route.logical_model todo s ≡ ok s'
      → Keeps overwrite (route ∷ []) s.0 s'.0
  unfolding carry_out
  carry_out-Keeps overwrite route (skip x) (reg, rep) (reg', rep') h =
      let e : reg ≡ reg' = ground arith in
      subst (λ x. Keeps overwrite (route ∷ []) reg x) e (Keeps-refl overwrite (route ∷ []) reg)
  carry_out-Keeps overwrite route (conflict x) (reg, rep) (reg', rep') h =
      let e : reg ≡ reg' = ground arith in
      subst (λ x. Keeps overwrite (route ∷ []) reg x) e (Keeps-refl overwrite (route ∷ []) reg)
  carry_out-Keeps overwrite route (broken x) s s' h = absurd (ground arith)
  carry_out-Keeps overwrite route (fits p m) (reg, rep) (reg', rep') h =
      elim (Bool-cases (is_some (lookup route.logical_model reg) && not overwrite)) [
        | inl y ↦
            let e : reg ≡ reg' = ground (arith, rw y at h) in
            subst (λ x. Keeps overwrite (route ∷ []) reg x) e
              (Keeps-refl overwrite (route ∷ []) reg)
        | inr n ↦
            let e : insert route.logical_model (row_of p m (lookup route.logical_model reg)) reg
                ≡ reg' =
              ground (arith, rw n at h) in
            subst (λ x. Keeps overwrite (route ∷ []) reg x) e
              (insert-Keeps overwrite route p m reg n)
      ]

  Keeps-trans :
      (overwrite : Bool) (route : Route) (routes : List Route) (a b c : Registry N F)
      → Keeps overwrite (route ∷ []) a b
      → Keeps overwrite routes b c
      → Keeps overwrite (route ∷ routes) a c
  Keeps-trans overwrite route routes a b c h g k r e =
      let (r', e', p', q') = h k r e in
      let (r'', e'', p'', q'') = g k r' e' in
      (r'', e'', p'' ∙ p', λ n. q'' (ground (arith, n)) ∙ q' (ground (arith, n)))

  carry_out-Counted :
      (overwrite : Bool) (destination : String) (todo : Plan N F) (s s' : State N F)
      → carry_out overwrite destination todo s ≡ ok s'
      → Counted 1 s.1 s'.1
  unfolding carry_out
  carry_out-Counted overwrite destination (skip x) (reg, rep) (reg', rep') h =
      ground (arith, length-append rep.reasons (x ∷ []))
  carry_out-Counted overwrite destination (conflict x) (reg, rep) (reg', rep') h =
      ground (arith, length-append rep.reasons (x ∷ []))
  carry_out-Counted overwrite destination (broken x) s s' h = absurd (ground arith)
  carry_out-Counted overwrite destination (fits p m) (reg, rep) (reg', rep') h =
      ground (arith, length-append rep.reasons ((destination ⧺ ": protected existing record") ∷ []))

  -- After a plan is carried out, a second time changes nothing, in any registry that has grown.
  abbrev Grows : Registry N F → Registry N F → Type 0
  Grows reg reg' = (k : String) → is_some (lookup k reg) ≡ true → is_some (lookup k reg') ≡ true

  abbrev Idle : (State N F → Result (State N F)) → Registry N F → Type 0
  Idle f reg =
      (rep : ImportReport)
      → (rep' : ImportReport) × (f (reg, rep) ≡ ok (reg, rep'))
        × (rep'.counts.new_ ≡ rep.counts.new_)

  Keeps-Grows :
      (overwrite : Bool) (routes : List Route) (a b : Registry N F)
      → Keeps overwrite routes a b
      → Grows a b
  Keeps-Grows overwrite routes a b h k t = elim (Option-cases (lookup k a)) [
    | inl e ↦ absurd (ground (arith, e, t))
    | inr (r, e) ↦ let (r', e', p, q) = h k r e in rw e' refl
  ]

  carry_out-held :
      (route : String) (p : ProviderRow) (m : MappedModel N F) (s s' : State N F)
      → carry_out false route (fits p m) s ≡ ok s'
      → is_some (lookup route s'.0) ≡ true
  unfolding carry_out
  carry_out-held route p m (reg, rep) (reg', rep') h =
      elim (Bool-cases (is_some (lookup route reg))) [
        | inl y ↦
            let e : reg ≡ reg' = ground (arith, rw y at h) in
            subst (λ x. is_some (lookup route x) ≡ true) e y
        | inr n ↦
            let e : insert route (row_of p m (lookup route reg)) reg ≡ reg' =
              ground (arith, rw n at h) in
            subst (λ x. is_some (lookup route x) ≡ true) e (rw (lookup-insert, beq_refl route) refl)
      ]

  carry_out_again :
      (route : String) (todo : Plan N F) (s s' : State N F) (later : Registry N F)
      → carry_out false route todo s ≡ ok s'
      → Grows s'.0 later
      → Idle (carry_out false route todo) later
  carry_out_again route (skip x) s s' later h g rep =
      (count_skipped x rep, unfold carry_out in refl, refl)
  carry_out_again route (conflict x) s s' later h g rep =
      (count_conflict x rep, unfold carry_out in refl, refl)
  carry_out_again route (broken x) s s' later h g rep = absurd (unfold carry_out in ground arith)
  carry_out_again route (fits p m) s s' later h g rep =
      let e = g route (carry_out-held route p m s s' h) in
      (
        count_conflict (route ⧺ ": protected existing record") rep,
        unfold carry_out in rw e refl,
        refl,
      )

module _ {N F : Type 0} (numbers : Numbers N F) (candidates : List (Candidate N))
    (tables : Tables) where
  abbrev rows : Bool → List Route → State N F → Result (State N F)
  rows = import_rows numbers candidates tables

  abbrev first : Bool → Route → State N F → Result (State N F)
  first overwrite route =
      carry_out overwrite route.logical_model (plan numbers candidates tables route)

  import_rows-Keeps :
      (overwrite : Bool) (routes : List Route) (s s' : State N F)
      → rows overwrite routes s ≡ ok s'
      → Keeps overwrite routes s.0 s'.0
  unfolding import_rows
  import_rows-Keeps overwrite [] (reg, rep) (reg', rep') h =
      let e : reg ≡ reg' = ground arith in
      subst (λ x. Keeps overwrite [] reg x) e (Keeps-refl overwrite [] reg)
  import_rows-Keeps overwrite (route ∷ routes) s s' h =
      let (t, e, f) = both_ok (first overwrite route s) (rows overwrite routes) h in
      Keeps-trans overwrite route routes s.0 t.0 s'.0 (carry_out-Keeps overwrite route _ s t e)
        (import_rows-Keeps overwrite routes t s' f)

  import_rows-Counted :
      (overwrite : Bool) (routes : List Route) (s s' : State N F)
      → rows overwrite routes s ≡ ok s'
      → Counted (length routes) s.1 s'.1
  unfolding import_rows
  import_rows-Counted overwrite [] (reg, rep) (reg', rep') h =
      let e : rep ≡ rep' = ground arith in subst (λ x. Counted 0 rep x) e (omega arith)
  import_rows-Counted overwrite (route ∷ routes) s s' h =
      let (t, e, f) = both_ok (first overwrite route s) (rows overwrite routes) h in
      omega (
        arith,
        carry_out-Counted overwrite route.logical_model _ s t e,
        import_rows-Counted overwrite routes t s' f,
      )

  import_rows_again :
      (routes : List Route) (s s' : State N F) (later : Registry N F)
      → rows false routes s ≡ ok s'
      → Grows s'.0 later
      → Idle (rows false routes) later
  unfolding import_rows
  import_rows_again [] s s' later h g rep = (rep, refl, refl)
  import_rows_again (route ∷ routes) s s' later h g rep =
      let (t, e, f) = both_ok (first false route s) (rows false routes) h in
      let w = Keeps-Grows false routes t.0 s'.0 (import_rows-Keeps false routes t s' f) in
      let (rep1, e1, n1) =
        carry_out_again route.logical_model _ s t later e (λ k x. g k (w k x)) rep in
      let (rep2, e2, n2) = import_rows_again routes t s' later f g rep1 in (rep2, rw e1 e2, n2 ∙ n1)

module _ {N F : Type 0} (numbers : Numbers N F) (tables : Tables) where
  run_of : Option (Value N) → Bool → Registry N F → Result (State N F)
  run_of root overwrite reg = read_catalog root >>= λ candidates.
      import_rows numbers candidates tables overwrite (enabled_routes tables) (reg, no_counts)

  import_json-run :
      (root : Option (Value N)) (overwrite : Bool) (reg : Registry N F)
      → import_json numbers tables root overwrite reg ≡ settle reg (run_of root overwrite reg)
  unfolding import_json run_of
  import_json-run root overwrite reg = refl

  run_of-parts :
      (root : Option (Value N)) (overwrite : Bool) (reg : Registry N F) (s : State N F)
      → run_of root overwrite reg ≡ ok s
      → (candidates : List (Candidate N)) × (read_catalog root ≡ ok candidates)
        × (import_rows numbers candidates tables overwrite (enabled_routes tables) (reg, no_counts)
            ≡ ok s)
  unfolding run_of
  run_of-parts root overwrite reg s h = both_ok (read_catalog root) _ h

  kept :
      (root : Option (Value N)) (overwrite : Bool) (reg : Registry N F)
      → Keeps overwrite
          (enabled_routes tables)
          reg
          (import_json numbers tables root overwrite reg).0
        × ((is_ok (import_json numbers tables root overwrite reg).1 ≡ true)
            ⊎ ((import_json numbers tables root overwrite reg).0 ≡ reg))
  kept root overwrite reg = elim (Result-cases (run_of root overwrite reg)) [
    | inl (s, e) ↦
        let (candidates, c, h) = run_of-parts root overwrite reg s e in
        rw (import_json-run root overwrite reg, e)
          (import_rows-Keeps numbers candidates tables overwrite _ _ s h, inl refl)
    | inr (x, e) ↦ rw (import_json-run root overwrite reg, e) (Keeps-refl overwrite _ reg, inr refl)
  ]

  -- Whatever comes of an import, a row that the registry held is still there and enabled or not as
  -- before, and it is unchanged unless the import overwrites and an enabled route has its id. An
  -- import that does not succeed leaves the registry as it was.
  pub import_json-keeps :
      (root : Option (Value N)) (overwrite : Bool) (reg : Registry N F) (k : String)
      (r : RegistryRow N F)
      → lookup k reg ≡ some r
      → ((r' : RegistryRow N F) × (lookup k (import_json numbers tables root overwrite reg).0
            ≡ some r')
          × (r'.enabled ≡ r.enabled)
          × (((overwrite && any (λ route. route.logical_model == k) (enabled_routes tables)) ≡ true)
              ⊎ (r' ≡ r)))
        × ((is_ok (import_json numbers tables root overwrite reg).1 ≡ true)
            ⊎ ((import_json numbers tables root overwrite reg).0 ≡ reg))
  import_json-keeps root overwrite reg k r h =
      let (keeps, rolled_back) = kept root overwrite reg in
      let (r', e, p, q) = keeps k r h in ((r', e, p, split _ q), rolled_back)
    where
      split : {A : Type 0} (b : Bool) → (b ≡ false → A) → (b ≡ true) ⊎ A
      split true f = inl refl
      split false f = inr (f refl)

  succeeded :
      (root : Option (Value N)) (overwrite : Bool) (reg : Registry N F) (rep : ImportReport)
      → (import_json numbers tables root overwrite reg).1 ≡ ok rep
      → (reg' : Registry N F) × (import_json numbers tables root overwrite reg ≡ (reg', ok rep))
        × (run_of root overwrite reg ≡ ok (reg', rep))
  succeeded root overwrite reg rep h = elim (Result-cases (run_of root overwrite reg)) [
    | inl ((reg', rep'), e) ↦
        let f = import_json-run root overwrite reg ∙ ap (λ r. settle reg r) e in
        let q : rep' ≡ rep =
          ground (arith, ap (λ (x : Registry N F × Result ImportReport). x.1) f, h) in
        (
          reg',
          subst (λ x. import_json numbers tables root overwrite reg ≡ (reg', ok x)) q f,
          subst (λ x. run_of root overwrite reg ≡ ok (reg', x)) q e,
        )
    | inr (x, e) ↦ absurd (
        ground (
          arith,
          ap (λ (y : Registry N F × Result ImportReport). y.1)
              (import_json-run root overwrite reg ∙ ap (λ r. settle reg r) e),
          h,
        ))
  ]

  -- The report of an import that succeeds: every enabled route is counted once, as new, skipped or
  -- a conflict, none as failed, and a reason is given for each one that is skipped or a conflict.
  pub import_json-counts :
      (root : Option (Value N)) (overwrite : Bool) (reg : Registry N F) (rep : ImportReport)
      → (import_json numbers tables root overwrite reg).1 ≡ ok rep
      → (rep.counts.new_ + rep.counts.skipped + rep.counts.conflicts
          ≡ length (enabled_routes tables))
        × (rep.counts.failed ≡ 0)
        × (length rep.reasons ≡ rep.counts.skipped + rep.counts.conflicts)
  import_json-counts root overwrite reg rep h =
      let (reg', e, r) = succeeded root overwrite reg rep h in
      let (candidates, c, s) = run_of-parts root overwrite reg (reg', rep) r in
      omega (arith, import_rows-Counted numbers candidates tables overwrite _ _ _ s)

  -- A second import of the same catalog, without overwriting, succeeds too, adds no model and
  -- leaves the registry as the first one did.
  pub import_json_again :
      (root : Option (Value N)) (reg : Registry N F) (rep : ImportReport)
      → (import_json numbers tables root false reg).1 ≡ ok rep
      → (rep' : ImportReport) × (import_json numbers tables root false
            (import_json numbers tables root false reg).0
          ≡ ((import_json numbers tables root false reg).0, ok rep'))
        × (rep'.counts.new_ ≡ 0)
  import_json_again root reg rep h =
      let (reg', e, r) = succeeded root false reg rep h in
      let (candidates, c, s) = run_of-parts root false reg (reg', rep) r in
      let (rep', f, n) =
        import_rows_again numbers candidates tables (enabled_routes tables) _ _ reg' s (λ k x. x)
          no_counts in
      (rep', rw (e, import_json-run root false reg') (unfold run_of in rw (c, f) refl), n)
