-- ===== src/ModelImport/Mapping/Safe.antt =====
-- No field with a sensitive name is stored with a model.
use llm_proxy.Prelude.{
  String, ◌≡◌, refl, ◌∙◌, subst, inl, inr, Bool, true, false, not, ◌&&◌, Option, none, some, arith,
  if◌then◌else◌, Bool-cases, is_some, find-All, ◌==◌, pair_eq, string_eq, nat_eq,
}
use llm_proxy.Json.{
  Value, null, boolean, number, string, array, object, Items, no_items, item, Fields, no_fields,
  field, get, put, cut, get-put, get-cut, value_get, as_str, as_object,
}
use llm_proxy.ModelCatalog.{thinking_level_order, canonical_thinking_level}
use llm_proxy.ModelImport.Mapping.{
  Numbers, Checked, ◌>>=◌, ok_or_text, unless_blank, MappedModel, sensitive, canonical_of, sanitize,
  sanitize_items, sanitize_fields, put_value, put_values, none_if_empty, effort_values, levels_of,
  thinking_level_map, add_level_map, trimmed_object, capabilities, positive_i64, prices, map_model,
}
use text.Mathlib.TextEquality.{eq_iff}
use mathlib.Core.Option

unfoldable mutual
  pub is_clean : {N : Type 0} → Value N → Bool
  is_clean null = true
  is_clean (boolean b) = true
  is_clean (number n) = true
  is_clean (string s) = true
  is_clean (array xs) = is_clean_items xs
  is_clean (object fs) = is_clean_fields fs

  pub is_clean_items : {N : Type 0} → Items N → Bool
  is_clean_items no_items = true
  is_clean_items (item v xs) = is_clean v && is_clean_items xs

  pub is_clean_fields : {N : Type 0} → Fields N → Bool
  is_clean_fields no_fields = true
  is_clean_fields (field k v fs) = not (sensitive k) && (is_clean v && is_clean_fields fs)

mutual
  unfolding is_clean sanitize

  sanitized : {N : Type 0} (v : Value N) → is_clean (sanitize v) ≡ true
  sanitized null = refl
  sanitized (boolean b) = refl
  sanitized (number n) = refl
  sanitized (string s) = refl
  sanitized (array xs) = sanitized_items xs
  sanitized (object fs) = sanitized_fields fs

  sanitized_items : {N : Type 0} (xs : Items N) → is_clean_items (sanitize_items xs) ≡ true
  sanitized_items no_items = refl
  sanitized_items (item v xs) = ground (arith, sanitized v, sanitized_items xs)

  sanitized_fields : {N : Type 0} (fs : Fields N) → is_clean_fields (sanitize_fields fs) ≡ true
  sanitized_fields no_fields = refl
  sanitized_fields (field k v fs) = ground (arith, sanitized v, sanitized_fields fs)

canonical-plain : (s l : String) → canonical_thinking_level s ≡ some l → sensitive l ≡ false
unfolding canonical_thinking_level sensitive
canonical-plain s l h = elim (Bool-cases (s == "none")) [
  | inl e ↦ let q : "off" ≡ l = ground (arith, rw e at h) in subst (λ x. sensitive x ≡ false) q refl
  | inr e ↦
      find-All (λ x. sensitive x ≡ false) (λ x. x == s) thinking_level_order l
        (refl, (refl, (refl, (refl, (refl, (refl, (refl, tt))))))) (rw e at h)
]

-- A name of a field that the mapping leaves to the metadata.
abbrev pub IsOwn : String → Type 0
IsOwn k = (("id" == k) ≡ false) × (("name" == k) ≡ false) × (("thinkingLevelMap" == k) ≡ false)

-- What every value of a fallible step satisfies.
data Yields {A : Type 0} (P : A → Type 0) : Checked A → Type 0 where
  fails : (e : String) → Yields P (inl e)
  gives : (a : A) → P a → Yields P (inr a)

Yields->>= :
    {A B : Type 0} {P : B → Type 0} (m : Checked A) {f : A → Checked B}
    → ((a : A) → Yields P (f a))
    → Yields P (m >>= f)
Yields->>= (inl e) h = fails e
Yields->>= (inr a) h = h a

Yields-inr : {A : Type 0} {P : A → Type 0} {m : Checked A} → Yields P m → (a : A) → m ≡ inr a → P a
Yields-inr (fails e) a h = absurd (ground arith)
Yields-inr {P = P} (gives b p) a h = let e : b ≡ a = ground arith in subst P e p

module _ {N : Type 0} where
  is_clean-put :
      (k : String) (v : Value N) (fs : Fields N)
      → sensitive k ≡ false
      → is_clean v ≡ true
      → is_clean_fields fs ≡ true
      → is_clean_fields (put k v fs) ≡ true
  unfolding is_clean put
  is_clean-put k v no_fields p q r = ground arith
  is_clean-put k v (field j w fs) p q r = ground (arith, is_clean-put k v fs, eq_iff j k)

  is_clean-cut :
      (k : String) (fs : Fields N) → is_clean_fields fs ≡ true → is_clean_fields (cut k fs) ≡ true
  unfolding is_clean cut
  is_clean-cut k no_fields p = refl
  is_clean-cut k (field j w fs) p = ground (arith, is_clean-cut k fs)

  is_clean-put_level :
      (levels : Fields N) (level : String) (c : Option String)
      → ((l : String) → c ≡ some l → sensitive l ≡ false)
      → is_clean_fields levels ≡ true
      → is_clean_fields (put_value (some level) c levels) ≡ true
  is_clean-put_level levels level none h p = p
  is_clean-put_level levels level (some l) h p =
      is_clean-put l (string level) levels (h l refl) (unfold is_clean in refl) p

  is_clean-put_value :
      (levels : Fields N) (level : Option String)
      → is_clean_fields levels ≡ true
      → is_clean_fields (put_value level (canonical_of level) levels) ≡ true
  is_clean-put_value levels none p = p
  is_clean-put_value levels (some level) p =
      is_clean-put_level levels level (canonical_thinking_level level) (canonical-plain level) p

  is_clean-put_values :
      (levels : Fields N) (values : Items N)
      → is_clean_fields levels ≡ true
      → is_clean_fields (put_values levels values) ≡ true
  unfolding put_values
  is_clean-put_values levels no_items p = p
  is_clean-put_values levels (item value values) p =
      is_clean-put_values
        (put_value (unless_blank (as_str (some value)))
          (canonical_of (unless_blank (as_str (some value)))) levels)
        values (is_clean-put_value levels (unless_blank (as_str (some value))) p)

  -- What a name holds after the sanitising.
  get-sanitize_fields :
      (k : String) (fs : Fields N)
      → get k (sanitize_fields fs) ≡ (if sensitive k then none else Option.map sanitize (get k fs))
  unfolding get sanitize
  get-sanitize_fields k no_fields = ground arith
  get-sanitize_fields k (field j v fs) = ground (arith, get-sanitize_fields k fs, eq_iff j k)

  -- The thinking levels that are added.
  is_clean-levels_of :
      (o : Option (Items N)) (levels : Fields N)
      → levels_of o ≡ some levels
      → is_clean_fields levels ≡ true
  is_clean-levels_of none levels h = absurd (ground arith)
  is_clean-levels_of (some values) levels h =
      let e : put_values no_fields values ≡ levels =
        none_if_empty-eq (put_values no_fields values) h in
      subst (λ x. is_clean_fields x ≡ true) e
        (is_clean-put_values no_fields values (unfold is_clean in refl))
    where
      none_if_empty-eq : (fs : Fields N) → none_if_empty fs ≡ some levels → fs ≡ levels
      none_if_empty-eq no_fields h = absurd (ground arith)
      none_if_empty-eq (field k v fs) h = ground arith

  is_clean-add_level_map :
      (o : Option (Items N)) (fs : Fields N)
      → is_clean_fields fs ≡ true
      → is_clean_fields (add_level_map (levels_of o) fs) ≡ true
  is_clean-add_level_map o fs p = go (levels_of o) (is_clean-levels_of o)
    where
      go :
          (l : Option (Fields N))
          → ((levels : Fields N) → l ≡ some levels → is_clean_fields levels ≡ true)
          → is_clean_fields (add_level_map l fs) ≡ true
      go none h = p
      go (some levels) h =
          is_clean-put "thinkingLevelMap" (object levels) fs (unfold sensitive in refl)
            (unfold is_clean in h levels refl) p

  is_clean-trimmed_object :
      (o : Option (Items N)) (fs : Fields N)
      → is_clean_fields fs ≡ true
      → is_clean_fields (trimmed_object fs (levels_of o)) ≡ true
  is_clean-trimmed_object o fs p = elim (Bool-cases (is_some (get "thinkingLevelMap" fs))) [
    | inl e ↦ rw e p
    | inr e ↦ rw e (is_clean-add_level_map o fs p)
  ]

  get-trimmed_object :
      (k : String) (fs : Fields N) (levels : Option (Fields N))
      → ("thinkingLevelMap" == k) ≡ false
      → get k (trimmed_object fs levels) ≡ get k fs
  get-trimmed_object k fs none h = ground arith
  get-trimmed_object k fs (some levels) h =
      elim (Bool-cases (is_some (get "thinkingLevelMap" fs))) [
        | inl e ↦ rw e refl
        | inr e ↦ rw e (rw (get-put, h) refl)
      ]

  abbrev stored : Fields N → Fields N
  stored o =
      trimmed_object (cut "name" (cut "id" (sanitize_fields o)))
        (levels_of (effort_values (object o)))

  map_model-Yields :
      {F : Type 0} (numbers : Numbers N F) (id : String) (model : Value N)
      → Yields
          (λ (m : MappedModel N F). m.caps ≡ capabilities id model)
          (map_model numbers id model)
  unfolding map_model
  map_model-Yields numbers id model =
      Yields->>=
        (ok_or_text (unless_blank (as_str (value_get "name" model))) "model name must be non-empty")
        λ name.
          Yields->>= (ok_or_text (as_object (value_get "limit" model)) "limit must be an object")
            λ limit.
              Yields->>= (positive_i64 numbers (get "context" limit) "limit.context") λ context.
                Yields->>= (positive_i64 numbers (get "output" limit) "limit.output")
                  λ output. Yields->>= (prices numbers (value_get "cost" model)) λ p. gives _ refl

  map_model-caps :
      {F : Type 0} (numbers : Numbers N F) (id : String) (o : Fields N) (m : MappedModel N F)
      → map_model numbers id (object o) ≡ inr m
      → value_get "metadata" m.caps ≡ some (object (stored o))
  unfolding map_model sanitize thinking_level_map value_get get
  map_model-caps numbers id o m h =
      rw (Yields-inr (map_model-Yields numbers id (object o)) m h) refl

  -- The metadata that is stored with an imported model names no sensitive field, at any depth; and
  -- every other field of the model but its id, its name and its thinking levels is there,
  -- sanitised.
  pub map_model-clean :
      {F : Type 0} (numbers : Numbers N F) (id : String) (o : Fields N) (m : MappedModel N F)
      (k : String)
      → map_model numbers id (object o) ≡ inr m
      → IsOwn k
      → (fs : Fields N) × (value_get "metadata" m.caps ≡ some (object fs))
        × (is_clean (object fs) ≡ true)
        × (get k fs ≡ (if sensitive k then none else Option.map sanitize (get k o)))
  map_model-clean numbers id o m k h (a, b, c) = (
    stored o,
    map_model-caps numbers id o m h,
    unfold is_clean in
        is_clean-trimmed_object (effort_values (object o)) _
          (is_clean-cut "name" _ (is_clean-cut "id" _ (sanitized_fields o))),
    get-trimmed_object k _ _ c ∙ simp (get-cut, a, b) (get-sanitize_fields k o),
  )
