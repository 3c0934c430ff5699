-- ===== src/ModelCatalog/Levels.antt =====
-- Which levels a request may ask for, beside those that are advertised.
use llm_proxy.Prelude.{
  String, ◌≡◌, refl, sym, ap, ◌∙◌, subst, inl, inr, Bool, true, false, not, ◌&&◌, ◌||◌, Option,
  none, some, List, [], ◌∷◌, arith, if◌then◌else◌, Bool-cases, is_some, is_empty, filter_by, any,
  find, ◌==◌, eq_of_beq, pair_eq, string_eq, nat_eq,
}
use llm_proxy.AppError.{is_ok}
use llm_proxy.Json.{
  Value, null, boolean, number, string, array, object, Fields, no_fields, field, get, get-put,
}
use llm_proxy.ModelCatalog.{
  thinking_level_order, canonical_thinking_level, is_level, level_map, find_level, set_effort,
  translate_reasoning_effort, put_level, collect_levels, unless_empty, registry_thinking_level_map,
  levels_in, reasoning_thinking_levels, advertised_levels,
}
use text.Mathlib.TextEquality.{eq_iff}

any-filter_by :
    (l : String) (p : String → Bool) (xs : List String)
    → any (λ x. x == l) (filter_by p xs) ≡ (any (λ x. x == l) xs && p l)
any-filter_by l p [] = refl
any-filter_by l p (x ∷ xs) = elim (Bool-cases (x == l)) [
  | inl e ↦ let q : p x ≡ p l = ap p (eq_of_beq x l e) in ground (arith, any-filter_by l p xs, e, q)
  | inr e ↦ ground (arith, any-filter_by l p xs, e)
]

find-any :
    (s l : String) (xs : List String) → find (λ x. x == s) xs ≡ some l → any (λ x. x == l) xs ≡ true
find-any s l [] h = absurd (ground arith)
find-any s l (x ∷ xs) h = ground (arith, find-any s l xs, eq_iff x l)

-- A canonical level is one of the order.
canonical-any :
    (s l : String)
    → canonical_thinking_level s ≡ some l
    → any (λ x. x == l) thinking_level_order ≡ true
unfolding canonical_thinking_level
canonical-any s l h = elim (Bool-cases (s == "none")) [
  | inl e ↦
      let q : "off" ≡ l = ground (arith, rw e at h) in
      subst (λ x. any (λ y. y == x) thinking_level_order ≡ true) q refl
  | inr e ↦ find-any s l thinking_level_order (rw e at h)
]

any-advertised :
    (l : String) (own configured : List String)
    → any (λ x. x == l) own
      ≡ (not (is_empty own) && any (λ x. x == l) (if is_empty own then configured else own))
any-advertised l [] configured = refl
any-advertised l (x ∷ own) configured = refl

module _ {N : Type 0} where
  abbrev is_text : Value N → Bool
  is_text (string s) = true
  is_text v = false

  abbrev pub are_texts : Fields N → Bool
  are_texts no_fields = true
  are_texts (field k v fs) = is_text v && are_texts fs

  get-put_level :
      (l : String) (out : Fields N) (o : Option String) (v : Value N)
      → is_some (get l (put_level out o v)) ≡ (is_level l o || is_some (get l out))
  get-put_level l out none v = refl
  get-put_level l out (some c) v = rw get-put (ground arith)

  find_level_next :
      (l k : String) (v : Value N) (fs : Fields N)
      → is_some (find_level l (field k v fs))
        ≡ (is_level l (canonical_thinking_level k) || is_some (find_level l fs))
  unfolding find_level
  find_level_next l k v fs = ground arith

  get-collect_levels :
      (l : String) (fs out : Fields N)
      → are_texts fs ≡ true
      → is_some (get l (collect_levels out fs)) ≡ (is_some (get l out) || is_some (find_level l fs))
  unfolding collect_levels find_level
  get-collect_levels l no_fields out a = ground arith
  get-collect_levels l (field k (string s) fs) out a =
      let c = get-collect_levels l fs (put_level out (canonical_thinking_level k) (string s)) a in
      let d = get-put_level l out (canonical_thinking_level k) (string s) in
      let e = find_level_next l k (string s) fs in
      c
      ∙ ap (λ x. x || is_some (find_level l fs)) d
      ∙ moved (is_level l (canonical_thinking_level k)) (is_some (get l out))
          (is_some (find_level l fs))
      ∙ ap (λ x. is_some (get l out) || x) (sym e)
    where
      moved : (x y z : Bool) → ((x || y) || z) ≡ (y || (x || z))
      moved x y z = ground arith
  get-collect_levels l (field k null fs) out a = absurd (ground (arith, a))
  get-collect_levels l (field k (boolean b) fs) out a = absurd (ground (arith, a))
  get-collect_levels l (field k (number n) fs) out a = absurd (ground (arith, a))
  get-collect_levels l (field k (array x) fs) out a = absurd (ground (arith, a))
  get-collect_levels l (field k (object x) fs) out a = absurd (ground (arith, a))

  find_level-text :
      (l : String) (fs : Fields N) (v : Value N)
      → are_texts fs ≡ true
      → find_level l fs ≡ some v
      → is_text v ≡ true
  unfolding find_level
  find_level-text l no_fields v a h = absurd (ground arith)
  find_level-text l (field k w fs) v a h = ground (arith, find_level-text l fs v, a)

  levels_in-unless_empty :
      (l : String) (m : Fields N)
      → any (λ x. x == l) thinking_level_order ≡ true
      → any (λ x. x == l) (levels_in (unless_empty m)) ≡ is_some (get l m)
  unfolding get
  levels_in-unless_empty l no_fields h = refl
  levels_in-unless_empty l (field k v fs) h =
      any-filter_by l (λ x. is_some (get x (field k v fs))) thinking_level_order
      ∙ ap (λ b. b && is_some (get l (field k v fs))) h

  set_effort-is_ok :
      (id effort : String) (extra : Fields N) (o : Option (Value N))
      → ((v : Value N) → o ≡ some v → is_text v ≡ true)
      → is_ok (set_effort id effort extra o) ≡ is_some o
  set_effort-is_ok id effort extra none h = refl
  set_effort-is_ok id effort extra (some (string s)) h = refl
  set_effort-is_ok id effort extra (some null) h = absurd (ground (arith, h null refl))
  set_effort-is_ok id effort extra (some (boolean b)) h =
      absurd (ground (arith, h (boolean b) refl))
  set_effort-is_ok id effort extra (some (number n)) h = absurd (ground (arith, h (number n) refl))
  set_effort-is_ok id effort extra (some (array x)) h = absurd (ground (arith, h (array x) refl))
  set_effort-is_ok id effort extra (some (object x)) h = absurd (ground (arith, h (object x) refl))

  translate_reasoning_effort-own :
      (id effort level : String) (caps : Option (Value N)) (extra levels : Fields N)
      → level_map caps ≡ some levels
      → are_texts levels ≡ true
      → get "reasoning_effort" extra ≡ some (string effort)
      → canonical_thinking_level effort ≡ some level
      → is_ok (translate_reasoning_effort id caps (object extra))
        ≡ any (λ x. x == level) (reasoning_thinking_levels caps)
  unfolding translate_reasoning_effort reasoning_thinking_levels registry_thinking_level_map get
  translate_reasoning_effort-own id effort level caps extra levels m a g c =
      rw (g, m, c)
        (set_effort-is_ok id effort extra (find_level level levels)
            (λ v. find_level-text level levels v a)
          ∙ sym (get-collect_levels level levels no_fields a)
          ∙ sym (
              levels_in-unless_empty level (collect_levels no_fields levels)
                (canonical-any effort level c)))

  -- For a model whose level map has only texts, a request that asks for a canonical level, under
  -- any of its names, is accepted exactly if the model has canonical levels of its own and that
  -- level is advertised. So every level is refused, also an advertised one, where the map names no
  -- canonical level and the configured levels are advertised in its place.
  pub translate_reasoning_effort-is_ok :
      (id effort level : String) (caps : Option (Value N)) (extra levels : Fields N)
      (configured : List String)
      → level_map caps ≡ some levels
      → are_texts levels ≡ true
      → get "reasoning_effort" extra ≡ some (string effort)
      → canonical_thinking_level effort ≡ some level
      → is_ok (translate_reasoning_effort id caps (object extra)) ≡ (
          not (is_empty (reasoning_thinking_levels caps))
          && any (λ x. x == level) (advertised_levels configured caps))
  translate_reasoning_effort-is_ok id effort level caps extra levels configured m a g c =
      translate_reasoning_effort-own id effort level caps extra levels m a g c
      ∙ any-advertised level (reasoning_thinking_levels caps) configured
