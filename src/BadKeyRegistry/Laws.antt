-- ===== src/BadKeyRegistry/Laws.antt =====
-- `is_bad` after each operation, and what `all_bad` counts.
use llm_proxy.Prelude.{
  String, ◌≡◌, refl, ◌≢◌, inl, inr, true, false, not, ◌&&◌, ◌||◌, Option, none, some, List, [], ◌∷◌,
  ◌++◌, arith, if◌then◌else◌, Bool-cases, get_or, is_empty, any, any-append, ◌==◌, beq_refl,
  pair_eq, string_eq, nat_eq,
}
use llm_proxy.Prelude.Assoc.{lookup, insert, remove, lookup-insert, lookup-remove}
use llm_proxy.BadKeyRegistry.{
  BadKeyRegistry, mark_bad, contains, is_bad, all_bad, retained, remove_found, remove_bad,
}
use text.Mathlib.TextEquality.{eq_iff}

contains-marked :
    (o : Option (List String)) (h j : String)
    → contains j (some (get_or o [] ++ h ∷ [])) ≡ (contains j o || h == j)
contains-marked none h j = ground arith
contains-marked (some list) h j = rw any-append (ground arith)

is_bad-mark_bad_self :
    (bad : BadKeyRegistry) (p h j : String)
    → is_bad (mark_bad bad p h) p j ≡ (is_bad bad p j || h == j)
unfolding is_bad mark_bad
is_bad-mark_bad_self bad p h j = rw (lookup-insert, beq_refl p) (contains-marked (lookup p bad) h j)

is_bad-mark_bad_other :
    (bad : BadKeyRegistry) (p h q j : String)
    → (p == q) ≡ false
    → is_bad (mark_bad bad p h) q j ≡ is_bad bad q j
unfolding is_bad mark_bad
is_bad-mark_bad_other bad p h q j e = rw (lookup-insert, e)

-- Marking a key excludes that key in that pool, and changes no other answer of `is_bad`.
pub is_bad-mark_bad :
    (bad : BadKeyRegistry) (p h q j : String)
    → is_bad (mark_bad bad p h) q j ≡ (is_bad bad q j || (p == q && h == j))
is_bad-mark_bad bad p h q j =
    ground (arith, eq_iff p q, is_bad-mark_bad_self bad p h j, is_bad-mark_bad_other bad p h q j)

contains-retained :
    (h j : String) (list : List String)
    → any (λ k. k == j) (retained h list) ≡ (any (λ k. k == j) list && not (h == j))
contains-retained h j [] = ground arith
contains-retained h j (x ∷ xs) =
    ground (arith, contains-retained h j xs, eq_iff x h, eq_iff x j, eq_iff h j)

contains-remove_found :
    (h j : String) (list : List String)
    → contains j (if is_empty (retained h list) then none else some (retained h list))
      ≡ (any (λ k. k == j) list && not (h == j))
contains-remove_found h j list = ground (arith, contains-retained h j list)

is_bad-remove_found_self :
    (bad : BadKeyRegistry) (p h j : String) (o : Option (List String))
    → lookup p bad ≡ o
    → is_bad (remove_found bad p h o) p j ≡ (contains j o && not (h == j))
unfolding is_bad
is_bad-remove_found_self bad p h j none e = rw e
is_bad-remove_found_self bad p h j (some list) e = elim (Bool-cases (is_empty (retained h list))) [
  | inl t ↦ rw (t, lookup-remove, beq_refl p) (rw t at (contains-remove_found h j list))
  | inr t ↦ rw (t, lookup-insert, beq_refl p) (rw t at (contains-remove_found h j list))
]

is_bad-remove_found_other :
    (bad : BadKeyRegistry) (p h q j : String) (o : Option (List String))
    → (p == q) ≡ false
    → is_bad (remove_found bad p h o) q j ≡ is_bad bad q j
unfolding is_bad
is_bad-remove_found_other bad p h q j none e = refl
is_bad-remove_found_other bad p h q j (some list) e =
    elim (Bool-cases (is_empty (retained h list))) [
      | inl t ↦ rw (t, lookup-remove, e)
      | inr t ↦ rw (t, lookup-insert, e)
    ]

is_bad-remove_bad_self :
    (bad : BadKeyRegistry) (p h j : String)
    → is_bad (remove_bad bad p h) p j ≡ (is_bad bad p j && not (h == j))
unfolding remove_bad is_bad
is_bad-remove_bad_self bad p h j = is_bad-remove_found_self bad p h j (lookup p bad) refl

is_bad-remove_bad_other :
    (bad : BadKeyRegistry) (p h q j : String)
    → (p == q) ≡ false
    → is_bad (remove_bad bad p h) q j ≡ is_bad bad q j
unfolding remove_bad
is_bad-remove_bad_other bad p h q j = is_bad-remove_found_other bad p h q j (lookup p bad)

-- Removing a key makes it usable in that pool, however often it was marked, and changes no other
-- answer of `is_bad`.
pub is_bad-remove_bad :
    (bad : BadKeyRegistry) (p h q j : String)
    → is_bad (remove_bad bad p h) q j ≡ (is_bad bad q j && not (p == q && h == j))
is_bad-remove_bad bad p h q j =
    ground
      (arith, eq_iff p q, is_bad-remove_bad_self bad p h j, is_bad-remove_bad_other bad p h q j)

-- No pool is left with an empty list.
abbrev pub HasNoEmpty : BadKeyRegistry → Type 0
HasNoEmpty bad = (p : String) → lookup p bad ≢ some []

insert-HasNoEmpty :
    (bad : BadKeyRegistry) (p : String) (list : List String)
    → is_empty list ≡ false
    → HasNoEmpty bad
    → HasNoEmpty (insert p list bad)
insert-HasNoEmpty bad p list f h q = rw (lookup-insert p q list bad) (ground (arith, h q))

remove-HasNoEmpty : (bad : BadKeyRegistry) (p : String) → HasNoEmpty bad → HasNoEmpty (remove p bad)
remove-HasNoEmpty bad p h q = rw (lookup-remove p q bad) (ground (arith, h q))

remove_found-HasNoEmpty :
    (bad : BadKeyRegistry) (p h : String) (o : Option (List String))
    → HasNoEmpty bad
    → HasNoEmpty (remove_found bad p h o)
remove_found-HasNoEmpty bad p h none n = n
remove_found-HasNoEmpty bad p h (some list) n = elim (Bool-cases (is_empty (retained h list))) [
  | inl t ↦ rw t (remove-HasNoEmpty bad p n)
  | inr t ↦ rw t (insert-HasNoEmpty bad p (retained h list) t n)
]

append-is_empty : (xs : List String) (x : String) → is_empty (xs ++ x ∷ []) ≡ false
append-is_empty [] x = refl
append-is_empty (y ∷ xs) x = refl

-- `mark_bad` and `remove_bad` keep every pool of the registry non-empty: a pool is listed only
-- while one of its keys is bad.
pub mark_remove-HasNoEmpty :
    (bad : BadKeyRegistry) (p h : String)
    → HasNoEmpty bad
    → HasNoEmpty (mark_bad bad p h) × HasNoEmpty (remove_bad bad p h)
unfolding mark_bad remove_bad
mark_remove-HasNoEmpty bad p h n = (
  insert-HasNoEmpty bad p _ (append-is_empty _ h) n,
  remove_found-HasNoEmpty bad p h (lookup p bad) n,
)

lookup-mark_bad_self :
    (bad : BadKeyRegistry) (p h : String)
    → lookup p (mark_bad bad p h) ≡ some (get_or (lookup p bad) [] ++ h ∷ [])
unfolding mark_bad
lookup-mark_bad_self bad p h = rw (lookup-insert, beq_refl p)

-- The fault of `all_bad`: it counts marks, so a key that is marked twice makes a pool of two keys
-- count as all bad, while every other key of it is usable.
pub all_bad-marked_twice :
    (bad : BadKeyRegistry) (p h j : String)
    → lookup p bad ≡ none
    → (h == j) ≡ false
    → (all_bad (mark_bad (mark_bad bad p h) p h) p 2 ≡ true)
      × (is_bad (mark_bad (mark_bad bad p h) p h) p j ≡ false)
unfolding all_bad is_bad
all_bad-marked_twice bad p h j e n =
    rw (lookup-mark_bad_self (mark_bad bad p h) p h, lookup-mark_bad_self bad p h, e)
      (refl, ground (arith, n))
