-- ===== src/ResponseNormalize/Needles.antt =====
-- What the search for a tag and the search for a held tail return.
use llm_proxy.Prelude.{
  ℕ, ◌≤◌, String, ◌≡◌, refl, sym, ap, ◌∙◌, inl, inr, Bool, true, not, ◌&&◌, ◌||◌, Option, none,
  some, List, [], ◌∷◌, ◌++◌, arith, leb, Bool-cases, any, All, ◌==◌,
}
use llm_proxy.Prelude.{pair_eq, string_eq, nat_eq}
use llm_proxy.Prelude.Text.{prepend_char, split_first, split_first-append, nil-append, cons-append}
use llm_proxy.ResponseNormalize.{
  State, in_text, in_reasoning, TagKind, Pairs, ThinkTagAccumulator, Found, close_needle,
  pair_needles, needles, better, best_of, occurrence, pick, find_next_tag, may_begin_tag, hold_here,
  last_or, hold_position,
}
use Prim.Native.Char.{Char}
use Prim.Native.String.{[] as nil, ◌∷◌ as ◌⊳◌, ◌++◌ as ◌⧺◌, len}
use text.Mathlib.TextEquality.{eq_iff}

-- `t` is a tag of a pair, and not empty.
abbrev names_tag : Pairs → String → Bool
names_tag pairs t = any (λ (o, c). o == t || c == t) pairs && not (t == "")

abbrev pub IsTag : Pairs → String → Type 0
IsTag pairs t = names_tag pairs t ≡ true

IsTag-later :
    (p : String × String) (pairs : Pairs) (t : String) → IsTag pairs t → IsTag (p ∷ pairs) t
IsTag-later (o, c) pairs t h = ground (arith, h)

abbrev IsNeedle : Pairs → String × TagKind → Type 0
IsNeedle pairs (t, kind) = IsTag pairs t

module _ {ℓ κ μ} {A : Type ℓ} {P : A → Type κ} {Q : A → Type μ} where
  All-map : ((a : A) → P a → Q a) → (xs : List A) → All P xs → All Q xs
  All-map f [] h = tt
  All-map f (x ∷ xs) (p, h) = (f x p, All-map f xs h)

pub All-append {ℓ κ} :
    {A : Type ℓ} (P : A → Type κ) (xs ys : List A) → All P xs → All P ys → All P (xs ++ ys)
All-append P [] ys h k = k
All-append P (x ∷ xs) ys (p, h) k = (p, All-append P xs ys h k)

close_needle-All :
    (st : State) (o c : String) (pairs : Pairs)
    → All (IsNeedle ((o, c) ∷ pairs)) (close_needle st c)
close_needle-All in_text o c pairs = tt
close_needle-All in_reasoning o c pairs = elim (Bool-cases (c == "")) [
  | inl e ↦ rw e tt
  | inr e ↦ rw e (ground (arith, eq_iff c c, e), tt)
]

pair_needles-All :
    (st : State) (p : String × String) (pairs : Pairs)
    → All (IsNeedle (p ∷ pairs)) (pair_needles st p)
pair_needles-All st (o, c) pairs = elim (Bool-cases (o == "")) [
  | inl e ↦ rw e tt
  | inr e ↦ rw e (ground (arith, eq_iff o o, e), close_needle-All st o c pairs)
]

pub needles-All : (st : State) (pairs : Pairs) → All (IsNeedle pairs) (needles st pairs)
unfolding needles
needles-All st [] = tt
needles-All st (p ∷ pairs) =
    All-append (IsNeedle (p ∷ pairs)) (pair_needles st p) (needles st pairs)
      (pair_needles-All st p pairs)
      (All-map (λ (t, kind). IsTag-later p pairs t) (needles st pairs) (needles-All st pairs))

-- A tag of the pairs with what stands before and after it.
abbrev pub IsHit : Pairs → String → Option Found → Type 0
IsHit pairs s none = Unit
IsHit pairs s (some f) = IsTag pairs f.tag × (s ≡ f.before ⧺ (f.tag ⧺ f.after))

best_of-IsHit :
    (pairs : Pairs) (s : String) (b f : Option Found)
    → IsHit pairs s b
    → IsHit pairs s f
    → IsHit pairs s (best_of b f)
best_of-IsHit pairs s b none h k = h
best_of-IsHit pairs s none (some f) h k = k
best_of-IsHit pairs s (some b) (some f) h k = elim (Bool-cases (better f b)) [
  | inl e ↦ rw e k
  | inr e ↦ rw e h
]

occurrence-IsHit :
    (pairs : Pairs) (s needle : String) (kind : TagKind) (o : Option (String × String))
    → IsTag pairs needle
    → split_first needle s ≡ o
    → IsHit pairs s (occurrence (needle, kind) o)
occurrence-IsHit pairs s needle kind none t e = tt
occurrence-IsHit pairs s needle kind (some (x, y)) t e = (t, split_first-append needle s x y e)

pick-IsHit :
    (pairs : Pairs) (s : String) (ns : List (String × TagKind)) (best : Option Found)
    → All (IsNeedle pairs) ns
    → IsHit pairs s best
    → IsHit pairs s (pick s best ns)
pick-IsHit pairs s [] best a h = h
pick-IsHit pairs s ((needle, kind) ∷ ns) best (t, a) h =
    pick-IsHit pairs s ns (best_of best (occurrence (needle, kind) (split_first needle s))) a (
      best_of-IsHit pairs s best _ h
        (occurrence-IsHit pairs s needle kind (split_first needle s) t refl))

pub find_next_tag-IsHit : (acc : ThinkTagAccumulator) → IsHit acc.pairs acc.held (find_next_tag acc)
unfolding find_next_tag
find_next_tag-IsHit acc = pick-IsHit acc.pairs acc.held _ none (needles-All acc.state acc.pairs) tt

-- A split of `s` whose second part has at most `max_keep` bytes.
abbrev pub IsSplit : ℕ → String → Option (String × String) → Type 0
IsSplit max_keep s none = Unit
IsSplit max_keep s (some (x, y)) = (s ≡ x ⧺ y) × (len y ≤ max_keep)

prepend_char-IsSplit :
    (max_keep : ℕ) (c : Char) (s : String) (o : Option (String × String))
    → IsSplit max_keep s o
    → IsSplit max_keep (c ⊳ s) (prepend_char c o)
prepend_char-IsSplit max_keep c s none h = tt
prepend_char-IsSplit max_keep c s (some (x, y)) (e, l) =
    (ap (λ t. c ⊳ t) e ∙ sym (cons-append c x y), l)

hold_here-IsSplit :
    (pairs : Pairs) (max_keep : ℕ) (s : String) → IsSplit max_keep s (hold_here pairs max_keep s)
hold_here-IsSplit pairs max_keep s =
    elim (Bool-cases (leb (len s) max_keep && may_begin_tag pairs "" s)) [
      | inl e ↦ rw e (sym (nil-append s), ground (arith, e))
      | inr e ↦ rw e tt
    ]

last_or-IsSplit :
    (max_keep : ℕ) (s : String) (a b : Option (String × String))
    → IsSplit max_keep s a
    → IsSplit max_keep s b
    → IsSplit max_keep s (last_or a b)
last_or-IsSplit max_keep s none b h k = k
last_or-IsSplit max_keep s (some a) b h k = h

pub hold_position-IsSplit :
    (pairs : Pairs) (max_keep : ℕ) (s : String)
    → IsSplit max_keep s (hold_position pairs max_keep s)
unfolding hold_position
hold_position-IsSplit pairs max_keep nil = tt
hold_position-IsSplit pairs max_keep (c ⊳ s) =
    last_or-IsSplit max_keep (c ⊳ s) _ _
      (prepend_char-IsSplit max_keep c s _ (hold_position-IsSplit pairs max_keep s))
      (hold_here-IsSplit pairs max_keep (c ⊳ s))
