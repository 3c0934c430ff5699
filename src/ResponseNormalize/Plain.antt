-- ===== src/ResponseNormalize/Plain.antt =====
-- Text without "<" goes through the accumulator at once and unchanged.
use llm_proxy.Prelude.{
  ℕ, suc, ◌+◌, ◌-◌, String, ◌≡◌, refl, sym, ap, ◌∙◌, inl, inr, Bool, false, ◌||◌, none, some, List,
  [], ◌∷◌, append-nil, arith, nat_beq, Bool-cases, All, ◌==◌,
}
use llm_proxy.Prelude.{pair_eq, string_eq, nat_eq}
use llm_proxy.Prelude.Text.{strip_prefix, split_first, append_nonempty, nil-append, cons-append}
use llm_proxy.ResponseNormalize.{
  State, in_text, in_reasoning, TagKind, Pairs, builtin_think_pairs, ThinkTagAccumulator,
  close_needle, pair_needles, needles, pick, find_next_tag, begins, is_tag_prefix, may_begin_tag,
  hold_position, hold_partial_tail, emit, finish, drain, drain_resolved, feed,
}
use llm_proxy.ResponseNormalize.Needles.{All-append}
use llm_proxy.ResponseNormalize.Conservation.{drain-last}
use Prim.Native.String.{[] as nil, ◌∷◌ as ◌⊳◌, ◌++◌ as ◌⧺◌, len}
use Prim.Native.Char.{Char, code}

unfoldable pub has_angle : String → Bool
has_angle nil = false
has_angle (c ⊳ s) = nat_beq (code c) 60 || has_angle s

abbrev BeginsAngle : String → Type 0
BeginsAngle t = (c : Char) × (rest : String) × (code c ≡ 60) × (t ≡ c ⊳ rest)

abbrev IsAngled : String × String → Type 0
IsAngled (o, c) = BeginsAngle o × BeginsAngle c

-- Every tag begins with "<".
abbrev pub HasAngles : Pairs → Type 0
HasAngles = All IsAngled

strip_prefix-none : (t s : String) → BeginsAngle t → has_angle s ≡ false → strip_prefix t s ≡ none
unfolding has_angle
strip_prefix-none t nil (c, rest, e, b) h = rw b refl
strip_prefix-none t (d ⊳ s) (c, rest, e, b) h = rw b (ground arith)

strip_prefix-angle :
    (s t : String)
    → BeginsAngle t
    → has_angle s ≡ false
    → (s == "") ≡ false
    → strip_prefix s t ≡ none
unfolding has_angle
strip_prefix-angle nil t b h n = absurd (ground (arith, n))
strip_prefix-angle (d ⊳ s) t (c, rest, e, b) h n = rw b (ground arith)

split_first-none : (t s : String) → BeginsAngle t → has_angle s ≡ false → split_first t s ≡ none
unfolding has_angle
split_first-none t nil b h = refl
split_first-none t (c ⊳ s) b h =
    let k : has_angle s ≡ false = ground arith in
    rw (strip_prefix-none t (c ⊳ s) b h, split_first-none t s b k) refl

has_angle-append : (s t : String) → has_angle (s ⧺ t) ≡ (has_angle s || has_angle t)
unfolding has_angle
has_angle-append nil t = rw nil-append refl
has_angle-append (c ⊳ s) t = rw cons-append (ground (arith, has_angle-append s t))

begins-angle :
    (s t : String) → BeginsAngle t → has_angle s ≡ false → (s == "") ≡ false → begins s t ≡ false
begins-angle s t b h n = rw (strip_prefix-angle s t b h n) (ground arith)

is_tag_prefix-angle :
    (pairs : Pairs) (s : String)
    → HasAngles pairs
    → has_angle s ≡ false
    → (s == "") ≡ false
    → is_tag_prefix pairs s ≡ false
is_tag_prefix-angle [] s a h n = refl
is_tag_prefix-angle ((o, c) ∷ pairs) s ((x, y), a) h n =
    rw (begins-angle s o x h n, begins-angle s c y h n, is_tag_prefix-angle pairs s a h n)
      (ground arith)

may_begin_tag-angle :
    (pairs : Pairs) (tail seen : String)
    → HasAngles pairs
    → has_angle seen ≡ false
    → has_angle tail ≡ false
    → may_begin_tag pairs seen tail ≡ false
unfolding has_angle
may_begin_tag-angle pairs nil seen a h k = refl
may_begin_tag-angle pairs (c ⊳ tail) seen a h k =
    let x : has_angle (seen ⧺ c ⊳ nil) ≡ false =
      has_angle-append seen (c ⊳ nil) ∙ ground (arith, h, k) in
    rw (is_tag_prefix-angle pairs (seen ⧺ c ⊳ nil) a x (append_nonempty seen c))
      (may_begin_tag-angle pairs tail (seen ⧺ c ⊳ nil) a x (ground (arith, k)))

hold_position-angle :
    (pairs : Pairs) (max_keep : ℕ) (s : String)
    → HasAngles pairs
    → has_angle s ≡ false
    → hold_position pairs max_keep s ≡ none
unfolding hold_position has_angle
hold_position-angle pairs max_keep nil a h = refl
hold_position-angle pairs max_keep (c ⊳ s) a h =
    let k : has_angle s ≡ false = ground arith in
    rw (hold_position-angle pairs max_keep s a k, may_begin_tag-angle pairs (c ⊳ s) "" a refl h)
      (ground arith)

abbrev Angled : List (String × TagKind) → Type 0
Angled = All (λ (t, kind). BeginsAngle t)

close_needle-Angled : (st : State) (c : String) → BeginsAngle c → Angled (close_needle st c)
close_needle-Angled in_text c b = tt
close_needle-Angled in_reasoning c b = elim (Bool-cases (c == "")) [
  | inl e ↦ rw e tt
  | inr e ↦ rw e (b, tt)
]

pair_needles-Angled : (st : State) (p : String × String) → IsAngled p → Angled (pair_needles st p)
pair_needles-Angled st (o, c) (x, y) = elim (Bool-cases (o == "")) [
  | inl e ↦ rw e tt
  | inr e ↦ rw e (x, close_needle-Angled st c y)
]

needles-Angled : (st : State) (pairs : Pairs) → HasAngles pairs → Angled (needles st pairs)
unfolding needles
needles-Angled st [] a = tt
needles-Angled st (p ∷ pairs) (x, a) =
    All-append (λ (t, kind). BeginsAngle t) (pair_needles st p) (needles st pairs)
      (pair_needles-Angled st p x) (needles-Angled st pairs a)

pick-none :
    (s : String) (ns : List (String × TagKind))
    → has_angle s ≡ false
    → Angled ns
    → pick s none ns ≡ none
pick-none s [] h a = refl
pick-none s ((t, kind) ∷ ns) h (b, a) = rw (split_first-none t s b h) (pick-none s ns h a)

find_next_tag-none :
    (acc : ThinkTagAccumulator)
    → HasAngles acc.pairs
    → has_angle acc.held ≡ false
    → find_next_tag acc ≡ none
unfolding find_next_tag
find_next_tag-none acc a h = pick-none acc.held _ h (needles-Angled acc.state acc.pairs a)

hold_partial_tail-all :
    (acc : ThinkTagAccumulator)
    → HasAngles acc.pairs
    → has_angle acc.held ≡ false
    → hold_partial_tail acc ≡ (acc.held, "")
unfolding hold_partial_tail
hold_partial_tail-all acc a h =
    rw (hold_position-angle acc.pairs (acc.longest_tag - 1) acc.held a h) (ground arith)

finish-all :
    (acc : ThinkTagAccumulator)
    → HasAngles acc.pairs
    → has_angle acc.held ≡ false
    → finish acc ≡ (record acc { held = "" }, emit acc.state acc.held)
unfolding finish
finish-all acc a h =
    rw (hold_partial_tail-all acc a h) (ap (λ x. (record acc { held = "" }, x)) (append-nil _))

-- Where every tag begins with "<", as the built-in ones do, and nothing is held, a chunk without
-- "<" is emitted at once, whole and unchanged, as text or as reasoning according to the state, and
-- the accumulator stays as it was.
pub feed-plain :
    (acc : ThinkTagAccumulator) (delta : String)
    → HasAngles acc.pairs
    → acc.held ≡ ""
    → has_angle delta ≡ false
    → feed acc delta ≡ some (acc, emit acc.state delta)
unfolding feed drain_resolved
feed-plain acc delta a e h =
    let q : acc.held ⧺ delta ≡ delta = ap (λ x. x ⧺ delta) e ∙ nil-append delta in
    rw q (
      ap (λ n. drain n (record acc { held = delta })) (add_one (len delta))
      ∙ drain-last (len delta) (record acc { held = delta })
          (find_next_tag-none (record acc { held = delta }) a h)
      ∙ ap (λ x. some x) (finish-all (record acc { held = delta }) a h)
      ∙ ap (λ x. some (record acc { held = x }, emit acc.state delta)) (sym e))
  where
    add_one : (n : ℕ) → n + 1 ≡ suc n
    add_one n = omega arith

pub builtin-HasAngles : HasAngles builtin_think_pairs
builtin-HasAngles =
    ((angle "think>", angle "/think>"), ((angle "thinking>", angle "/thinking>"), tt))
  where
    angle : (s : String) → BeginsAngle ("<" ⊳ s)
    angle s = ("<", s, refl, refl)
