-- ===== src/Prelude/Text.antt =====
-- `char::is_whitespace` and `str::trim` of Rust's standard library.
use Prim.Native.Char.{Char, code}
use Prim.Native.String.{String, [], ◌∷◌, ◌++◌, len, char_at}
use mathlib.Core.Option.{Option, none, some}
use mathlib.Core.Path.{◌≡◌, refl, sym, ap, ◌∙◌}
use mathlib.Core.Logic.{inl, inr}
pub use text.Mathlib.TextLemmas.{
  nil-append, cons-append, append-nil as text_append_nil, append_assoc as text_assoc, cons-ne-nil,
}
use native.Mathlib.Omega.{arith}
use text.Mathlib.TextEquality.{Char-path}
pub use text.Mathlib.TextEquality.{eq_iff}
use text.Mathlib.TextPositions.{len_utf8-pos}
pub use text.Mathlib.TextPositions.{len-append}
use text.Mathlib.Text.{◌==◌}
use Prim.Native.String.len
use Prim.Native.Nat.{ℕ, zero, suc, ◌<◌, ◌-◌}
use mathlib.Core.List.{List}
use mathlib.Core.Bool.{Bool, true, false, ◌&&◌, ◌||◌}
use llm_proxy.Prelude.Tests.{leb, is_some, nat_beq, if◌then◌else◌, Bool-cases, nat_beq_iff}

abbrev between : ℕ → ℕ → ℕ → Bool
between a b n = leb a n && leb n b

-- Unicode's `White_Space`
abbrev pub is_whitespace : Char → Bool
is_whitespace c =
    let n = code c in
    between 9 13 n
    || nat_beq n 32
    || nat_beq n 133
    || nat_beq n 160
    || nat_beq n 5760
    || between 8192 8202 n
    || between 8232 8233 n
    || nat_beq n 8239
    || nat_beq n 8287
    || nat_beq n 12288

abbrev pub trim_start : String → String
trim_start [] = []
trim_start (c ∷ s) = let t = trim_start s in if is_whitespace c then t else c ∷ s

abbrev drop_blank : Char → String → String
drop_blank c [] = if is_whitespace c then [] else c ∷ []
drop_blank c (d ∷ s) = c ∷ d ∷ s

abbrev trim_end : String → String
trim_end [] = []
trim_end (c ∷ s) = drop_blank c (trim_end s)

abbrev pub trim : String → String
trim s = trim_end (trim_start s)

-- `str::strip_prefix`, the prefix first.
abbrev pub strip_prefix : String → String → Option String
strip_prefix [] s = some s
strip_prefix (c ∷ p) [] = none
strip_prefix (c ∷ p) (d ∷ s) =
    let rest = strip_prefix p s in if nat_beq (code c) (code d) then rest else none

pub strip_prefix-append : (p s rest : String) → strip_prefix p s ≡ some rest → s ≡ p ++ rest
strip_prefix-append [] s rest h = let t : s ≡ rest = ground arith in t ∙ sym (nil-append rest)
strip_prefix-append (c ∷ p) [] rest h = absurd (ground arith)
strip_prefix-append (c ∷ p) (d ∷ s) rest h = elim (Bool-cases (nat_beq (code c) (code d))) [
  | inl e ↦
      let t : c ≡ d = Char-path c d (ground (arith, nat_beq_iff (code c) (code d))) in
      ap (λ x. x ∷ s) (sym t)
      ∙ ap (λ x. c ∷ x) (strip_prefix-append p s rest (rw e at h))
      ∙ sym (cons-append c p rest)
  | inr e ↦ absurd (ground (arith, rw e at h))
]

pub strip_prefix_self : (p s : String) → strip_prefix p (p ++ s) ≡ some s
strip_prefix_self [] s = rw nil-append refl
strip_prefix_self (c ∷ p) s =
    rw (cons-append, strip_prefix_self p s) (ground (arith, nat_beq_iff (code c) (code c)))

abbrev pub prepend_char : Char → Option (String × String) → Option (String × String)
prepend_char c none = none
prepend_char c (some (before, after)) = some (c ∷ before, after)

abbrev hit_or : Option String → Option (String × String) → Option (String × String)
hit_or none later = later
hit_or (some after) later = some ([], after)

-- `str::find` for a needle that is not empty: what stands before and after its first occurrence.
abbrev pub split_first : String → String → Option (String × String)
split_first needle [] = none
split_first needle (c ∷ s) =
    let later = prepend_char c (split_first needle s) in hit_or (strip_prefix needle (c ∷ s)) later

parts_eq : (n b b' a a' : String) → b ≡ b' → a ≡ a' → b ++ (n ++ a) ≡ b' ++ (n ++ a')
parts_eq n b b' a a' p q = ap (λ t. t ++ (n ++ a)) p ∙ ap (λ t. b' ++ (n ++ t)) q

pub split_first-append :
    (needle s before after : String)
    → split_first needle s ≡ some (before, after)
    → s ≡ before ++ (needle ++ after)
split_first-append needle [] before after h = absurd (ground arith)
split_first-append needle (c ∷ s) before after h =
    go (strip_prefix needle (c ∷ s)) (split_first needle s) refl
      (λ x y. split_first-append needle s x y) h
  where
    go :
        (o : Option String) (later : Option (String × String))
        → strip_prefix needle (c ∷ s) ≡ o
        → ((x y : String) → later ≡ some (x, y) → s ≡ x ++ (needle ++ y))
        → hit_or o (prepend_char c later) ≡ some (before, after)
        → c ∷ s ≡ before ++ (needle ++ after)
    go none none a b h = absurd (ground arith)
    go none (some (x, y)) a b h =
        let p : c ∷ x ≡ before = ground arith in
        let q : y ≡ after = ground arith in
        ap (λ t. c ∷ t) (b x y refl)
        ∙ sym (cons-append c x (needle ++ y))
        ∙ parts_eq needle _ before _ after p q
    go (some x) later a b h =
        let p : [] ≡ before = ground arith in
        let q : x ≡ after = ground arith in
        strip_prefix-append needle (c ∷ s) x a
        ∙ sym (nil-append (needle ++ x))
        ∙ parts_eq needle _ before _ after p q

pub len-pos : (s : String) → (s == "") ≡ false → 0 < len s
len-pos [] h = absurd (ground (arith, eq_iff "" ""))
len-pos (c ∷ s) h = let (k, e) = len_utf8-pos c in rw (len.cons, e) (omega arith)

pub cons_nonempty : (c : Char) (s : String) → (c ∷ s == "") ≡ false
cons_nonempty c s = ground (arith, eq_iff (c ∷ s) "", cons-ne-nil c s)

pub append_nonempty : (s : String) (c : Char) → (s ++ c ∷ [] == "") ≡ false
append_nonempty [] c = rw nil-append (cons_nonempty c [])
append_nonempty (d ∷ s) c = rw cons-append (cons_nonempty d (s ++ c ∷ []))

pub append_nonempty_left : (s t : String) → (s == "") ≡ false → (s ++ t == "") ≡ false
append_nonempty_left [] t h = absurd (ground (arith, h))
append_nonempty_left (d ∷ s) t h = rw cons-append (cons_nonempty d (s ++ t))

-- `str::contains` and `str::ends_with`, the needle first.
unfoldable pub contains : String → String → Bool
contains needle [] = needle == ""
contains needle (c ∷ s) = is_some (strip_prefix needle (c ∷ s)) || contains needle s

unfoldable pub ends_with : String → String → Bool
ends_with suffix [] = suffix == ""
ends_with suffix (c ∷ s) = c ∷ s == suffix || ends_with suffix s

-- `char::to_ascii_lowercase`, on the text, and `str::replace` of some characters by nothing.
abbrev pub to_lower : Char → Char
to_lower c =
    if between 65 90 (code c) then char_at "abcdefghijklmnopqrstuvwxyz" (code c - 65) else c

unfoldable pub to_ascii_lowercase : String → String
to_ascii_lowercase [] = []
to_ascii_lowercase (c ∷ s) = to_lower c ∷ to_ascii_lowercase s

unfoldable pub drop_chars : (Char → Bool) → String → String
drop_chars p [] = []
drop_chars p (c ∷ s) = let rest = drop_chars p s in if p c then rest else c ∷ rest

-- `join`, the separator first.
unfoldable pub join : String → List String → String
join sep List.[] = ""
join sep (List.◌∷◌ s List.[]) = s
join sep (List.◌∷◌ s (List.◌∷◌ t ts)) = s ++ (sep ++ join sep (List.◌∷◌ t ts))

-- `str::split_whitespace`, with the word that was begun.
unfoldable pub split_words : String → String → List String
split_words word [] = if word == "" then List.[] else List.◌∷◌ word List.[]
split_words word (c ∷ s) = elim (is_whitespace c) [
  | true ↦ if word == "" then split_words "" s else List.◌∷◌ word (split_words "" s)
  | false ↦ split_words (word ++ c ∷ []) s
]

-- `chars().count()` and `chars().take(n).collect()`.
unfoldable pub char_count : String → ℕ
char_count [] = 0
char_count (c ∷ s) = suc (char_count s)

unfoldable pub take_chars : ℕ → String → String
take_chars zero s = []
take_chars (suc n) [] = []
take_chars (suc n) (c ∷ s) = c ∷ take_chars n s
