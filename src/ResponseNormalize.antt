-- ===== src/ResponseNormalize.antt =====
-- src/response_normalize.rs: the think-tag accumulator (`ThinkTagAccumulator`). The position of a
-- tag is kept as the texts before and after it, whose `len` counts bytes as in the source.
mod Needles
pub mod Conservation
pub mod Chunks
pub mod Plain
pub mod Message
mod Examples
use llm_proxy.Prelude.{
  ℕ, zero, suc, ◌+◌, ◌-◌, max, String, Bool, true, false, not, ◌&&◌, ◌||◌, Option, none, some, List,
  [], ◌∷◌, ◌++◌, ltb, leb, if◌then◌else◌, is_some, any, ◌==◌,
}
use llm_proxy.Prelude.{pair_eq, string_eq, nat_eq}
use llm_proxy.Prelude.Text.{strip_prefix, prepend_char, split_first}
use Prim.Native.String.{[] as nil, ◌∷◌ as ◌⊳◌, ◌++◌ as ◌⧺◌, len}

pub data ThinkEvent : Type 0 where
  reasoning : String → ThinkEvent
  text : String → ThinkEvent
  pending : ThinkEvent

pub data State : Type 0 where
  in_text in_reasoning : State

pub data TagKind : Type 0 where
  open_tag close_tag : TagKind

abbrev pub Pairs : Type 0
Pairs = List (String × String)

abbrev pub builtin_think_pairs : Pairs
builtin_think_pairs = ("<think>", "</think>") ∷ ("<thinking>", "</thinking>") ∷ []

pub record ThinkTagAccumulator : Type 0 where
  pub pairs : Pairs
  pub state : State
  pub held : String
  pub longest_tag : ℕ
  pub tag_count : ℕ

abbrev longest : Pairs → ℕ
longest [] = 0
longest ((o, c) ∷ pairs) = max (max (len o) (len c)) (longest pairs)

unfoldable pub new : Pairs → ThinkTagAccumulator
new pairs = record {
  pairs = pairs;
  state = in_text;
  held = "";
  longest_tag = longest pairs;
  tag_count = 0;
}

abbrev is_reasoning : State → Bool
is_reasoning in_text = false
is_reasoning in_reasoning = true

abbrev pub in_reasoning? : ThinkTagAccumulator → Bool
in_reasoning? acc = is_reasoning acc.state

-- `(byte_offset, tag_str, kind)`, and what follows the tag.
pub record Found : Type 0 where
  pub before : String
  pub after : String
  pub tag : String
  pub kind : TagKind

-- The tags that are looked for: a close tag only inside a reasoning block.
abbrev close_needle : State → String → List (String × TagKind)
close_needle in_text c = []
close_needle in_reasoning c = if c == "" then [] else (c, close_tag) ∷ []

abbrev pair_needles : State → String × String → List (String × TagKind)
pair_needles st (o, c) = if o == "" then [] else (o, open_tag) ∷ close_needle st c

unfoldable pub needles : State → Pairs → List (String × TagKind)
needles st [] = []
needles st (p ∷ pairs) = pair_needles st p ++ needles st pairs

-- `replace`: an earlier occurrence, or a longer tag at the same place.
abbrev better : Found → Found → Bool
better f b =
    ltb (len f.before) (len b.before) || len f.before == len b.before && ltb (len b.tag) (len f.tag)

abbrev best_of : Option Found → Option Found → Option Found
best_of best none = best
best_of none (some f) = some f
best_of (some b) (some f) = if better f b then some f else some b

abbrev occurrence : String × TagKind → Option (String × String) → Option Found
occurrence needle none = none
occurrence (needle, kind) (some (before, after)) =
    some (record { before = before; after = after; tag = needle; kind = kind })

abbrev pick : String → Option Found → List (String × TagKind) → Option Found
pick s best [] = best
pick s best ((needle, kind) ∷ rest) =
    pick s (best_of best (occurrence (needle, kind) (split_first needle s))) rest

unfoldable pub find_next_tag : ThinkTagAccumulator → Option Found
unfolding needles
find_next_tag acc = pick acc.held none (needles acc.state acc.pairs)

-- `needle.starts_with(substr)` for a tag of a pair that counts.
abbrev begins : String → String → Bool
begins substr needle = not (needle == "") && is_some (strip_prefix substr needle)

abbrev is_tag_prefix : Pairs → String → Bool
is_tag_prefix pairs substr =
    any (λ (o, c). not (o == "") && (begins substr o || begins substr c)) pairs

-- The loop over `tail.chars()`: `seen` is what was read of the tail.
abbrev may_begin_tag : Pairs → String → String → Bool
may_begin_tag pairs seen nil = false
may_begin_tag pairs seen (c ⊳ tail) =
    let more = may_begin_tag pairs (seen ⧺ c ⊳ nil) tail in
    is_tag_prefix pairs (seen ⧺ c ⊳ nil) || more

-- The last position at most `max_keep` bytes before the end where a tag may begin.
abbrev hold_here : Pairs → ℕ → String → Option (String × String)
hold_here pairs max_keep tail =
    if leb (len tail) max_keep && may_begin_tag pairs "" tail then some ("", tail) else none

abbrev last_or : Option (String × String) → Option (String × String) → Option (String × String)
last_or none here = here
last_or (some later) here = some later

unfoldable pub hold_position : Pairs → ℕ → String → Option (String × String)
hold_position pairs max_keep nil = none
hold_position pairs max_keep (c ⊳ s) =
    last_or (prepend_char c (hold_position pairs max_keep s)) (hold_here pairs max_keep (c ⊳ s))

-- What is emitted, and what is held.
abbrev held_at : String → Option (String × String) → String × String
held_at s none = (s, "")
held_at s (some split) = split

unfoldable pub hold_partial_tail : ThinkTagAccumulator → String × String
unfolding hold_position
hold_partial_tail acc =
    if acc.held == "" || acc.longest_tag == 0
    then (acc.held, "")
    else held_at acc.held (hold_position acc.pairs (acc.longest_tag - 1) acc.held)

abbrev event : State → String → ThinkEvent
event in_text s = text s
event in_reasoning s = reasoning s

abbrev pub emit : State → String → List ThinkEvent
emit st s = if s == "" then [] else event st s ∷ []

abbrev after_tag : TagKind → State
after_tag open_tag = in_reasoning
after_tag close_tag = in_text

abbrev consume : ThinkTagAccumulator → Found → ThinkTagAccumulator
consume acc f = record acc {
  state = after_tag f.kind;
  held = f.after;
  tag_count = acc.tag_count + 1;
}

abbrev rest_pending : String → List ThinkEvent
rest_pending s = if s == "" then [] else pending ∷ []

unfoldable pub finish : ThinkTagAccumulator → ThinkTagAccumulator × List ThinkEvent
unfolding hold_partial_tail
finish acc =
    let (flushed, kept) = hold_partial_tail acc in
    (record acc { held = kept }, emit acc.state flushed ++ rest_pending kept)

abbrev before_events :
    List ThinkEvent
    → Option (ThinkTagAccumulator × List ThinkEvent)
    → Option (ThinkTagAccumulator × List ThinkEvent)
before_events events none = none
before_events events (some (acc, later)) = some (acc, events ++ later)

-- The `loop` of `drain_resolved`, on fuel.
unfoldable pub drain : ℕ → ThinkTagAccumulator → Option (ThinkTagAccumulator × List ThinkEvent)
unfolding find_next_tag finish
drain zero acc = none
drain (suc fuel) acc = elim (find_next_tag acc) [
  | none ↦ some (finish acc)
  | some f ↦ before_events (emit acc.state f.before) (drain fuel (consume acc f))
]

unfoldable pub drain_resolved : ThinkTagAccumulator → Option (ThinkTagAccumulator × List ThinkEvent)
unfolding drain
drain_resolved acc = drain (len acc.held + 1) acc

unfoldable pub feed : ThinkTagAccumulator → String → Option (ThinkTagAccumulator × List ThinkEvent)
unfolding drain_resolved
feed acc delta = drain_resolved (record acc { held = acc.held ⧺ delta })

unfoldable pub flush : ThinkTagAccumulator → ThinkTagAccumulator × String
flush acc = (record acc { held = "" }, acc.held)
