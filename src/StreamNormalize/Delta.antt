-- ===== src/StreamNormalize/Delta.antt =====
-- src/server/stream_normalize.rs: how one chunk of a stream is rewritten.
pub mod Plain
use llm_proxy.Prelude.{
  String, Bool, true, false, not, ◌||◌, Option, none, some, List, [], ◌∷◌, if◌then◌else◌, is_some,
  ◌==◌, pair_eq, string_eq, nat_eq,
}
use llm_proxy.Json.{
  Value, null, string, array, object, Items, no_items, item, Fields, no_fields, field, get, put,
  cut,
}
use llm_proxy.ResponseNormalize.{ThinkEvent, reasoning, text, pending, ThinkTagAccumulator, emit}
use llm_proxy.ResponseNormalize.Message.{feed_events}
use Prim.Native.String.{◌++◌ as ◌⧺◌}

-- The texts and the reasoning of the events, each joined.
abbrev texts : List ThinkEvent → String
texts [] = ""
texts (text s ∷ events) = s ⧺ texts events
texts (reasoning s ∷ events) = texts events
texts (pending ∷ events) = texts events

abbrev reasons : List ThinkEvent → String
reasons [] = ""
reasons (text s ∷ events) = reasons events
reasons (reasoning s ∷ events) = s ⧺ reasons events
reasons (pending ∷ events) = reasons events

module _ {N : Type 0} where
  -- What `remove` took: a text that is not empty is kept for the reasoning.
  abbrev taken_text : Option (Value N) → String
  taken_text (some (string s)) = s
  taken_text (some v) = ""
  taken_text none = ""

  abbrev take_alias : String → Fields N × String → Fields N × String
  take_alias key (delta, parts) = (cut key delta, parts ⧺ taken_text (get key delta))

  -- `thinking` goes only if it is a text that is not empty.
  abbrev take_thinking : Fields N × String → Fields N × String
  take_thinking (delta, parts) =
      let s = taken_text (get "thinking" delta) in
      if s == "" then (delta, parts) else (cut "thinking" delta, parts ⧺ s)

  -- The parts are joined as they are taken; no part is empty, so none were taken if the text is.
  abbrev put_parts : Fields N × String → Fields N
  put_parts (delta, parts) =
      if parts == "" then delta else put "reasoning_content" (string parts) delta

  unfoldable pub fold_reasoning_aliases : Fields N → Fields N
  fold_reasoning_aliases delta = put_parts (
      take_thinking (
        take_alias "reasoning_text"
          (take_alias "reasoning" (take_alias "reasoning_content" (delta, "")))))

  abbrev appended : String → Option (Value N) → String
  appended extra (some (string existing)) = existing ⧺ extra
  appended extra (some v) = extra
  appended extra none = extra

  unfoldable pub append_reasoning : Fields N → String → Fields N
  append_reasoning delta extra =
      if extra == ""
      then delta
      else put "reasoning_content" (string (appended extra (get "reasoning_content" delta))) delta

  abbrev is_payload : Value N → Bool
  is_payload null = false
  is_payload (string s) = not (s == "")
  is_payload (array no_items) = false
  is_payload (object no_fields) = false
  is_payload v = true

  unfoldable pub delta_has_payload : Fields N → Bool
  delta_has_payload no_fields = false
  delta_has_payload (field k v fs) = is_payload v || delta_has_payload fs

  abbrev split_content :
      Fields N → ThinkTagAccumulator × List ThinkEvent → ThinkTagAccumulator × Fields N
  split_content delta (acc, events) =
      let delta' =
        if texts events == ""
        then cut "content" delta
        else put "content" (string (texts events)) delta in
      (acc, append_reasoning delta' (reasons events))

  abbrev rewrite_content :
      ThinkTagAccumulator → Fields N → Option (Value N) → ThinkTagAccumulator × Fields N
  rewrite_content acc delta (some (string content)) =
      if content == "" then (acc, delta) else split_content delta (feed_events acc content)
  rewrite_content acc delta (some v) = (acc, delta)
  rewrite_content acc delta none = (acc, delta)

  unfoldable pub rewrite_delta : ThinkTagAccumulator → Fields N → ThinkTagAccumulator × Fields N
  unfolding fold_reasoning_aliases append_reasoning
  rewrite_delta acc delta =
      let folded = fold_reasoning_aliases delta in rewrite_content acc folded (get "content" folded)

  abbrev is_finish : Option (Value N) → Bool
  is_finish (some (string s)) = not (s == "")
  is_finish (some v) = false
  is_finish none = false

  -- One round of the loop over the choices, with the flag `emit` of the rounds before.
  abbrev rewrite_choice_delta :
      ThinkTagAccumulator
      → Fields N
      → Bool
      → Option (Value N)
      → ThinkTagAccumulator × (Fields N × Bool)
  rewrite_choice_delta acc choice emit (some (object delta)) =
      let (acc', delta') = rewrite_delta acc delta in
      (acc', (put "delta" (object delta') choice, emit || delta_has_payload delta'))
  rewrite_choice_delta acc choice emit (some v) = (acc, (choice, true))
  rewrite_choice_delta acc choice emit none = (acc, (choice, true))

  abbrev rewrite_choice :
      ThinkTagAccumulator → Value N → Bool → ThinkTagAccumulator × (Value N × Bool)
  rewrite_choice acc (object choice) emit =
      let (acc', (choice', emit')) =
        rewrite_choice_delta acc choice (emit || is_finish (get "finish_reason" choice))
          (get "delta" choice) in
      (acc', (object choice', emit'))
  rewrite_choice acc v emit = (acc, (v, true))

  unfoldable pub rewrite_choices :
      ThinkTagAccumulator → Items N → Bool → ThinkTagAccumulator × (Items N × Bool)
  unfolding rewrite_delta delta_has_payload
  rewrite_choices acc no_items emit = (acc, (no_items, emit))
  rewrite_choices acc (item choice choices) emit =
      let (acc', (choice', emit')) = rewrite_choice acc choice emit in
      let (acc'', (choices', emit'')) = rewrite_choices acc' choices emit' in
      (acc'', (item choice' choices', emit''))

  abbrev rewrite_with :
      ThinkTagAccumulator → Fields N → Option (Value N) → ThinkTagAccumulator × (Fields N × Bool)
  rewrite_with acc chunk (some (array (item c cs))) =
      let (acc', (choices, emit)) = rewrite_choices acc (item c cs) (is_some (get "usage" chunk)) in
      (acc', (put "choices" (array choices) chunk, emit))
  rewrite_with acc chunk (some v) = (acc, (chunk, true))
  rewrite_with acc chunk none = (acc, (chunk, true))

  -- The chunk, rewritten, and whether it still has anything worth forwarding.
  unfoldable pub rewrite_chunk_value :
      ThinkTagAccumulator → Fields N → ThinkTagAccumulator × (Fields N × Bool)
  unfolding rewrite_choices
  rewrite_chunk_value acc chunk = rewrite_with acc chunk (get "choices" chunk)
